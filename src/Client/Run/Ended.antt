-- ===== src/Client/Run/Ended.antt =====
-- What a command that ended in time leaves behind.
use mcp_ssh_workspace.Common.{
  ℕ, ◌^◌, ◌<◌, ◌≡◌, ◌≢◌, refl, false, Bool-cases, inl, inr, Option, none, [], ◌∷◌, ◌++◌, Bytes, eqb,
  eqb_iff,
}
use mcp_ssh_workspace.Common.Int.{pos}
use mcp_ssh_workspace.Text.Search.{newline, last_index}
use mcp_ssh_workspace.Text.Trim.{trim_space}
use mcp_ssh_workspace.Exec.Markers.{parse_command_markers}
use mcp_ssh_workspace.Exec.Markers.RoundTrip.{report, exit_mark, parse-report}
use mcp_ssh_workspace.Common.Result.{ok}
use mcp_ssh_workspace.Tasks.{Task}
use mcp_ssh_workspace.Exec.Finish.{WaitError, run_steps}
use mcp_ssh_workspace.Client.{Client, set_cwd}
use mcp_ssh_workspace.Client.Run.{exit_code_of, ended_result, command_ended}

-- The channel of the task is open, as that of a task that was made just now is.
module _ (t : Task) (waiting : t.done_closed ≡ false) (active : Bytes) (e : Option WaitError)
    (stderr : Bytes) (c : Client) where
  -- The script printed the report behind the output of the command. Then the result has the output
  -- alone, the exit code of the command, or that of the session for the code 0, and the directory in
  -- which the command ended; and that directory is the client's from then on. The directory is not
  -- empty, holds no exit marker, and has no blanks at its ends.
  pub ended-report :
      (out : Bytes) (code : ℕ) (cwd : Bytes)
      → last_index (cwd ++ newline ∷ []) exit_mark ≡ none
      → code < 2 ^ 63
      → trim_space cwd ≡ cwd
      → cwd ≢ []
      → let (r, c') = command_ended t active e (out ++ report code cwd) stderr c in
        (r
          ≡ ok (record {
            stdout = out;
            stderr = stderr;
            exit_code = exit_code_of e (pos code);
            cwd = cwd;
            is_async = false;
            task_id = [];
          }))
        × (c'.current_cwd ≡ cwd)
  unfolding command_ended ended_result run_steps set_cwd
  ended-report out code cwd no_mark fits trimmed some_dir = elim (Bool-cases (eqb cwd [])) [
    | inl blank ↦ absurd (some_dir ((eqb_iff cwd []).0 blank))
    | inr here ↦ rw (parse-report out code cwd no_mark fits trimmed, waiting, here) (refl, refl)
  ]

  -- Without the exit marker, as when the command ended the shell, the whole output is shown, and the
  -- client stays in its directory.
  pub ended-no_report :
      (raw : Bytes)
      → last_index raw exit_mark ≡ none
      → let (r, c') = command_ended t active e raw stderr c in
        (r
          ≡ ok (record {
            stdout = raw;
            stderr = stderr;
            exit_code = exit_code_of e (pos 0);
            cwd = active;
            is_async = false;
            task_id = [];
          }))
        × (c'.current_cwd ≡ c.current_cwd)
  unfolding command_ended ended_result run_steps parse_command_markers eqb
  ended-no_report raw no_mark = rw (no_mark, waiting) (refl, refl)
