-- ===== src/Client/Run/Reported.antt =====
-- What `RunCommand` answers for a command that ends in time and reports its end.
use mcp_ssh_workspace.Common.{
  ℕ, ◌^◌, ◌<◌, ◌≡◌, ◌≢◌, refl, Bool, false, Option, none, some, [], ◌∷◌, ◌++◌, Bytes, if◌then◌else◌,
}
use mcp_ssh_workspace.Common.Int.{ℤ, pos, is_nonpos}
use mcp_ssh_workspace.Common.Result.{ok}
use mcp_ssh_workspace.Config.{Machine}
use mcp_ssh_workspace.Tasks.{register}
use mcp_ssh_workspace.Text.Search.{newline, last_index}
use mcp_ssh_workspace.Text.Trim.{trim_space}
use mcp_ssh_workspace.Exec.Finish.{WaitError}
use mcp_ssh_workspace.Exec.Wrap.{wrap_command}
use mcp_ssh_workspace.Exec.Markers.RoundTrip.{report, exit_mark}
use mcp_ssh_workspace.Client.{Client, Network, connected, ensure_connected}
use mcp_ssh_workspace.Client.Run.{
  ended, ExecResult, CommandOptions, Sessions, exit_code_of, active_cwd, sudo_command, keep_sudo,
  after_race, session_started, try_start, try_stdin, try_session, with_ssh, after_ssh, run_ready,
  run_command,
}
use mcp_ssh_workspace.Client.Run.Ended.{ended-report}

-- The result for the output `out`, the exit code and the directory of the report.
abbrev pub reported : Option WaitError → Bytes → Bytes → ℕ → Bytes → ExecResult
reported e out stderr code dir = record {
  stdout = out;
  stderr = stderr;
  exit_code = exit_code_of e (pos code);
  cwd = dir;
  is_async = false;
  task_id = [];
}

-- The time that a command has: 5 seconds, unless more than 0 was asked for.
abbrev pub limit : ℤ → ℤ
limit wait_ms = if is_nonpos wait_ms then pos 5000 else wait_ms

module _ (e : Option WaitError) (out stderr : Bytes) (code : ℕ) (dir : Bytes)
    (no_mark : last_index (dir ++ newline ∷ []) exit_mark ≡ none) (fits : code < 2 ^ 63)
    (trimmed : trim_space dir ≡ dir) (some_dir : dir ≢ []) where
  module _ {W : Type 0} (s : Sessions W) (cmd script active : Bytes) (wait_ms : ℤ) where
    started-reported :
        (sess stdin : ℕ) (c : Client) (w w' : W)
        → s.race sess (limit wait_ms) w ≡ (ended e (out ++ report code dir) stderr, w')
        → let x = session_started s cmd script active false wait_ms sess stdin c w in
          (x.0 ≡ ok (reported e out stderr code dir))
          × (x.1.current_cwd ≡ dir)
          × (x.2 ≡ s.close_session sess w')
    unfolding session_started after_race register
    started-reported sess stdin c w w' race =
        let (t, tasks) = register cmd active (s.now w) sess stdin [] [] c.task_mgr in
        let (result, there) =
          ended-report t refl active e stderr (record c { task_mgr = tasks }) out code dir no_mark
            fits trimmed some_dir in
        rw race (result, there, refl)

    ssh-reported :
        (handle : Option ℕ) (c : Client) (w2 w3 w4 w5 w6 : W) (cli sess stdin : ℕ)
        → handle ≡ some cli
        → s.new_session cli w2 ≡ (connected sess, w3)
        → s.stdin_pipe sess w3 ≡ (connected stdin, w4)
        → s.start sess script w4 ≡ (none, w5)
        → s.race sess (limit wait_ms) w5 ≡ (ended e (out ++ report code dir) stderr, w6)
        → let x = with_ssh s cmd script active false wait_ms handle c w2 in
          (x.0 ≡ ok (reported e out stderr code dir))
          × (x.1.current_cwd ≡ dir)
          × (x.2 ≡ s.close_session sess w6)
    unfolding with_ssh try_session try_stdin try_start
    ssh-reported handle c w2 w3 w4 w5 w6 cli sess stdin client opens pipe starts race =
        rw (client, opens, pipe, starts) (started-reported sess stdin c w5 w6 race)

  -- The client connects, a session is opened and started with the wrapped script, and it ends in time,
  -- with the report behind the output. Then the result is the reported one, the client is in its
  -- directory, and the session is closed.
  pub run_command-reported :
      {W : Type 0}
      → (m : Machine) (n : Network W) (s : Sessions W) (is_print : ℕ → Bool)
        (cmd target_cwd : Bytes) (wait_ms : ℤ) (opt : CommandOptions) (c c1 c2 : Client)
        (w w1 w2 w3 w4 w5 w6 : W) (cli sess stdin : ℕ)
      → ensure_connected m n c w ≡ (none, c1, w1)
      → ensure_connected m n (keep_sudo opt c1) w1 ≡ (none, c2, w2)
      → c2.ssh_client ≡ some cli
      → s.new_session cli w2 ≡ (connected sess, w3)
      → s.stdin_pipe sess w3 ≡ (connected stdin, w4)
      → s.start sess
          (wrap_command is_print
            (sudo_command opt cmd)
            (active_cwd target_cwd c1)
            (keep_sudo opt c1).sudo_password).0
          w4
        ≡ (none, w5)
      → s.race sess (limit wait_ms) w5 ≡ (ended e (out ++ report code dir) stderr, w6)
      → let x = run_command m n s is_print cmd target_cwd false wait_ms opt c w in
        (x.0 ≡ ok (reported e out stderr code dir))
        × (x.1.current_cwd ≡ dir)
        × (x.2 ≡ s.close_session sess w6)
  unfolding run_command run_ready after_ssh
  run_command-reported m n s is_print cmd target_cwd wait_ms opt c c1 c2 w w1 w2 w3 w4 w5 w6 cli
        sess stdin up again client opens pipe starts race =
      rw (up, again)
        (ssh-reported s (sudo_command opt cmd)
          (wrap_command is_print (sudo_command opt cmd) (active_cwd target_cwd c1)
            (keep_sudo opt c1).sudo_password).0
          (active_cwd target_cwd c1) wait_ms c2.ssh_client c2 w2 w3 w4 w5 w6 cli sess stdin client
          opens pipe starts race)
