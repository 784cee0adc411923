-- ===== src/Client/Run.antt =====
-- `RunCommand` of internal/sshclient/exec.go.
pub mod Ended
pub mod Reported
pub mod Registered
pub mod Valid
use mcp_ssh_workspace.Common.{
  ℕ, ◌≡◌, Bool, true, false, not, ◌&&◌, Option, none, some, List, [], ◌∷◌, ◌++◌, Bytes, codes, eqb,
  if◌then◌else◌,
}
use mcp_ssh_workspace.Common.Int.{ℤ, pos, is_nonpos}
use mcp_ssh_workspace.Common.Result.{Result, ok, err, panic}
use mcp_ssh_workspace.Text.Search.{has_prefix}
use mcp_ssh_workspace.Text.Trim.{trim_space}
use mcp_ssh_workspace.Config.{Machine, is_zero}
use mcp_ssh_workspace.Tasks.{Task, TaskManager, register, update}
use mcp_ssh_workspace.Exec.Wrap.{wrap_command}
use mcp_ssh_workspace.Exec.Markers.{mcp_exit, mcp_cwd, parse_command_markers}
use mcp_ssh_workspace.Exec.Finish.{
  WaitError, exit_error, other_error, FinishStep, run_steps, foreground_steps,
}
use mcp_ssh_workspace.Client.{
  Client, Network, Dialled, connected, failed, ConnectError, set_sudo_password, set_cwd,
  ensure_connected,
}

pub record ExecResult : Type 0 where
  pub stdout : Bytes
  pub stderr : Bytes
  pub exit_code : ℤ
  pub cwd : Bytes
  pub is_async : Bool
  pub task_id : Bytes

-- No options are options with the zero values.
pub record CommandOptions : Type 0 where
  pub sudo_password : Bytes
  pub run_as_sudo : Bool

pub data RunError : Type 0 where
  not_connected : ConnectError → RunError
  session_failed stdin_failed start_failed : Bytes → RunError

-- Which channel the `select` answers first, with what was written to the two buffers until then: the
-- command ended, and `Wait` answered its error; or the time was over.
pub data Race : Type 0 where
  ended : Option WaitError → Bytes → Bytes → Race
  timed_out : Bytes → Bytes → Race

-- The calls of the SSH library for one session. `now` is the clock.
pub record Sessions (W : Type 0) : Type 0 where
  pub new_session : ℕ → W → Dialled × W
  pub stdin_pipe : ℕ → W → Dialled × W
  pub start : ℕ → Bytes → W → Option Bytes × W
  pub close_session : ℕ → W → W
  pub race : ℕ → ℤ → W → Race × W
  pub now : W → ℕ

abbrev pub active_cwd : Bytes → Client → Bytes
active_cwd target_cwd c = if eqb target_cwd [] then c.current_cwd else target_cwd

-- The command that the option runs as root, unless it starts with `sudo` itself.
unfoldable pub sudo_command : CommandOptions → Bytes → Bytes
sudo_command opt cmd =
    if opt.run_as_sudo && not (has_prefix (trim_space cmd) (codes "sudo"))
    then codes "sudo " ++ cmd
    else cmd

-- A password of the options is kept for later commands.
unfoldable pub keep_sudo : CommandOptions → Client → Client
keep_sudo opt c =
    if not (eqb opt.sudo_password []) then set_sudo_password opt.sudo_password c else c

-- The exit status that `Wait` knows counts if the markers told none.
abbrev pub exit_code_of : Option WaitError → ℤ → ℤ
exit_code_of none code = code
exit_code_of (some (other_error msg)) code = code
exit_code_of (some (exit_error status)) code = if is_zero code then status else code

abbrev pub with_output : Bytes → Bytes → Task → Task
with_output stdout stderr t = record t { stdout = stdout; stderr = stderr }

-- What the end of its session does to a task. Closing a channel that is closed panics.
abbrev pub end_task : Bytes → Bytes → Task → Result (Unit {0}) Task
end_task stdout stderr t = run_steps foreground_steps (with_output stdout stderr t)

-- The result, and the task as it is left; an empty directory stands for the client's own.
unfoldable pub ended_result :
    ExecResult
    → Bytes
    → Result (Unit {0}) Task
    → Bytes
    → Client
    → Result RunError ExecResult × Client
ended_result result new_cwd (ok t) id c =
    let c' = record c { task_mgr = update id (λ _. t) c.task_mgr } in
    (ok result, if not (eqb new_cwd []) then set_cwd new_cwd c' else c')
ended_result result new_cwd (err e) id c = (panic, c)
ended_result result new_cwd panic id c = (panic, c)

-- The branch of a command that ended in time, for its task.
unfoldable pub command_ended :
    Task → Bytes → Option WaitError → Bytes → Bytes → Client → Result RunError ExecResult × Client
unfolding ended_result
command_ended t active e raw_stdout raw_stderr c =
    let (clean_stdout, new_cwd, code) = parse_command_markers raw_stdout mcp_exit mcp_cwd in
    ended_result
      (record {
        stdout = clean_stdout;
        stderr = raw_stderr;
        exit_code = exit_code_of e code;
        cwd = if not (eqb new_cwd []) then new_cwd else active;
        is_async = false;
        task_id = [];
      })
      new_cwd (end_task raw_stdout raw_stderr t) t.id c

-- The branch of a command that goes on in the background.
unfoldable pub command_detached : Bytes → Bytes → Bytes → Bytes → Client → ExecResult × Client
command_detached id active raw_stdout raw_stderr c = (
  record {
    stdout = raw_stdout;
    stderr = raw_stderr;
    exit_code = pos 0;
    cwd = active;
    is_async = true;
    task_id = id;
  },
  record c { task_mgr = update id (with_output raw_stdout raw_stderr) c.task_mgr },
)

unfoldable pub after_race : Task → Bytes → Race → Client → Result RunError ExecResult × Client
after_race t active (ended e stdout stderr) c = command_ended t active e stdout stderr c
after_race t active (timed_out stdout stderr) c =
    let (result, c') = command_detached t.id active stdout stderr c in (ok result, c')

abbrev Outcome : Type 0 → Type 0
Outcome W = Result RunError ExecResult × Client × W

module _ {W : Type 0} (s : Sessions W) (cmd script active : Bytes) (is_daemon : Bool)
    (wait_ms : ℤ) where
  -- The session of a command that ended is closed.
  abbrev pub race_world : ℕ → Race → W → W
  race_world sess (ended e stdout stderr) w = s.close_session sess w
  race_world sess (timed_out stdout stderr) w = w

  -- The session runs, so the task is registered.
  unfoldable pub session_started : ℕ → ℕ → Client → W → Outcome W
  session_started sess stdin c w =
      let (t, tasks) = register cmd active (s.now w) sess stdin [] [] c.task_mgr in
      let c' = record c { task_mgr = tasks } in
      let (race, w') = s.race sess (if is_nonpos wait_ms then pos 5000 else wait_ms) w in
      let (detached, c_detached) = command_detached t.id active [] [] c' in
      let (result, c_after) = after_race t active race c' in
      if is_daemon then (ok detached, c_detached, w) else (result, c_after, race_world sess race w')

  unfoldable pub try_start : ℕ → ℕ → Client → Option Bytes × W → Outcome W
  try_start sess stdin c (some why, w) = (err (start_failed why), c, s.close_session sess w)
  try_start sess stdin c (none, w) = session_started sess stdin c w

  unfoldable pub try_stdin : ℕ → Client → Dialled × W → Outcome W
  try_stdin sess c (failed why, w) = (err (stdin_failed why), c, s.close_session sess w)
  try_stdin sess c (connected stdin, w) = try_start sess stdin c (s.start sess script w)

  unfoldable pub try_session : Client → Dialled × W → Outcome W
  try_session c (failed why, w) = (err (session_failed why), c, w)
  try_session c (connected sess, w) = try_stdin sess c (s.stdin_pipe sess w)

  -- A `nil` client panics.
  unfoldable pub with_ssh : Option ℕ → Client → W → Outcome W
  with_ssh none c w = (panic, c, w)
  with_ssh (some cli) c w = try_session c (s.new_session cli w)

  unfoldable pub after_ssh : Option ConnectError × Client × W → Outcome W
  after_ssh (some e, c, w) = (err (not_connected e), c, w)
  after_ssh (none, c, w) = with_ssh c.ssh_client c w

-- The table of `unicode.IsPrint` is a parameter, as it is for `%q`.
module _ {W : Type 0} (m : Machine) (n : Network W) (s : Sessions W) (is_print : ℕ → Bool) where
  unfoldable pub run_ready :
      Bytes → Bytes → Bool → ℤ → CommandOptions → Option ConnectError × Client × W → Outcome W
  run_ready cmd target_cwd is_daemon wait_ms opt (some e, c, w) = (err (not_connected e), c, w)
  run_ready cmd target_cwd is_daemon wait_ms opt (none, c, w) =
      let active = active_cwd target_cwd c in
      let cmd' = sudo_command opt cmd in
      let c' = keep_sudo opt c in
      let script = (wrap_command is_print cmd' active c'.sudo_password).0 in
      after_ssh s cmd' script active is_daemon wait_ms (ensure_connected m n c' w)

  unfoldable pub run_command : Bytes → Bytes → Bool → ℤ → CommandOptions → Client → W → Outcome W
  run_command cmd target_cwd is_daemon wait_ms opt c w =
      run_ready cmd target_cwd is_daemon wait_ms opt (ensure_connected m n c w)
