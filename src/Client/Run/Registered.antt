-- ===== src/Client/Run/Registered.antt =====
-- Whether `RunCommand` registers a task.
use mcp_ssh_workspace.Common.{
  ℕ, ◌≡◌, ◌⊎◌, inl, inr, refl, ◌∙◌, Bool, true, false, if◌then◌else◌, Bool-cases, Option, none,
  some, [], Bytes, eqb,
}
use mathlib.Core.Bool.{false≢true}
use mcp_ssh_workspace.Common.Int.{ℤ, pos, is_nonpos}
use mcp_ssh_workspace.Common.Result.{Result, ok, err}
use mcp_ssh_workspace.Config.{Machine}
use mcp_ssh_workspace.Tasks.{Task, register}
use mcp_ssh_workspace.Exec.Finish.{run_steps}
use mcp_ssh_workspace.Exec.Wrap.{wrap_command}
use mcp_ssh_workspace.Client.{
  Client, Network, Dialled, connected, failed, ConnectError, is_connected, set_sudo_password,
  ensure_connected,
}
use mcp_ssh_workspace.Client.Connecting.{ensure-SameManagers, ensure_connected-Ready}
use mcp_ssh_workspace.Client.Run.{
  Race, ended, timed_out, after_race, command_ended, ended_result, end_task, ExecResult,
  CommandOptions, RunError, not_connected, session_failed, stdin_failed, start_failed, Sessions,
  active_cwd, sudo_command, keep_sudo, session_started, try_start, try_stdin, try_session, with_ssh,
  after_ssh, run_ready, run_command,
}

-- A result, or an error that leaves the tasks as they are.
abbrev pub Registers : {W : Type 0} → Client → Result RunError ExecResult × Client × W → Type 0
Registers c x =
    ((res : ExecResult) × (x.0 ≡ ok res))
    ⊎ ((why : RunError) × (x.0 ≡ err why) × (x.1.task_mgr ≡ c.task_mgr))

Registers-same :
    {W : Type 0}
    → (c c' : Client) (x : Result RunError ExecResult × Client × W) → c'.task_mgr ≡ c.task_mgr
    → Registers c' x
    → Registers c x
Registers-same c c' x same (inl done) = inl done
Registers-same c c' x same (inr (why, e, kept)) = inr (why, e, kept ∙ same)

-- The end of a session closes the channel of a task once, so that it does not panic if the channel is
-- open.
end_answers :
    (result : ExecResult) (new_cwd stdout stderr : Bytes) (t : Task) (c : Client)
    → t.done_closed ≡ false
    → (ended_result result new_cwd (end_task stdout stderr t) t.id c).0 ≡ ok result
unfolding ended_result run_steps
end_answers result new_cwd stdout stderr t c waiting = rw waiting refl

race_answers :
    (t : Task) (active : Bytes) (race : Race) (c : Client)
    → t.done_closed ≡ false
    → (res : ExecResult) × ((after_race t active race c).0 ≡ ok res)
unfolding after_race command_ended
race_answers t active (ended e stdout stderr) c waiting =
    (_, end_answers _ _ stdout stderr t c waiting)
race_answers t active (timed_out stdout stderr) c waiting = (_, refl)

module _ {W : Type 0} (s : Sessions W) (cmd script active : Bytes) (is_daemon : Bool)
    (wait_ms : ℤ) where
  started-Registers :
      (sess stdin : ℕ) (c : Client) (w : W)
      → Registers c (session_started s cmd script active is_daemon wait_ms sess stdin c w)
  unfolding session_started register
  started-Registers sess stdin c w =
      let (race, w') = s.race sess (if is_nonpos wait_ms then pos 5000 else wait_ms) w in
      let (t, tasks) = register cmd active (s.now w) sess stdin [] [] c.task_mgr in
      elim (Bool-cases is_daemon) [
        | inl e ↦ rw e (inl (_, refl))
        | inr e ↦ rw e (inl (race_answers t active race (record c { task_mgr = tasks }) refl))
      ]

  start-Registers :
      (sess stdin : ℕ) (c : Client) (answer : Option Bytes × W)
      → Registers c (try_start s cmd script active is_daemon wait_ms sess stdin c answer)
  unfolding try_start
  start-Registers sess stdin c (some why, w) = inr (start_failed why, refl, refl)
  start-Registers sess stdin c (none, w) = started-Registers sess stdin c w

  stdin-Registers :
      (sess : ℕ) (c : Client) (answer : Dialled × W)
      → Registers c (try_stdin s cmd script active is_daemon wait_ms sess c answer)
  unfolding try_stdin
  stdin-Registers sess c (failed why, w) = inr (stdin_failed why, refl, refl)
  stdin-Registers sess c (connected stdin, w) = start-Registers sess stdin c (s.start sess script w)

  session-Registers :
      (c : Client) (answer : Dialled × W)
      → Registers c (try_session s cmd script active is_daemon wait_ms c answer)
  unfolding try_session
  session-Registers c (failed why, w) = inr (session_failed why, refl, refl)
  session-Registers c (connected sess, w) = stdin-Registers sess c (s.stdin_pipe sess w)

  ssh-Registers :
      (handle : Option ℕ) (c : Client) (w : W)
      → c.ssh_client ≡ handle
      → is_connected c ≡ true
      → Registers c (with_ssh s cmd script active is_daemon wait_ms handle c w)
  unfolding with_ssh is_connected
  ssh-Registers none c w e up = absurd (false≢true (rw e at up))
  ssh-Registers (some cli) c w e up = session-Registers c (s.new_session cli w)

  after-Registers :
      (c : Client) (r : Option ConnectError × Client × W)
      → r.1.task_mgr ≡ c.task_mgr
      → (r.0 ≡ none → is_connected r.1 ≡ true)
      → Registers c (after_ssh s cmd script active is_daemon wait_ms r)
  unfolding after_ssh
  after-Registers c (some e, c', w) same up = inr (not_connected e, refl, same)
  after-Registers c (none, c', w) same up =
      Registers-same c c' (with_ssh s cmd script active is_daemon wait_ms c'.ssh_client c' w) same
        (ssh-Registers c'.ssh_client c' w refl (up refl))

module _ {W : Type 0} (m : Machine) (n : Network W) (s : Sessions W) (is_print : ℕ → Bool)
    (cmd target_cwd : Bytes) (is_daemon : Bool) (wait_ms : ℤ) (opt : CommandOptions) where
  keep_tasks : (c : Client) → (keep_sudo opt c).task_mgr ≡ c.task_mgr
  unfolding keep_sudo set_sudo_password
  keep_tasks c = elim (Bool-cases (eqb opt.sudo_password [])) [
    | inl e ↦ rw e refl
    | inr e ↦ rw e refl
  ]

  ready-Registers :
      (c : Client) (r : Option ConnectError × Client × W)
      → r.1.task_mgr ≡ c.task_mgr
      → Registers c (run_ready m n s is_print cmd target_cwd is_daemon wait_ms opt r)
  unfolding run_ready
  ready-Registers c (some e, c', w) same = inr (not_connected e, refl, same)
  ready-Registers c (none, c', w) same =
      let d = keep_sudo opt c' in
      after-Registers s (sudo_command opt cmd)
        (wrap_command is_print (sudo_command opt cmd) (active_cwd target_cwd c') d.sudo_password).0
        (active_cwd target_cwd c') is_daemon wait_ms c (ensure_connected m n d w)
        ((ensure-SameManagers m n d w).0 ∙ keep_tasks c' ∙ same)
        (λ ok. (ensure_connected-Ready m n d w ok).0)

  -- `run_command` answers a result, or an error; it never panics on a missing client. With an error
  -- the tasks are what they were.
  pub run-Registers :
      (c : Client) (w : W)
      → Registers c (run_command m n s is_print cmd target_cwd is_daemon wait_ms opt c w)
  unfolding run_command
  run-Registers c w = ready-Registers c (ensure_connected m n c w) (ensure-SameManagers m n c w).0
