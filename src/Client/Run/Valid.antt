-- ===== src/Client/Run/Valid.antt =====
-- `RunCommand` keeps the registry of the tasks well formed, and the tunnels as they are.
use mcp_ssh_workspace.Common.{
  ℕ, ◌+◌, ◌^◌, ◌<◌, ◌≡◌, refl, sym, ap, ◌∙◌, Bool, Bool-cases, inl, inr, Option, none, some, [],
  Bytes, eqb, if◌then◌else◌,
}
use mathlib.Core.Path.{subst}
use mcp_ssh_workspace.Common.Int.{ℤ, pos, is_nonpos}
use mcp_ssh_workspace.Common.Result.{Result, ok, err, panic, ok-injective, panic-ne-ok}
use mcp_ssh_workspace.Config.{Machine}
use mcp_ssh_workspace.Exec.Wrap.{wrap_command}
use mcp_ssh_workspace.Tasks.{Task, register}
use mcp_ssh_workspace.Tasks.Registry.{IsValid, register-IsValid, update-IsValid}
use mcp_ssh_workspace.Exec.Finish.{WaitError, run_steps}
use mcp_ssh_workspace.Client.{
  Client, Network, Dialled, connected, failed, ConnectError, set_sudo_password, set_cwd,
  ensure_connected,
}
use mcp_ssh_workspace.Client.Connecting.{ensure-SameManagers}
use mcp_ssh_workspace.Client.Run.{
  ExecResult, ended_result, CommandOptions, Race, ended, timed_out, Sessions, active_cwd,
  sudo_command, keep_sudo, with_output, end_task, command_ended, command_detached, after_race,
  session_started, try_start, try_stdin, try_session, with_ssh, after_ssh, run_ready, run_command,
}

-- What a call of the client keeps: the registry of the tasks is well formed, and the tunnels are
-- those from before.
abbrev pub Keeps : Client → Client → Type 0
Keeps c c' = IsValid c'.task_mgr × (c'.tunnel_mgr ≡ c.tunnel_mgr)

-- The counter of the tasks is far from 2^63 - 1.
abbrev pub Room : Client → Type 0
Room c = c.task_mgr.next_id + 1 < 2 ^ 63

-- The end of a session does not change the identifier of its task.
ended_id : (stdout stderr : Bytes) (t t' : Task) → end_task stdout stderr t ≡ ok t' → t'.id ≡ t.id
unfolding run_steps
ended_id stdout stderr t t' e = elim (Bool-cases t.done_closed) [
  | inl closed ↦ absurd (panic-ne-ok t' (rw closed at e))
  | inr waiting ↦ ap (λ x. x.id) (sym (ok-injective _ t' (rw waiting at e)))
]

module _ (t : Task) (active : Bytes) (c d : Client) (valid : IsValid d.task_mgr)
    (same : d.tunnel_mgr ≡ c.tunnel_mgr) where
  result-Keeps :
      (result : ExecResult) (new_cwd : Bytes) (x : Result (Unit {0}) Task)
      → ((t' : Task) → x ≡ ok t' → t'.id ≡ t.id)
      → Keeps c (ended_result result new_cwd x t.id d).1
  unfolding ended_result set_cwd
  result-Keeps result new_cwd (ok t') kept =
      let filed =
        update-IsValid t.id (λ _. t') d.task_mgr (λ u e. kept t' refl ∙ sym (valid.own_id t.id u e))
          valid in
      elim (Bool-cases (eqb new_cwd [])) [
        | inl blank ↦ rw blank (filed, same)
        | inr moved ↦ rw moved (filed, same)
      ]
  result-Keeps result new_cwd (err e) kept = (valid, same)
  result-Keeps result new_cwd panic kept = (valid, same)

  ended-Keeps :
      (e : Option WaitError) (stdout stderr : Bytes)
      → Keeps c (command_ended t active e stdout stderr d).1
  unfolding command_ended
  ended-Keeps e stdout stderr =
      result-Keeps _ _ (end_task stdout stderr t) (ended_id stdout stderr t)

  detached-Keeps :
      (stdout stderr : Bytes) → Keeps c (command_detached t.id active stdout stderr d).1
  unfolding command_detached
  detached-Keeps stdout stderr =
      (update-IsValid t.id (with_output stdout stderr) d.task_mgr (λ t e. refl) valid, same)

  race-Keeps : (r : Race) → Keeps c (after_race t active r d).1
  unfolding after_race
  race-Keeps (ended e stdout stderr) = ended-Keeps e stdout stderr
  race-Keeps (timed_out stdout stderr) = detached-Keeps stdout stderr

module _ {W : Type 0} (s : Sessions W) (cmd script active : Bytes) (is_daemon : Bool) (wait_ms : ℤ)
    (c : Client) where
  module _ (d : Client) (valid : IsValid d.task_mgr) (room : Room d)
      (same : d.tunnel_mgr ≡ c.tunnel_mgr) where
    started-Keeps :
        (sess stdin : ℕ) (w : W)
        → Keeps c (session_started s cmd script active is_daemon wait_ms sess stdin d w).1
    unfolding session_started
    started-Keeps sess stdin w =
        let (t, tasks) = register cmd active (s.now w) sess stdin [] [] d.task_mgr in
        let d' = record d { task_mgr = tasks } in
        let filed = register-IsValid d.task_mgr valid room cmd active (s.now w) sess stdin [] [] in
        let (race, w') = s.race sess (if is_nonpos wait_ms then pos 5000 else wait_ms) w in
        elim (Bool-cases is_daemon) [
          | inl e ↦ rw e (detached-Keeps t active c d' filed same [] [])
          | inr e ↦ rw e (race-Keeps t active c d' filed same race)
        ]

    start-Keeps :
        (sess stdin : ℕ) (a : Option Bytes × W)
        → Keeps c (try_start s cmd script active is_daemon wait_ms sess stdin d a).1
    unfolding try_start
    start-Keeps sess stdin (some why, w) = (valid, same)
    start-Keeps sess stdin (none, w) = started-Keeps sess stdin w

    stdin-Keeps :
        (sess : ℕ) (a : Dialled × W)
        → Keeps c (try_stdin s cmd script active is_daemon wait_ms sess d a).1
    unfolding try_stdin
    stdin-Keeps sess (failed why, w) = (valid, same)
    stdin-Keeps sess (connected stdin, w) = start-Keeps sess stdin (s.start sess script w)

    session-Keeps :
        (a : Dialled × W) → Keeps c (try_session s cmd script active is_daemon wait_ms d a).1
    unfolding try_session
    session-Keeps (failed why, w) = (valid, same)
    session-Keeps (connected sess, w) = stdin-Keeps sess (s.stdin_pipe sess w)

    ssh-Keeps :
        (handle : Option ℕ) (w : W)
        → Keeps c (with_ssh s cmd script active is_daemon wait_ms handle d w).1
    unfolding with_ssh
    ssh-Keeps none w = (valid, same)
    ssh-Keeps (some cli) w = session-Keeps (s.new_session cli w)

  -- A client whose managers are those of `c`.
  abbrev pub Same : Client → Type 0
  Same d = (d.task_mgr ≡ c.task_mgr) × (d.tunnel_mgr ≡ c.tunnel_mgr)

  after-Keeps :
      (r : Option ConnectError × Client × W)
      → Same r.1
      → IsValid c.task_mgr
      → Room c
      → Keeps c (after_ssh s cmd script active is_daemon wait_ms r).1
  unfolding after_ssh
  after-Keeps (some e, d, w) (tasks, tunnels) valid room =
      (subst IsValid (sym tasks) valid, tunnels)
  after-Keeps (none, d, w) (tasks, tunnels) valid room =
      ssh-Keeps d (subst IsValid (sym tasks) valid) (rw tasks room) tunnels d.ssh_client w

module _ {W : Type 0} (m : Machine) (n : Network W) (s : Sessions W) (is_print : ℕ → Bool)
    (cmd target_cwd : Bytes) (is_daemon : Bool) (wait_ms : ℤ) (opt : CommandOptions) where
  sudo_same :
      (d : Client)
      → ((keep_sudo opt d).task_mgr ≡ d.task_mgr) × ((keep_sudo opt d).tunnel_mgr ≡ d.tunnel_mgr)
  unfolding keep_sudo set_sudo_password
  sudo_same d = elim (Bool-cases (eqb opt.sudo_password [])) [
    | inl e ↦ rw e (refl, refl)
    | inr e ↦ rw e (refl, refl)
  ]

  module _ (c : Client) (valid : IsValid c.task_mgr) (room : Room c) where
    ready-Keeps :
        (r : Option ConnectError × Client × W)
        → (r.1.task_mgr ≡ c.task_mgr) × (r.1.tunnel_mgr ≡ c.tunnel_mgr)
        → Keeps c (run_ready m n s is_print cmd target_cwd is_daemon wait_ms opt r).1
    unfolding run_ready
    ready-Keeps (some e, d, w) (tasks, tunnels) = (subst IsValid (sym tasks) valid, tunnels)
    ready-Keeps (none, d, w) (tasks, tunnels) =
        let d' = keep_sudo opt d in
        let (tasks', tunnels') = sudo_same d in
        let (tasks'', tunnels'') = ensure-SameManagers m n d' w in
        after-Keeps s (sudo_command opt cmd)
          (wrap_command is_print (sudo_command opt cmd) (active_cwd target_cwd d)
            d'.sudo_password).0
          (active_cwd target_cwd d) is_daemon wait_ms c (ensure_connected m n d' w)
          (tasks'' ∙ tasks' ∙ tasks, tunnels'' ∙ tunnels' ∙ tunnels) valid room

    -- Whatever it answers, `run_command` keeps the registry of the tasks well formed, and touches no
    -- tunnel.
    pub run-Keeps :
        (w : W) → Keeps c (run_command m n s is_print cmd target_cwd is_daemon wait_ms opt c w).1
    unfolding run_command
    run-Keeps w = ready-Keeps (ensure_connected m n c w) (ensure-SameManagers m n c w)
