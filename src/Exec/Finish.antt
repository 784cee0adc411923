-- ===== src/Exec/Finish.antt =====
-- What the goroutines of `RunCommand` do to a task when its session has ended, one shared write at
-- a time: another goroutine may read the task between any two of them.
pub mod Visible
use mcp_ssh_workspace.Common.{
  ◌≡◌, Bool, true, false, Option, none, some, List, [], ◌∷◌, Bytes, if◌then◌else◌,
}
use mcp_ssh_workspace.Common.Int.{ℤ, pos}
use mcp_ssh_workspace.Common.Result.{Result, ok, err, panic}
use mcp_ssh_workspace.Tasks.{Task}

-- What `sess.Wait()` returns but for `nil`: an `*ssh.ExitError` with its status, or another error
-- with its text.
pub data WaitError : Type 0 where
  exit_error : ℤ → WaitError
  other_error : Bytes → WaitError

pub data FinishStep : Type 0 where
  store_completed close_done close_session : FinishStep
  store_result : Option WaitError → FinishStep

abbrev pub set_result : Option WaitError → Task → Task
set_result none t = record t { exit_code = pos 0 }
set_result (some (exit_error status)) t = record t { exit_code = status }
set_result (some (other_error msg)) t = record t { error_msg = msg }

-- Closing a channel that is closed panics.
unfoldable pub apply_step : FinishStep → Task → Result (Unit {0}) Task
apply_step store_completed t = ok (record t { completed = true })
apply_step close_done t = if t.done_closed then panic else ok (record t { done_closed = true })
apply_step close_session t = ok t
apply_step (store_result e) t = ok (set_result e t)

unfoldable pub run_steps : List FinishStep → Task → Result (Unit {0}) Task
unfolding apply_step
run_steps [] t = ok t
run_steps (s ∷ steps) t = elim (apply_step s t) [
  | ok t' ↦ run_steps steps t'
  | err e ↦ err e
  | panic ↦ panic
]

-- The goroutine of a daemon, and that of a command that was detached.
abbrev pub background_steps : Option WaitError → List FinishStep
background_steps e = store_completed ∷ close_done ∷ store_result e ∷ close_session ∷ []

-- The branch of a command that ended in time.
abbrev pub foreground_steps : List FinishStep
foreground_steps = store_completed ∷ close_done ∷ close_session ∷ []
