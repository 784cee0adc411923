-- ===== src/Exec/Finish/Visible.antt =====
-- The states of a task that a reader can see while it finishes.
use mcp_ssh_workspace.Common.{◌≡◌, ◌⊎◌, refl, true, false, Option, arith, take}
use mcp_ssh_workspace.Common.Result.{ok, panic}
use mcp_ssh_workspace.Tasks.{Task}
use mcp_ssh_workspace.Exec.Finish.{
  WaitError, set_result, run_steps, background_steps, foreground_steps,
}

-- A task whose channel is open finishes without a panic: in the end it is completed, the channel
-- is closed, and its result is that of `Wait`.
pub background_finish :
    (t : Task) (e : Option WaitError)
    → t.done_closed ≡ false
    → run_steps (background_steps e) t
      ≡ ok (set_result e (record t { completed = true; done_closed = true }))
unfolding run_steps
background_finish t e h = ground arith

-- Finishing a task a second time panics, whichever branch did it first.
pub finish_twice :
    (t t' : Task) (e first : Option WaitError)
    → (run_steps foreground_steps t ≡ ok t') ⊎ (run_steps (background_steps first) t ≡ ok t')
    → run_steps (background_steps e) t' ≡ panic
unfolding run_steps
finish_twice t t' e first h = ground arith

-- Between the writes a reader sees a completed task whose exit code is still the one from before.
pub completed_early :
    (t : Task) (e : Option WaitError)
    → t.done_closed ≡ false
    → (early : Task) × (run_steps (take 2 (background_steps e)) t ≡ ok early)
      × (early.completed ≡ true)
      × (early.exit_code ≡ t.exit_code)
unfolding run_steps
completed_early t e h =
    (record t { completed = true; done_closed = true }, ground arith, refl, refl)

-- A command that ended in time leaves its task completed with the exit code that the task had.
pub foreground_keeps_code :
    (t t' : Task)
    → run_steps foreground_steps t ≡ ok t'
    → (t'.completed ≡ true) × (t'.exit_code ≡ t.exit_code)
unfolding run_steps
foreground_keeps_code t t' h = ground arith
