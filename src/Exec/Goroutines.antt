-- ===== src/Exec/Goroutines.antt =====
-- The commands that run at one time, internal/sshclient/exec.go: each task has the goroutine that waits
-- for the end of its session, and the goroutines take their steps in any order.
pub mod Invariant
pub mod Ending
pub mod Growth
use mcp_ssh_workspace.Common.{
  ℕ, ◌+◌, ◌^◌, ◌<◌, ◌≡◌, Bool, Option, none, some, List, [], ◌∷◌, ◌++◌, Bytes, if◌then◌else◌,
}
use mcp_ssh_workspace.Common.Result.{ok}
use mcp_ssh_workspace.Common.Dict.{Dict, lookup, insert}
use mcp_ssh_workspace.Tasks.{
  Task, TaskManager, new_task_manager, register, get, update, write_buffer,
}
use mcp_ssh_workspace.Exec.Finish.{
  WaitError, FinishStep, apply_step, foreground_steps, background_steps,
}

-- What the goroutine of a task is at: the `select` of `RunCommand`, the wait for the end of a daemon or
-- of a command that was detached, or the steps that are left of the end.
pub data Phase : Type 0 where
  selecting waiting : Phase
  ending : List FinishStep → Phase

pub record Pool : Type 0 where
  pub tasks : TaskManager
  pub phases : Dict Phase

abbrev pub new_pool : Pool
new_pool = record { tasks = new_task_manager; phases = [] }

abbrev pub set_phase : Bytes → Phase → Pool → Pool
set_phase id ph p = record p { phases = insert id ph p.phases }

abbrev pub first_phase : Bool → Phase
first_phase is_daemon = if is_daemon then waiting else selecting

-- A session has started, and its task is registered.
unfoldable pub start_task : Bytes → Bytes → ℕ → ℕ → ℕ → Bool → Pool → Pool
start_task cmd cwd now sess stdin is_daemon p =
    let (t, tm) = register cmd cwd now sess stdin [] [] p.tasks in
    record { tasks = tm; phases = insert t.id (first_phase is_daemon) p.phases }

-- The goroutine that copies the output writes to the two buffers.
abbrev pub more_output : Bytes → Bytes → Task → Task
more_output out errors t = record t {
  stdout = (write_buffer t.stdout out).1;
  stderr = (write_buffer t.stderr errors).1;
}

abbrev pub take_step : Bytes → Task → List FinishStep → Pool → Pool
take_step id t steps p = record {
  tasks = update id (λ _. t) p.tasks;
  phases = insert id (ending steps) p.phases;
}

pub data Step : Pool → Pool → Type 0 where
  started :
      (cmd cwd : Bytes) (now sess stdin : ℕ) (is_daemon : Bool) (p : Pool)
      → p.tasks.next_id + 1 < 2 ^ 63
      → Step p (start_task cmd cwd now sess stdin is_daemon p)
  -- The command ended in time.
  in_time :
      (id : Bytes) (p : Pool)
      → lookup id p.phases ≡ some selecting
      → Step p (set_phase id (ending foreground_steps) p)
  -- The time was over.
  detached :
      (id : Bytes) (p : Pool)
      → lookup id p.phases ≡ some selecting
      → Step p (set_phase id waiting p)
  -- `Wait` answered.
  ended :
      (id : Bytes) (e : Option WaitError) (p : Pool)
      → lookup id p.phases ≡ some waiting
      → Step p (set_phase id (ending (background_steps e)) p)
  stepped :
      (id : Bytes) (s : FinishStep) (steps : List FinishStep) (t t' : Task) (p : Pool)
      → lookup id p.phases ≡ some (ending (s ∷ steps))
      → get p.tasks id ≡ some t
      → apply_step s t ≡ ok t'
      → Step p (take_step id t' steps p)
  wrote :
      (id out errors : Bytes) (p : Pool)
      → Step p (record p { tasks = update id (more_output out errors) p.tasks })

pub data Steps : Pool → Pool → Type 0 where
  done : (p : Pool) → Steps p p
  more : (p q r : Pool) → Steps p q → Step q r → Steps p r
