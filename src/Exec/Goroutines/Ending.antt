-- ===== src/Exec/Goroutines/Ending.antt =====
-- Every order of the steps, from the start of the program on.
use mcp_ssh_workspace.Common.{
  ℕ, ◌+◌, ◌^◌, ◌<◌, ◌≡◌, refl, sym, ◌∙◌, Bool, true, false, Option, some, List, [], ◌∷◌, Bytes,
  eqb_refl,
}
use mathlib.Core.Path.{subst}
use mcp_ssh_workspace.Common.Result.{ok}
use mcp_ssh_workspace.Common.Dict.{lookup, lookup-insert}
use mcp_ssh_workspace.Tasks.{Task, register, get}
use mcp_ssh_workspace.Tasks.Registry as Registry
use mcp_ssh_workspace.Exec.Finish.{FinishStep, apply_step, foreground_steps, background_steps}
use mcp_ssh_workspace.Exec.Goroutines.{
  Phase, selecting, waiting, ending, Pool, new_pool, first_phase, start_task, take_step, Step,
  started, in_time, detached, ended, stepped, wrote, Steps, done, more,
}
use mcp_ssh_workspace.Exec.Goroutines.Invariant.{
  Fits, IsValid, step_fits, changed-IsValid, phase-IsValid, stepped-IsValid, wrote-IsValid,
}

new-IsValid : IsValid new_pool
unfolding get lookup
new-IsValid = record {
  registry = Registry.new-IsValid;
  fits = λ id ph e. absurd (cc);
  owned = λ id t e. absurd (cc);
}

module _ (cmd cwd : Bytes) (now sess stdin : ℕ) (is_daemon : Bool) (p : Pool) (valid : IsValid p)
    (room : p.tasks.next_id + 1 < 2 ^ 63) where
  first-Fits :
      (b : Bool) (t : Task) → t.completed ≡ false → t.done_closed ≡ false → Fits (first_phase b) t
  first-Fits true t c d = (c, d)
  first-Fits false t c d = (c, d)

  started-IsValid : IsValid (start_task cmd cwd now sess stdin is_daemon p)
  unfolding start_task
  started-IsValid =
      let (t, tm) = register cmd cwd now sess stdin [] [] p.tasks in
      let (fresh, here, others) =
        Registry.register_fresh p.tasks valid.registry room cmd cwd now sess stdin [] [] in
      changed-IsValid p valid t.id tm (first_phase is_daemon) t
        (Registry.register-IsValid p.tasks valid.registry room cmd cwd now sess stdin [] []) here
        (first-Fits is_daemon t (unfold register in refl) (unfold register in refl))
        (λ k other. others k ∙ (rw other refl))

pub Step-IsValid : (p q : Pool) → Step p q → IsValid p → IsValid q
Step-IsValid p q (started cmd cwd now sess stdin is_daemon _ room) valid =
    started-IsValid cmd cwd now sess stdin is_daemon p valid room
Step-IsValid p q (in_time id _ at) valid =
    phase-IsValid p valid id selecting (ending foreground_steps) at
      (λ t (running, still). (still, (refl, refl)))
Step-IsValid p q (detached id _ at) valid = phase-IsValid p valid id selecting waiting at (λ t h. h)
Step-IsValid p q (ended id e _ at) valid =
    phase-IsValid p valid id waiting (ending (background_steps e)) at
      (λ t (running, still). (still, (refl, refl)))
Step-IsValid p q (stepped id s steps t t' _ at found e) valid =
    stepped-IsValid p valid id s steps t t' at found e
Step-IsValid p q (wrote id out errors _) valid = wrote-IsValid p valid id out errors

pub Steps-IsValid : (p q : Pool) → Steps p q → IsValid p → IsValid q
Steps-IsValid p q (done _) valid = valid
Steps-IsValid p r (more _ q _ steps step) valid =
    Step-IsValid q r step (Steps-IsValid p q steps valid)

pub reached-IsValid : (p : Pool) → Steps new_pool p → IsValid p
reached-IsValid p steps = Steps-IsValid new_pool p steps new-IsValid

-- In whatever order the goroutines went on, the next step of none of them panics: its task is there,
-- and its channel is open if the step closes it.
pub due_step-runs :
    (p : Pool) (id : Bytes) (s : FinishStep) (steps : List FinishStep)
    → Steps new_pool p
    → lookup id p.phases ≡ some (ending (s ∷ steps))
    → (t : Task) × (t' : Task) × (get p.tasks id ≡ some t) × (apply_step s t ≡ ok t')
due_step-runs p id s steps run at =
    let (t, found, fit) = (reached-IsValid p run).fits id (ending (s ∷ steps)) at in
    let (t', e, left, kept) = step_fits s steps t fit in (t, t', found, e)

-- Both steps, one behind the other.
behind : (p q r : Pool) → Step p q → Steps q r → Steps p r
behind p q r step (done _) = more p p q (done p) step
behind p q r step (more _ m _ steps last) = more p m r (behind p q m step steps) last

abbrev pub Completes : Pool → Bytes → Type 0
Completes p id =
    (q : Pool) × (t : Task) × Steps p q
    × (lookup id q.phases ≡ some (ending []))
    × (get q.tasks id ≡ some t)
    × (t.completed ≡ true)
    × (t.done_closed ≡ true)

from-Completes :
    (steps : List FinishStep) (p : Pool) (id : Bytes)
    → IsValid p
    → lookup id p.phases ≡ some (ending steps)
    → Completes p id
from-Completes [] p id valid at =
    let (t, found, (completed, closed)) = valid.fits id (ending []) at in
    (p, t, done p, at, found, completed, closed)
from-Completes (s ∷ steps) p id valid at =
    let (t, found, fit) = valid.fits id (ending (s ∷ steps)) at in
    let (t', e, left, kept) = step_fits s steps t fit in
    let step = stepped id s steps t t' p at found e in
    let next = take_step id t' steps p in
    let (q, u, run, over, here, completed, closed) =
      from-Completes steps next id (Step-IsValid p next step valid)
        (simp (lookup-insert, eqb_refl) refl) in
    (q, u, behind p next q step run, over, here, completed, closed)

-- Once the end of a command has begun, whatever happened before, the steps that are left of its own
-- goroutine complete its task and close its channel.
pub ending-Completes :
    (p : Pool) (id : Bytes) (steps : List FinishStep)
    → Steps new_pool p
    → lookup id p.phases ≡ some (ending steps)
    → Completes p id
ending-Completes p id steps run at = from-Completes steps p id (reached-IsValid p run) at

-- A task whose goroutine waits has not completed, and its channel is open; one whose goroutine has
-- ended has completed, and its channel is closed. Every task has a goroutine.
pub task_phase :
    (p : Pool) (id : Bytes) (t : Task)
    → Steps new_pool p
    → get p.tasks id ≡ some t
    → (ph : Phase) × (lookup id p.phases ≡ some ph) × Fits ph t
task_phase p id t run found =
    let valid = reached-IsValid p run in
    let (ph, at) = valid.owned id t found in
    let (u, found', fit) = valid.fits id ph at in
    (ph, at, subst (λ x. Fits ph x) (some_task u t (sym found' ∙ found)) fit)
  where
    some_task : (t u : Task) → ◌≡◌ {A = Option Task} (some t) (some u) → t ≡ u
    some_task t u e = cc
