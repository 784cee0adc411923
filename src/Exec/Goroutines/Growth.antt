-- ===== src/Exec/Goroutines/Growth.antt =====
-- What stays of a task, and what grows.
use mcp_ssh_workspace.Common.{
  ℕ, ◌+◌, ◌^◌, ◌<◌, ◌≡◌, ◌⊎◌, inl, inr, refl, sym, ap, ◌∙◌, Bool, true, false, Bool-cases, Option,
  none, some, [], ◌++◌, append-nil, append_assoc, Bytes, eqb, eqb_iff,
}
use mathlib.Core.Path.{subst}
use mcp_ssh_workspace.Common.Int.{ℤ, pos}
use mcp_ssh_workspace.Common.Result.{ok, ok-injective, panic-ne-ok}
use mcp_ssh_workspace.Tasks.{Task, TaskManager, register, get, update, write_buffer}
use mcp_ssh_workspace.Tasks.Registry as Registry
use mcp_ssh_workspace.Tasks.Updating.{update_here, update_other}
use mcp_ssh_workspace.Exec.Finish.{
  WaitError, exit_error, other_error, FinishStep, store_completed, close_done, close_session,
  store_result, set_result, apply_step,
}
use mcp_ssh_workspace.Exec.Goroutines.{
  Pool, new_pool, start_task, more_output, Step, started, in_time, detached, ended, stepped, wrote,
  Steps, done, more,
}
use mcp_ssh_workspace.Exec.Goroutines.Invariant.{IsValid}
use mcp_ssh_workspace.Exec.Goroutines.Ending.{Steps-IsValid, reached-IsValid}

-- The task later: the same command, no less output, and completed if it was.
pub record Grows (t u : Task) : Type 0 where
  pub same_id : u.id ≡ t.id
  pub same_command : u.command ≡ t.command
  pub same_cwd : u.cwd ≡ t.cwd
  pub same_start : u.start_time ≡ t.start_time
  pub more_stdout : (s : Bytes) × (u.stdout ≡ t.stdout ++ s)
  pub more_stderr : (s : Bytes) × (u.stderr ≡ t.stderr ++ s)
  pub stays_completed : (t.completed ≡ false) ⊎ (u.completed ≡ true)

-- The result, the channel and the flag of a task change, and the flag is not taken back.
with_end : ℤ → Bytes → Bool → Bool → Task → Task
with_end code message completed closed t = record t {
  exit_code = code;
  error_msg = message;
  completed = completed;
  done_closed = closed;
}

end-Grows :
    (code : ℤ) (message : Bytes) (completed closed : Bool) (t : Task)
    → (t.completed ≡ false) ⊎ (completed ≡ true)
    → Grows t (with_end code message completed closed t)
unfolding with_end
end-Grows code message completed closed t stays = record {
  same_id = refl;
  same_command = refl;
  same_cwd = refl;
  same_start = refl;
  more_stdout = ([], sym (append-nil t.stdout));
  more_stderr = ([], sym (append-nil t.stderr));
  stays_completed = stays;
}

flag_stays : (t : Task) → (t.completed ≡ false) ⊎ (t.completed ≡ true)
flag_stays t = elim (Bool-cases t.completed) [ inl e ↦ inr e | inr e ↦ inl e ]

still : (t : Task) → Grows t t
unfolding with_end
still t = end-Grows t.exit_code t.error_msg t.completed t.done_closed t (flag_stays t)

later : (t u v : Task) → Grows t u → Grows u v → Grows t v
later t u v g h =
    let (s, e) = g.more_stdout in
    let (s', e') = h.more_stdout in
    let (r, f) = g.more_stderr in
    let (r', f') = h.more_stderr in
    record {
      same_id = h.same_id ∙ g.same_id;
      same_command = h.same_command ∙ g.same_command;
      same_cwd = h.same_cwd ∙ g.same_cwd;
      same_start = h.same_start ∙ g.same_start;
      more_stdout = (s ++ s', e' ∙ ap (λ o. o ++ s') e ∙ append_assoc t.stdout s s');
      more_stderr = (r ++ r', f' ∙ ap (λ o. o ++ r') f ∙ append_assoc t.stderr r r');
      stays_completed = elim g.stays_completed [
        | inl running ↦ inl running
        | inr completed ↦ elim h.stays_completed [
          | inl running ↦ absurd (no_both u (sym completed ∙ running))
          | inr finished ↦ inr finished
        ]
      ];
    }
  where
    no_both : (u : Task) → true ≡ false → ⊥
    no_both u e = cc

more_output-Grows : (out errors : Bytes) (t : Task) → Grows t (more_output out errors t)
unfolding write_buffer
more_output-Grows out errors t = record {
  same_id = refl;
  same_command = refl;
  same_cwd = refl;
  same_start = refl;
  more_stdout = (out, refl);
  more_stderr = (errors, refl);
  stays_completed = flag_stays t;
}

result-Grows : (e : Option WaitError) (t : Task) → Grows t (set_result e t)
unfolding with_end
result-Grows none t = end-Grows (pos 0) t.error_msg t.completed t.done_closed t (flag_stays t)
result-Grows (some (exit_error status)) t =
    end-Grows status t.error_msg t.completed t.done_closed t (flag_stays t)
result-Grows (some (other_error msg)) t =
    end-Grows t.exit_code msg t.completed t.done_closed t (flag_stays t)

step-Grows : (s : FinishStep) (t u : Task) → apply_step s t ≡ ok u → Grows t u
unfolding apply_step with_end
step-Grows store_completed t u e =
    subst (Grows t) (ok-injective _ u e)
      (end-Grows t.exit_code t.error_msg true t.done_closed t (inr refl))
step-Grows close_session t u e = subst (Grows t) (ok-injective t u e) (still t)
step-Grows (store_result r) t u e =
    subst (Grows t) (ok-injective (set_result r t) u e) (result-Grows r t)
step-Grows close_done t u e = elim (Bool-cases t.done_closed) [
  | inl shut ↦ absurd (panic-ne-ok u (rw shut at e))
  | inr open_yet ↦
      subst (Grows t) (ok-injective _ u (rw open_yet at e))
        (end-Grows t.exit_code t.error_msg t.completed true t (flag_stays t))
]

some_task : (t u : Task) → ◌≡◌ {A = Option Task} (some t) (some u) → t ≡ u
some_task t u e = cc

module _ (k : Bytes) (t : Task) where
  abbrev Later : TaskManager → Type 0
  Later tm = (u : Task) × (get tm k ≡ some u) × Grows t u

  -- What is behind another pointer stays.
  update-Later :
      (id : Bytes) (f : Task → Task) (tm : TaskManager)
      → get tm k ≡ some t
      → (eqb id k ≡ true → Grows t (f t))
      → Later (update id f tm)
  update-Later id f tm found grows = elim (Bool-cases (eqb id k)) [
    | inl same ↦
        let this = (eqb_iff id k).0 same in
        (
          f t,
          ap (λ i. get (update id f tm) i) (sym this)
              ∙ update_here id f tm t (ap (λ i. get tm i) this ∙ found),
          grows same,
        )
    | inr other ↦ (t, update_other id f tm k other ∙ found, still t)
  ]

  started-Later :
      (cmd cwd : Bytes) (now sess stdin : ℕ) (is_daemon : Bool) (p : Pool)
      → IsValid p
      → p.tasks.next_id + 1 < 2 ^ 63
      → get p.tasks k ≡ some t
      → Later (start_task cmd cwd now sess stdin is_daemon p).tasks
  unfolding start_task
  started-Later cmd cwd now sess stdin is_daemon p valid room found =
      let (fresh, here, others) =
        Registry.register_fresh p.tasks valid.registry room cmd cwd now sess stdin [] [] in
      let new = (register cmd cwd now sess stdin [] [] p.tasks).0 in
      elim (Bool-cases (eqb new.id k)) [
        | inl same ↦
            absurd
              (no_task (sym fresh ∙ ap (λ i. get p.tasks i) ((eqb_iff new.id k).0 same) ∙ found))
        | inr other ↦ (t, others k ∙ (rw other found), still t)
      ]
    where
      no_task : ◌≡◌ {A = Option Task} none (some t) → ⊥
      no_task e = cc

  Step-Later : (p q : Pool) → Step p q → IsValid p → get p.tasks k ≡ some t → Later q.tasks
  Step-Later p q (started cmd cwd now sess stdin is_daemon _ room) valid found =
      started-Later cmd cwd now sess stdin is_daemon p valid room found
  Step-Later p q (in_time id _ at) valid found = (t, found, still t)
  Step-Later p q (detached id _ at) valid found = (t, found, still t)
  Step-Later p q (ended id e _ at) valid found = (t, found, still t)
  Step-Later p q (stepped id s steps u u' _ at here e) valid found =
      update-Later id (λ _. u') p.tasks found
        (λ same.
          let this = ap (λ i. get p.tasks i) ((eqb_iff id k).0 same) in
          let same_task : u ≡ t = some_task u t (sym here ∙ this ∙ found) in
          subst (λ x. Grows x u') same_task (step-Grows s u u' e))
  Step-Later p q (wrote id out errors _) valid found =
      update-Later id (more_output out errors) p.tasks found (λ _. more_output-Grows out errors t)

-- Whatever the goroutines do, a task is never lost: it keeps its command, its output only grows, and
-- once completed it stays completed.
pub Steps-Grows :
    (p q : Pool) (k : Bytes) (t : Task)
    → Steps new_pool p
    → Steps p q
    → get p.tasks k ≡ some t
    → (u : Task) × (get q.tasks k ≡ some u) × Grows t u
Steps-Grows p q k t before (done _) found = (t, found, still t)
Steps-Grows p r k t before (more _ q _ steps step) found =
    let (u, here, grown) = Steps-Grows p q k t before steps found in
    let (v, there, more_grown) =
      Step-Later k u q r step (Steps-IsValid p q steps (reached-IsValid p before)) here in
    (v, there, later t u v grown more_grown)
