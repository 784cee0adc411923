-- ===== src/Exec/Goroutines/Invariant.antt =====
-- No goroutine panics, in whatever order they go on, and every command that ended completes.
use mcp_ssh_workspace.Common.{
  ◌≡◌, refl, sym, ap, ◌∙◌, Bool, true, false, Bool-cases, Option, Option-cases, none, some, List,
  [], ◌∷◌, Bytes, eqb, eqb_iff, inl, inr,
}
use mathlib.Core.Path.{subst}
use mcp_ssh_workspace.Common.Result.{ok, ok-injective}
use mcp_ssh_workspace.Common.Dict.{lookup, insert, lookup-insert}
use mcp_ssh_workspace.Tasks.{Task, TaskManager, get, update}
use mcp_ssh_workspace.Tasks.Registry as Registry
use mcp_ssh_workspace.Tasks.Updating.{update_here, update_other, update-none}
use mcp_ssh_workspace.Exec.Finish.{
  exit_error, other_error, FinishStep, store_completed, close_done, close_session, store_result,
  set_result, apply_step,
}
use mcp_ssh_workspace.Exec.Goroutines.{
  Phase, selecting, waiting, ending, Pool, set_phase, more_output, take_step,
}

-- The steps that are left close the channel once, if it is open, and complete the task.
abbrev pub Left : List FinishStep → Bool → Bool → Type 0
Left [] completed closed = (completed ≡ true) × (closed ≡ true)
Left (store_completed ∷ steps) completed closed = Left steps true closed
Left (close_done ∷ steps) completed closed = (closed ≡ false) × Left steps completed true
Left (close_session ∷ steps) completed closed = Left steps completed closed
Left (store_result e ∷ steps) completed closed = Left steps completed closed

abbrev pub Fits : Phase → Task → Type 0
Fits selecting t = (t.completed ≡ false) × (t.done_closed ≡ false)
Fits waiting t = (t.completed ≡ false) × (t.done_closed ≡ false)
Fits (ending steps) t = Left steps t.completed t.done_closed

pub record IsValid (p : Pool) : Type 0 where
  pub registry : Registry.IsValid p.tasks
  pub fits :
      (id : Bytes) (ph : Phase)
      → lookup id p.phases ≡ some ph
      → (t : Task) × (get p.tasks id ≡ some t) × Fits ph t
  pub owned :
      (id : Bytes) (t : Task)
      → get p.tasks id ≡ some t
      → (ph : Phase) × (lookup id p.phases ≡ some ph)

-- A step that is due does not panic, and fits what is left.
pub step_fits :
    (s : FinishStep) (steps : List FinishStep) (t : Task)
    → Left (s ∷ steps) t.completed t.done_closed
    → (t' : Task) × (apply_step s t ≡ ok t')
      × Left steps t'.completed t'.done_closed
      × (t'.id ≡ t.id)
unfolding apply_step
step_fits store_completed steps t h = (record t { completed = true }, refl, h, refl)
step_fits close_session steps t h = (t, refl, h, refl)
step_fits close_done steps t (still, h) = (record t { done_closed = true }, rw still refl, h, refl)
step_fits (store_result none) steps t h = (set_result none t, refl, h, refl)
step_fits (store_result (some (exit_error status))) steps t h =
    (set_result (some (exit_error status)) t, refl, h, refl)
step_fits (store_result (some (other_error msg))) steps t h =
    (set_result (some (other_error msg)) t, refl, h, refl)

some_phase : (a b : Phase) → ◌≡◌ {A = Option Phase} (some a) (some b) → a ≡ b
some_phase a b e = cc

module _ (p : Pool) (valid : IsValid p) (id : Bytes) where
  -- One task changes, with its goroutine.
  pub changed-IsValid :
      (tm : TaskManager) (ph : Phase) (t : Task)
      → Registry.IsValid tm
      → get tm id ≡ some t
      → Fits ph t
      → ((k : Bytes) → eqb id k ≡ false → get tm k ≡ get p.tasks k)
      → IsValid (record { tasks = tm; phases = insert id ph p.phases })
  changed-IsValid tm ph t registry here fit others = record {
    registry = registry;
    fits = λ k ph' h. elim (Bool-cases (eqb id k)) [
      | inl same ↦
          let this : ph ≡ ph' = some_phase ph ph' (simp (lookup-insert, same) at h) in
          (
            t,
            ap (λ i. get tm i) (sym ((eqb_iff id k).0 same)) ∙ here,
            subst (λ x. Fits x t) this fit,
          )
      | inr other ↦
          let (u, found, fit') = valid.fits k ph' (simp (lookup-insert, other) at h) in
          (u, others k other ∙ found, fit')
    ];
    owned = λ k u h. elim (Bool-cases (eqb id k)) [
      | inl same ↦ (ph, simp (lookup-insert, same) refl)
      | inr other ↦
          let (ph', found) = valid.owned k u (sym (others k other) ∙ h) in
          (ph', simp (lookup-insert, other) found)
    ];
  }

  -- Only the goroutine goes on.
  pub phase-IsValid :
      (old new : Phase)
      → lookup id p.phases ≡ some old
      → ((t : Task) → Fits old t → Fits new t)
      → IsValid (set_phase id new p)
  phase-IsValid old new at turn =
      let (t, found, fit) = valid.fits id old at in
      changed-IsValid p.tasks new t valid.registry found (turn t fit) (λ k other. refl)

  pub stepped-IsValid :
      (s : FinishStep) (steps : List FinishStep) (t t' : Task)
      → lookup id p.phases ≡ some (ending (s ∷ steps))
      → get p.tasks id ≡ some t
      → apply_step s t ≡ ok t'
      → IsValid (take_step id t' steps p)
  stepped-IsValid s steps t t' at found e =
      let (u, found', fit) = valid.fits id (ending (s ∷ steps)) at in
      let same : u ≡ t = some_task u t (sym found' ∙ found) in
      let (t'', e', left, kept) =
        step_fits s steps t (subst (λ x. Fits (ending (s ∷ steps)) x) same fit) in
      let result : t'' ≡ t' = ok-injective t'' t' (sym e' ∙ e) in
      changed-IsValid (update id (λ _. t') p.tasks) (ending steps) t'
        (Registry.update-IsValid id (λ _. t') p.tasks
          (λ v h.
            ap (λ x. x.id) (sym result) ∙ kept ∙ ap (λ x. x.id) (some_task t v (sym found ∙ h)))
          valid.registry)
        (update_here id (λ _. t') p.tasks t found) (subst (λ x. Fits (ending steps) x) result left)
        (λ k other. update_other id (λ _. t') p.tasks k other)
    where
      some_task : (t u : Task) → ◌≡◌ {A = Option Task} (some t) (some u) → t ≡ u
      some_task t u e = cc

  pub wrote-IsValid :
      (out errors : Bytes)
      → IsValid (record p { tasks = update id (more_output out errors) p.tasks })
  wrote-IsValid out errors =
      let f = more_output out errors in
      record {
        registry = Registry.update-IsValid id f p.tasks (λ t e. refl) valid.registry;
        fits = λ k ph at.
            let (t, found, fit) = valid.fits k ph at in
            elim (Bool-cases (eqb id k)) [
              | inl same ↦
                  let this = (eqb_iff id k).0 same in
                  (
                    f t,
                    ap (λ i. get (update id f p.tasks) i) (sym this)
                        ∙ update_here id f p.tasks t (ap (λ i. get p.tasks i) this ∙ found),
                    still_fits ph t fit,
                  )
              | inr other ↦ (t, update_other id f p.tasks k other ∙ found, fit)
            ];
        owned = λ k t h. elim (Bool-cases (eqb id k)) [
          | inl same ↦
              let this = (eqb_iff id k).0 same in
              elim (Option-cases (get p.tasks k)) [
                | inl none_at ↦ absurd (
                    no_task t (
                      sym none_at
                      ∙ ap (λ tm. get tm k)
                          (sym (update-none id f p.tasks (ap (λ i. get p.tasks i) this ∙ none_at)))
                      ∙ h))
                | inr (u, found) ↦ valid.owned k u found
              ]
          | inr other ↦ valid.owned k t (sym (update_other id f p.tasks k other) ∙ h)
        ];
      }
    where
      still_fits : (ph : Phase) (t : Task) → Fits ph t → Fits ph (more_output out errors t)
      still_fits selecting t h = h
      still_fits waiting t h = h
      still_fits (ending steps) t h = h

      no_task : (t : Task) → ◌≡◌ {A = Option Task} none (some t) → ⊥
      no_task t e = cc
