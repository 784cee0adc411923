-- ===== src/Tasks/Registry.antt =====
-- Identifiers are fresh, and a task that was registered is the one that is found.
use mcp_ssh_workspace.Common.{
  ℕ, ◌+◌, ◌^◌, ◌≤◌, ◌<◌, ◌≡◌, refl, sym, ap, ◌∙◌, Option, none, some, Bytes, drop, eqb, eqb_iff,
  eqb_refl, arith, if◌then◌else◌, Bool-cases, inl, inr,
}
use mcp_ssh_workspace.Common.Dict.{lookup, lookup-insert}
use mcp_ssh_workspace.Text.Decimal.{format_int64-injective}
use mcp_ssh_workspace.Tasks.{
  Task, TaskManager, SyncBuffer, new_task_manager, task_id, next, register, get, updated, update,
}

-- Below 2^63 the counter has not wrapped around, and no two numbers make one identifier.
task_id-injective : (m n : ℕ) → m < 2 ^ 63 → n < 2 ^ 63 → task_id m ≡ task_id n → m ≡ n
task_id-injective m n hm hn e = format_int64-injective m n hm hn (ap (drop 5) e)

-- Each task stands under its own identifier, which was counted before.
pub record IsValid (tm : TaskManager) : Type 0 where
  pub own_id : (k : Bytes) (t : Task) → get tm k ≡ some t → t.id ≡ k
  pub counted :
      (k : Bytes) (t : Task) → get tm k ≡ some t → (n : ℕ) × (k ≡ task_id n) × (n ≤ tm.next_id)

no_entry : (t : Task) → ◌≡◌ {A = Option Task} none (some t) → ⊥
no_entry t e = cc

pub new-IsValid : IsValid new_task_manager
unfolding get lookup
new-IsValid = record { own_id = λ k t e. cc; counted = λ k t e. absurd (no_entry t e) }

module _ (tm : TaskManager) (valid : IsValid tm) (room : tm.next_id + 1 < 2 ^ 63) where
  next-suc : next tm.next_id ≡ tm.next_id + 1
  next-suc = omega arith

  new_id-fresh : get tm (task_id (next tm.next_id)) ≡ none
  new_id-fresh = none_or (get tm (task_id (next tm.next_id))) refl
    where
      none_or :
          (o : Option Task)
          → get tm (task_id (next tm.next_id)) ≡ o
          → get tm (task_id (next tm.next_id)) ≡ none
      none_or none e = e
      none_or (some t) e =
          let (n, same, le) = valid.counted _ t e in
          absurd (
            omega (
              arith,
              next-suc,
              task_id-injective (next tm.next_id) n (omega (arith, next-suc)) (omega arith) same,
            ))

  module _ (cmd cwd : Bytes) (now sess stdin : ℕ) (stdout stderr : SyncBuffer) where
    -- `register` makes an identifier that no task has, files the new task under it, and leaves
    -- every other entry alone, as long as the counter has not reached 2^63 - 1.
    pub register_fresh :
        let (t, tm') = register cmd cwd now sess stdin stdout stderr tm in
        (get tm t.id ≡ none)
        × (get tm' t.id ≡ some t)
        × ((k : Bytes) → get tm' k ≡ (if eqb t.id k then some t else get tm k))
    unfolding register get
    register_fresh = (
      new_id-fresh,
      simp (lookup-insert, eqb_refl),
      λ k. lookup-insert (task_id (next tm.next_id)) k _ tm.tasks,
    )

    -- The registry stays well formed.
    pub register-IsValid : IsValid (register cmd cwd now sess stdin stdout stderr tm).1
    unfolding register get
    register-IsValid = record {
      own_id = λ k t.
          simp lookup-insert
            (ground (arith, eqb_iff (task_id (next tm.next_id)) k, valid.own_id k t));
      counted = λ k t e. elim (Bool-cases (eqb (task_id (next tm.next_id)) k)) [
        | inl h ↦ (next tm.next_id, sym ((eqb_iff (task_id (next tm.next_id)) k).0 h), omega arith)
        | inr h ↦
            let (n, same, le) = valid.counted k t (simp (lookup-insert, h) at e) in
            (n, same, omega (arith, next-suc))
      ];
    }

some_task : (t u : Task) → ◌≡◌ {A = Option Task} (some t) (some u) → t ≡ u
some_task t u e = cc

module _ (id : Bytes) (f : Task → Task) (tm : TaskManager)
    (keeps : (t : Task) → get tm id ≡ some t → (f t).id ≡ t.id) (valid : IsValid tm) where
  updated-IsValid : (found : Option Task) → get tm id ≡ found → IsValid (updated id f tm found)
  unfolding updated get
  updated-IsValid none e = valid
  updated-IsValid (some t) e = record {
    own_id = λ k u h. elim (Bool-cases (eqb id k)) [
      | inl same ↦
          let this = some_task (f t) u (simp (lookup-insert, same) at h) in
          ap (λ v. v.id) (sym this) ∙ keeps t e ∙ valid.own_id id t e ∙ (eqb_iff id k).0 same
      | inr other ↦ valid.own_id k u (simp (lookup-insert, other) at h)
    ];
    counted = λ k u h. elim (Bool-cases (eqb id k)) [
      | inl same ↦ valid.counted k t (ap (λ i. get tm i) (sym ((eqb_iff id k).0 same)) ∙ e)
      | inr other ↦ valid.counted k u (simp (lookup-insert, other) at h)
    ];
  }

  -- A change that keeps the identifier keeps the registry well formed.
  pub update-IsValid : IsValid (update id f tm)
  unfolding update get
  update-IsValid = updated-IsValid (lookup id tm.tasks) refl
