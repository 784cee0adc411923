-- ===== src/Tasks/Updating.antt =====
-- What is found after the task behind a pointer has changed.
use mcp_ssh_workspace.Common.{◌≡◌, refl, ap, false, Option, none, some, Bytes, eqb, eqb_refl}
use mcp_ssh_workspace.Common.Dict.{lookup, lookup-insert}
use mcp_ssh_workspace.Tasks.{Task, TaskManager, get, updated, update}

module _ (id : Bytes) (f : Task → Task) (tm : TaskManager) where
  updated_here :
      (found : Option Task) (t : Task)
      → found ≡ some t
      → get (updated id f tm found) id ≡ some (f t)
  unfolding updated get
  updated_here none t e = absurd cc
  updated_here (some u) t e = simp (lookup-insert, eqb_refl) (ap (λ v. some (f v)) (same u t e))
    where
      same : (u t : Task) → ◌≡◌ {A = Option Task} (some u) (some t) → u ≡ t
      same u t e = cc

  updated_other :
      (k : Bytes) (found : Option Task)
      → eqb id k ≡ false
      → get (updated id f tm found) k ≡ get tm k
  unfolding updated get
  updated_other k none other = refl
  updated_other k (some t) other = simp (lookup-insert, other) refl

  pub update_here : (t : Task) → get tm id ≡ some t → get (update id f tm) id ≡ some (f t)
  unfolding update get
  update_here t e = updated_here (lookup id tm.tasks) t e

  pub update_other : (k : Bytes) → eqb id k ≡ false → get (update id f tm) k ≡ get tm k
  unfolding update
  update_other k other = updated_other k (lookup id tm.tasks) other

  -- There is nothing to change behind a pointer that is not there.
  pub update-none : get tm id ≡ none → update id f tm ≡ tm
  unfolding update get updated
  update-none e = ap (λ o. updated id f tm o) e
