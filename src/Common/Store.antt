-- ===== src/Common/Store.antt =====
-- The heap: a pointer is the position of its object in a list that only grows.
use Prim.Native.Nat.{ℕ, zero, suc}
use mathlib.Core.Path.{◌≡◌, refl, ap}
use mathlib.Core.List.{List, [], ◌∷◌, ◌++◌}
use mathlib.Core.Option.{Option, none, some}
use mathlib.Core.Logic.{◌≢◌, ◌⊎◌, inl, inr}
use mcp_ssh_workspace.Common.Lists.{length}

module _ {ℓ} {T : Type ℓ} where
  unfoldable pub fetch : ℕ → List T → Option T
  fetch p [] = none
  fetch zero (t ∷ heap) = some t
  fetch (suc p) (t ∷ heap) = fetch p heap

  -- The new object stands at `length heap`.
  abbrev pub alloc : List T → T → List T
  alloc heap t = heap ++ t ∷ []

  unfoldable pub modify : ℕ → (T → T) → List T → List T
  modify p f [] = []
  modify zero f (t ∷ heap) = f t ∷ heap
  modify (suc p) f (t ∷ heap) = t ∷ modify p f heap

  pub fetch-alloc_old :
      (p : ℕ) (heap : List T) (t u : T) → fetch p heap ≡ some t → fetch p (alloc heap u) ≡ some t
  unfolding fetch
  fetch-alloc_old p [] t u h = absurd cc
  fetch-alloc_old zero (v ∷ heap) t u h = h
  fetch-alloc_old (suc p) (v ∷ heap) t u h = fetch-alloc_old p heap t u h

  pub fetch-alloc_new : (heap : List T) (u : T) → fetch (length heap) (alloc heap u) ≡ some u
  unfolding fetch
  fetch-alloc_new [] u = refl
  fetch-alloc_new (v ∷ heap) u = fetch-alloc_new heap u

  -- What is found in the grown heap is old, or the new object.
  pub fetch-alloc :
      (p : ℕ) (heap : List T) (t u : T)
      → fetch p (alloc heap u) ≡ some t
      → (fetch p heap ≡ some t) ⊎ ((p ≡ length heap) × (t ≡ u))
  unfolding fetch
  fetch-alloc zero [] t u h = inr (refl, cc)
  fetch-alloc (suc p) [] t u h = absurd cc
  fetch-alloc zero (v ∷ heap) t u h = inl h
  fetch-alloc (suc p) (v ∷ heap) t u h = elim (fetch-alloc p heap t u h) [
    | inl old ↦ inl old
    | inr (e, same) ↦ inr (ap suc e, same)
  ]

  pub fetch-modify_same :
      (p : ℕ) (f : T → T) (heap : List T) (t : T)
      → fetch p heap ≡ some t
      → fetch p (modify p f heap) ≡ some (f t)
  unfolding fetch modify
  fetch-modify_same p f [] t h = absurd cc
  fetch-modify_same zero f (v ∷ heap) t h = cc
  fetch-modify_same (suc p) f (v ∷ heap) t h = fetch-modify_same p f heap t h

  pub fetch-modify_other :
      (p q : ℕ) (f : T → T) (heap : List T) → p ≢ q → fetch q (modify p f heap) ≡ fetch q heap
  unfolding fetch modify
  fetch-modify_other p q f [] h = refl
  fetch-modify_other zero zero f (v ∷ heap) h = absurd (h refl)
  fetch-modify_other zero (suc q) f (v ∷ heap) h = refl
  fetch-modify_other (suc p) zero f (v ∷ heap) h = refl
  fetch-modify_other (suc p) (suc q) f (v ∷ heap) h =
      fetch-modify_other p q f heap (λ e. h (ap suc e))
