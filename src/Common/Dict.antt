-- ===== src/Common/Dict.antt =====
-- A Go map with string keys, as an association list. Go leaves the order of iteration open, so
-- what is stated of the entries does not depend on it.
use Prim.Native.Nat.{◌≤◌}
use mathlib.Core.Path.{◌≡◌}
use mathlib.Core.List.{List, [], ◌∷◌, map}
use mathlib.Core.Option.{Option, none, some}
use native.Mathlib.Omega.{arith}
use mcp_ssh_workspace.Common.Lists.{length}
use mcp_ssh_workspace.Common.Tests.{Bytes, eqb, eqb_iff, eqb_refl, if◌then◌else◌}

abbrev pub Dict {ℓ} : Type ℓ → Type ℓ
Dict V = List (Bytes × V)

module _ {ℓ} {V : Type ℓ} where
  -- v, ok := m[k]
  unfoldable pub lookup : Bytes → Dict V → Option V
  lookup k [] = none
  lookup k ((j, v) ∷ m) = if eqb j k then some v else lookup k m

  -- delete(m, k)
  unfoldable pub erase : Bytes → Dict V → Dict V
  erase k [] = []
  erase k ((j, v) ∷ m) = let rest = erase k m in if eqb j k then rest else (j, v) ∷ rest

  -- m[k] = v
  unfoldable pub insert : Bytes → V → Dict V → Dict V
  insert k v m = (k, v) ∷ erase k m

  unfoldable pub values : Dict V → List V
  values = map (λ (_, v). v)

  pub lookup-erase :
      (k j : Bytes) (m : Dict V) → lookup j (erase k m) ≡ (if eqb k j then none else lookup j m)
  unfolding lookup erase
  lookup-erase k j [] = ground arith
  lookup-erase k j ((i, v) ∷ m) =
      ground (arith, lookup-erase k j m, eqb_iff i k, eqb_iff i j, eqb_iff k j)

  pub lookup-insert :
      (k j : Bytes) (v : V) (m : Dict V)
      → lookup j (insert k v m) ≡ (if eqb k j then some v else lookup j m)
  unfolding lookup insert
  lookup-insert k j v m = ground (arith, lookup-erase k j m)

  pub length-erase : (k : Bytes) (m : Dict V) → length (erase k m) ≤ length m
  unfolding erase
  length-erase k [] = omega arith
  length-erase k ((j, v) ∷ m) = ground (arith, length-erase k m)

  pub length-erase_head :
      (k : Bytes) (v : V) (m : Dict V) → length (erase k ((k, v) ∷ m)) ≤ length m
  unfolding erase
  length-erase_head k v m = rw (eqb_refl k) (length-erase k m)
