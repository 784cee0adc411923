-- ===== src/Common/Result.antt =====
-- What a Go call that returns `(T, error)` comes to, and the monad of calls that change a state.
use mathlib.Core.Path.{◌≡◌}

-- The run-time panic that indexing or slicing out of range raises is a third outcome.
pub data Result {ℓ κ} (E : Type κ) (A : Type ℓ) : Type (ℓ ⊔ κ) where
  ok : A → Result E A
  err : E → Result E A
  panic : Result E A

module _ {ℓ κ ν} {E : Type κ} {A : Type ℓ} {B : Type ν} where
  abbrev pub bind : Result E A → (A → Result E B) → Result E B
  bind (ok a) f = f a
  bind (err e) f = err e
  bind panic f = panic

module _ {ℓ κ} {E : Type κ} {A : Type ℓ} where
  pub err-ne-ok : (e : E) (a : A) → err e ≡ ok a → ⊥
  err-ne-ok e a h = cc

  pub ok-injective : (a b : A) → ◌≡◌ {A = Result E A} (ok a) (ok b) → a ≡ b
  ok-injective a b h = cc

  pub err-injective : (a b : E) → ◌≡◌ {A = Result E A} (err a) (err b) → a ≡ b
  err-injective a b h = cc

  pub panic-ne-ok : (a : A) → ◌≡◌ {A = Result E A} panic (ok a) → ⊥
  panic-ne-ok a h = cc

  pub panic-ne-err : (e : E) → ◌≡◌ {A = Result E A} panic (err e) → ⊥
  panic-ne-err e h = cc
