-- ===== src/Common/Lists.antt =====
-- Lists measured and cut by native numbers, under the library's names.
use Prim.Native.Nat.{ℕ, zero, suc, ◌+◌, ◌-◌, ◌≤◌, min}
use mathlib.Core.Path.{◌≡◌, refl, ap}
use mathlib.Core.List.{List, [], ◌∷◌, ◌++◌}
use native.Mathlib.Omega.{arith}

module _ {ℓ} {A : Type ℓ} where
  pub nil-ne-cons : (x : A) (xs : List A) → [] ≡ x ∷ xs → ⊥
  nil-ne-cons x xs h = cc

  abbrev pub length : List A → ℕ
  length [] = 0
  length (x ∷ xs) = suc (length xs)

  abbrev pub take : ℕ → List A → List A
  take zero xs = []
  take (suc n) [] = []
  take (suc n) (x ∷ xs) = x ∷ take n xs

  abbrev pub drop : ℕ → List A → List A
  drop zero xs = xs
  drop (suc n) [] = []
  drop (suc n) (x ∷ xs) = drop n xs

  pub length-append : (xs ys : List A) → length (xs ++ ys) ≡ length xs + length ys
  length-append [] ys = omega arith
  length-append (x ∷ xs) ys = omega (arith, length-append xs ys)

  pub take-append-drop : (n : ℕ) (xs : List A) → take n xs ++ drop n xs ≡ xs
  take-append-drop zero xs = refl
  take-append-drop (suc n) [] = refl
  take-append-drop (suc n) (x ∷ xs) = rw (take-append-drop n xs)

  pub length-drop : (n : ℕ) (xs : List A) → length (drop n xs) ≡ length xs - n
  length-drop zero xs = omega arith
  length-drop (suc n) [] = omega arith
  length-drop (suc n) (x ∷ xs) = omega (arith, length-drop n xs)

  pub length-take : (n : ℕ) (xs : List A) → length (take n xs) ≡ min n (length xs)
  length-take zero xs = omega arith
  length-take (suc n) [] = omega arith
  length-take (suc n) (x ∷ xs) = omega (arith, length-take n xs)

  pub take-length-append : (xs ys : List A) → take (length xs) (xs ++ ys) ≡ xs
  take-length-append [] ys = refl
  take-length-append (x ∷ xs) ys = ap (λ r. x ∷ r) (take-length-append xs ys)

  pub drop-length-append : (xs ys : List A) → drop (length xs) (xs ++ ys) ≡ ys
  drop-length-append [] ys = refl
  drop-length-append (x ∷ xs) ys = drop-length-append xs ys

  pub drop_add-append : (xs ys : List A) (n : ℕ) → drop (length xs + n) (xs ++ ys) ≡ drop n ys
  drop_add-append [] ys n = let e : 0 + n ≡ n = omega arith in rw e
  drop_add-append (x ∷ xs) ys n =
      let e : suc (length xs) + n ≡ suc (length xs + n) = omega arith in
      rw e (drop_add-append xs ys n)

  pub take-take : (k j : ℕ) (xs : List A) → k ≤ j → take k (take j xs) ≡ take k xs
  take-take zero j xs h = refl
  take-take (suc k) zero xs h = absurd (omega arith)
  take-take (suc k) (suc j) [] h = refl
  take-take (suc k) (suc j) (x ∷ xs) h = ap (λ r. x ∷ r) (take-take k j xs (omega arith))

  -- An element that is met in a part stands at the same place of the whole.
  pub drop-take-cons :
      (k j : ℕ) (xs : List A) (x : A) (rest : List A)
      → drop k (take j xs) ≡ x ∷ rest
      → (more : List A) × (drop k xs ≡ x ∷ more) × (k + 1 ≤ j)
  drop-take-cons zero zero xs x rest h = absurd (nil-ne-cons x rest h)
  drop-take-cons zero (suc j) [] x rest h = absurd (nil-ne-cons x rest h)
  drop-take-cons zero (suc j) (y ∷ ys) x rest h = (ys, cc, omega arith)
  drop-take-cons (suc k) zero xs x rest h = absurd (nil-ne-cons x rest h)
  drop-take-cons (suc k) (suc j) [] x rest h = absurd (nil-ne-cons x rest h)
  drop-take-cons (suc k) (suc j) (y ∷ ys) x rest h =
      let (more, at, le) = drop-take-cons k j ys x rest h in (more, at, omega arith)

  pub drop-drop : (k m : ℕ) (xs : List A) → drop k (drop m xs) ≡ drop (m + k) xs
  drop-drop k zero xs = let e : 0 + k ≡ k = omega arith in rw e
  drop-drop zero (suc m) [] = let e : suc m + 0 ≡ suc m = omega arith in rw e
  drop-drop (suc k) (suc m) [] = let e : suc m + suc k ≡ suc (m + suc k) = omega arith in rw e
  drop-drop k (suc m) (x ∷ xs) =
      let e : suc m + k ≡ suc (m + k) = omega arith in rw e (drop-drop k m xs)

module _ {ℓ κ} {A : Type ℓ} (P : A → Type κ) where
  abbrev pub All : List A → Type κ
  All [] = Unit
  All (x ∷ xs) = P x × All xs

  pub All-append : (xs ys : List A) → All xs → All ys → All (xs ++ ys)
  All-append [] ys hx hy = hy
  All-append (x ∷ xs) ys hx hy = (hx.0, All-append xs ys hx.1 hy)

  pub All-take : (n : ℕ) (xs : List A) → All xs → All (take n xs)
  All-take zero xs h = tt
  All-take (suc n) [] h = tt
  All-take (suc n) (x ∷ xs) h = (h.0, All-take n xs h.1)
