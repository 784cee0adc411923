-- ===== src/Text/Replace/Pieces.antt =====
-- What a replacement does to the text: the pieces between the occurrences stay.
use mcp_ssh_workspace.Common.{
  ℕ, zero, suc, ◌-◌, ◌≤◌, ◌≡◌, ◌≢◌, refl, sym, ap, ◌∙◌, inl, inr, true, false, List, [], ◌∷◌, ◌++◌,
  Bytes, ltb, if◌then◌else◌, length, drop, eqb, eqb_iff, eqb_refl, arith, Bool-cases,
}
use mcp_ssh_workspace.Text.Search.{has_prefix, cons_head}
use mcp_ssh_workspace.Text.Replace.{count_from, count, replace_from, replace, replace_all}

-- The text between the occurrences that `count` counts.
pieces_from : Bytes → ℕ → Bytes → List Bytes
pieces_from old k [] = [] ∷ []
pieces_from old (suc k) (c ∷ s) = pieces_from old k s
pieces_from old zero (c ∷ s) =
    let found = has_prefix (c ∷ s) old in
    let ps = pieces_from old (if found then length old - 1 else 0) s in
    if found then [] ∷ ps else cons_head c ps

pub pieces : Bytes → Bytes → List Bytes
pieces s old = pieces_from old 0 s

abbrev glue : Bytes → List Bytes → Bytes
glue sep [] = []
glue sep (p ∷ ps) = sep ++ (p ++ glue sep ps)

-- The pieces with `sep` between them.
abbrev pub intercalate : Bytes → List Bytes → Bytes
intercalate sep [] = []
intercalate sep (p ∷ ps) = p ++ glue sep ps

pieces_from-cons :
    (old : Bytes) (k : ℕ) (s : Bytes)
    → (p : Bytes) × (ps : List Bytes) × (pieces_from old k s ≡ p ∷ ps)
unfolding pieces_from
pieces_from-cons old k [] = ([], [], refl)
pieces_from-cons old (suc k) (c ∷ s) = pieces_from-cons old k s
pieces_from-cons old zero (c ∷ s) = elim (Bool-cases (has_prefix (c ∷ s) old)) [
  | inl e ↦ ([], pieces_from old (length old - 1) s, rw e)
  | inr e ↦ let (p, ps, h) = pieces_from-cons old 0 s in (c ∷ p, ps, rw (e, h))
]

intercalate-cons_head :
    (sep : Bytes) (c : ℕ) (p : Bytes) (ps : List Bytes)
    → intercalate sep (cons_head c (p ∷ ps)) ≡ c ∷ intercalate sep (p ∷ ps)
intercalate-cons_head sep c p ps = refl

pub has_prefix-split : (s p : Bytes) → has_prefix s p ≡ true → p ++ drop (length p) s ≡ s
unfolding has_prefix
has_prefix-split s [] h = refl
has_prefix-split [] (y ∷ ys) h = cc
has_prefix-split (x ∷ xs) (y ∷ ys) h = ground (arith, has_prefix-split xs ys)

module _ (d : ℕ) (o : Bytes) where
  -- One round of each loop, at an occurrence and elsewhere.
  module _ (c : ℕ) (s : Bytes) (e : has_prefix (c ∷ s) (d ∷ o) ≡ true) where
    back : suc (length o) - 1 ≡ length o
    back = omega arith

    pieces_hit : pieces_from (d ∷ o) 0 (c ∷ s) ≡ [] ∷ pieces_from (d ∷ o) (length o) s
    unfolding pieces_from
    pieces_hit = rw (e, back)

    count_hit : count_from (d ∷ o) 0 (c ∷ s) ≡ suc (count_from (d ∷ o) (length o) s)
    unfolding count_from
    count_hit = rw (e, back)

    replace_hit :
        (new : Bytes) (n : ℕ)
        → replace_from (d ∷ o) new (suc n) 0 (c ∷ s)
          ≡ new ++ replace_from (d ∷ o) new n (length o) s
    unfolding replace_from
    replace_hit new n =
        let pos : ltb 0 (suc n) ≡ true = ground arith in
        let prev : suc n - 1 ≡ n = omega arith in rw (pos, e, back, prev)

    rest_hit : (d ∷ o) ++ drop (length o) s ≡ c ∷ s
    rest_hit = has_prefix-split (c ∷ s) (d ∷ o) e

  module _ (c : ℕ) (s : Bytes) (e : has_prefix (c ∷ s) (d ∷ o) ≡ false) where
    pieces_miss : pieces_from (d ∷ o) 0 (c ∷ s) ≡ cons_head c (pieces_from (d ∷ o) 0 s)
    unfolding pieces_from
    pieces_miss = rw e

    count_miss : count_from (d ∷ o) 0 (c ∷ s) ≡ count_from (d ∷ o) 0 s
    unfolding count_from
    count_miss = rw e

    replace_miss :
        (new : Bytes) (n : ℕ)
        → replace_from (d ∷ o) new n 0 (c ∷ s) ≡ c ∷ replace_from (d ∷ o) new n 0 s
    unfolding replace_from
    replace_miss new n = elim (Bool-cases (ltb 0 n)) [ inl p ↦ rw (p, e) | inr p ↦ rw p ]

  module _ (k c : ℕ) (s : Bytes) where
    pieces_pass : pieces_from (d ∷ o) (suc k) (c ∷ s) ≡ pieces_from (d ∷ o) k s
    unfolding pieces_from
    pieces_pass = refl

    count_pass : count_from (d ∷ o) (suc k) (c ∷ s) ≡ count_from (d ∷ o) k s
    unfolding count_from
    count_pass = refl

    replace_pass :
        (new : Bytes) (n : ℕ)
        → replace_from (d ∷ o) new n (suc k) (c ∷ s) ≡ replace_from (d ∷ o) new n k s
    unfolding replace_from
    replace_pass new n = refl

  hit_spells :
      (c : ℕ) (s : Bytes) (ps : List Bytes)
      → has_prefix (c ∷ s) (d ∷ o) ≡ true
      → pieces_from (d ∷ o) (length o) s ≡ ps
      → intercalate (d ∷ o) ps ≡ drop (length o) s
      → intercalate (d ∷ o) (pieces_from (d ∷ o) 0 (c ∷ s)) ≡ c ∷ s
  hit_spells c s [] e h ih = let (p, ps, g) = pieces_from-cons (d ∷ o) (length o) s in cc (h, g)
  hit_spells c s (p ∷ ps) e h ih =
      rw (pieces_hit c s e, h) (ap (λ r. (d ∷ o) ++ r) ih ∙ rest_hit c s e)

  miss_spells :
      (c : ℕ) (s : Bytes) (ps : List Bytes)
      → has_prefix (c ∷ s) (d ∷ o) ≡ false
      → pieces_from (d ∷ o) 0 s ≡ ps
      → intercalate (d ∷ o) ps ≡ s
      → intercalate (d ∷ o) (pieces_from (d ∷ o) 0 (c ∷ s)) ≡ c ∷ s
  miss_spells c s [] e h ih = let (p, ps, g) = pieces_from-cons (d ∷ o) 0 s in cc (h, g)
  miss_spells c s (p ∷ ps) e h ih = rw (pieces_miss c s e, h) (ap (λ r. c ∷ r) ih)

  -- With the text that was searched for between them, the pieces spell the text.
  intercalate-pieces_from :
      (k : ℕ) (s : Bytes) → intercalate (d ∷ o) (pieces_from (d ∷ o) k s) ≡ drop k s
  intercalate-pieces_from zero [] = unfold pieces_from in refl
  intercalate-pieces_from (suc k) [] = unfold pieces_from in refl
  intercalate-pieces_from (suc k) (c ∷ s) = rw (pieces_pass k c s) (intercalate-pieces_from k s)
  intercalate-pieces_from zero (c ∷ s) = elim (Bool-cases (has_prefix (c ∷ s) (d ∷ o))) [
    | inl e ↦ hit_spells c s _ e refl (intercalate-pieces_from (length o) s)
    | inr e ↦ miss_spells c s _ e refl (intercalate-pieces_from 0 s)
  ]

  length-cons_head : (c : ℕ) (ps : List Bytes) → ps ≢ [] → length (cons_head c ps) ≡ length ps
  length-cons_head c [] h = absurd (h refl)
  length-cons_head c (p ∷ ps) h = refl

  pieces_from-ne-nil : (k : ℕ) (s : Bytes) → pieces_from (d ∷ o) k s ≢ []
  pieces_from-ne-nil k s h = let (p, ps, g) = pieces_from-cons (d ∷ o) k s in cc

  -- There is one piece more than there are occurrences.
  length-pieces_from :
      (k : ℕ) (s : Bytes) → length (pieces_from (d ∷ o) k s) ≡ suc (count_from (d ∷ o) k s)
  length-pieces_from zero [] = unfold pieces_from count_from in refl
  length-pieces_from (suc k) [] = unfold pieces_from count_from in refl
  length-pieces_from (suc k) (c ∷ s) =
      rw (pieces_pass k c s, count_pass k c s) (length-pieces_from k s)
  length-pieces_from zero (c ∷ s) = elim (Bool-cases (has_prefix (c ∷ s) (d ∷ o))) [
    | inl e ↦ rw (pieces_hit c s e, count_hit c s e) (ap suc (length-pieces_from (length o) s))
    | inr e ↦
        rw (pieces_miss c s e, count_miss c s e)
          (length-cons_head c _ (pieces_from-ne-nil 0 s) ∙ length-pieces_from 0 s)
  ]

  hit_replaced :
      (new : Bytes) (c : ℕ) (s : Bytes) (ps : List Bytes) (r : Bytes)
      → has_prefix (c ∷ s) (d ∷ o) ≡ true
      → pieces_from (d ∷ o) (length o) s ≡ ps
      → r ≡ intercalate new ps
      → new ++ r ≡ intercalate new (pieces_from (d ∷ o) 0 (c ∷ s))
  hit_replaced new c s [] r e h ih = absurd (pieces_from-ne-nil (length o) s h)
  hit_replaced new c s (p ∷ ps) r e h ih = rw (pieces_hit c s e, h) (ap (λ t. new ++ t) ih)

  miss_replaced :
      (new : Bytes) (c : ℕ) (s : Bytes) (ps : List Bytes) (r : Bytes)
      → has_prefix (c ∷ s) (d ∷ o) ≡ false
      → pieces_from (d ∷ o) 0 s ≡ ps
      → r ≡ intercalate new ps
      → c ∷ r ≡ intercalate new (pieces_from (d ∷ o) 0 (c ∷ s))
  miss_replaced new c s [] r e h ih = absurd (pieces_from-ne-nil 0 s h)
  miss_replaced new c s (p ∷ ps) r e h ih = rw (pieces_miss c s e, h) (ap (λ t. c ∷ t) ih)

  -- A replacement with a limit that is high enough puts `new` between the pieces.
  replace_from-pieces :
      (new : Bytes) (n k : ℕ) (s : Bytes)
      → count_from (d ∷ o) k s ≤ n
      → replace_from (d ∷ o) new n k s ≡ intercalate new (pieces_from (d ∷ o) k s)
  replace_from-pieces new n zero [] h = unfold replace_from pieces_from in refl
  replace_from-pieces new n (suc k) [] h = unfold replace_from pieces_from in refl
  replace_from-pieces new n (suc k) (c ∷ s) h =
      rw (pieces_pass k c s, replace_pass k c s)
        (replace_from-pieces new n k s (rw (count_pass k c s) at h))
  replace_from-pieces new zero zero (c ∷ s) h = elim (Bool-cases (has_prefix (c ∷ s) (d ∷ o))) [
    | inl e ↦ absurd (omega (arith, count_hit c s e))
    | inr e ↦
        replace_miss c s e new 0
        ∙ miss_replaced new c s _ _ e refl
            (replace_from-pieces new 0 0 s (rw (count_miss c s e) at h))
  ]
  replace_from-pieces new (suc n) zero (c ∷ s) h = elim (Bool-cases (has_prefix (c ∷ s) (d ∷ o))) [
    | inl e ↦
        replace_hit c s e new n
        ∙ hit_replaced new c s _ _ e refl
            (replace_from-pieces new n (length o) s (omega (arith, count_hit c s e)))
    | inr e ↦
        replace_miss c s e new (suc n)
        ∙ miss_replaced new c s _ _ e refl
            (replace_from-pieces new (suc n) 0 s (rw (count_miss c s e) at h))
  ]

pub intercalate-pieces : (s old : Bytes) → old ≢ [] → intercalate old (pieces s old) ≡ s
unfolding pieces
intercalate-pieces s [] h = absurd (h refl)
intercalate-pieces s (d ∷ o) h = intercalate-pieces_from d o 0 s

pub length-pieces : (s old : Bytes) → old ≢ [] → length (pieces s old) ≡ suc (count s old)
length-pieces s [] h = absurd (h refl)
length-pieces s (d ∷ o) h = unfold pieces count in length-pieces_from d o 0 s

-- A limit that no occurrence is beyond replaces them all.
pub replace-pieces :
    (s old new : Bytes) (n : ℕ)
    → old ≢ []
    → count s old ≤ n
    → replace s old new n ≡ intercalate new (pieces s old)
replace-pieces s [] new n h fits = absurd (h refl)
replace-pieces s (d ∷ o) new n h fits = elim (Bool-cases (eqb (d ∷ o) new)) [
  | inl e ↦ same ((eqb_iff (d ∷ o) new).0 e) e
  | inr e ↦ unfold replace pieces in rw e (replace_from-pieces d o new n 0 s (unfold count in fits))
]
  where
    same :
        d ∷ o ≡ new
        → eqb (d ∷ o) new ≡ true
        → replace s (d ∷ o) new n ≡ intercalate new (pieces s (d ∷ o))
    same p e = rw (← p) (copied ∙ sym (intercalate-pieces s (d ∷ o) h))
      where
        copied : replace s (d ∷ o) (d ∷ o) n ≡ s
        copied = unfold replace in rw (eqb_refl (d ∷ o))

pub replace_all-pieces :
    (s old new : Bytes) → old ≢ [] → replace_all s old new ≡ intercalate new (pieces s old)
unfolding replace_all
replace_all-pieces s old new h = replace-pieces s old new (count s old) h (omega arith)

-- Nothing occurs in the empty text.
pub count-nil : (old : Bytes) → old ≢ [] → count [] old ≡ 0
count-nil [] h = absurd (h refl)
count-nil (d ∷ o) h = unfold count count_from in refl
