-- ===== src/Text/Search/Laws.antt =====
-- Laws of the searches, of `split_lines` and of `join_lines`.
use mcp_ssh_workspace.Common.{
  ℕ, suc, ◌+◌, ◌≡◌, ◌≢◌, refl, ap, ◌∙◌, drop_add-append, true, none, some, List, [], ◌∷◌, ◌++◌,
  append-nil, arith, Bytes, length, drop, take-length-append, drop-length-append, All,
}
use native.Mathlib.Decide.{ℕ_discrete}
use mcp_ssh_workspace.Text.Search.{
  has_prefix, index, last_index, split_n2, cons_head, split_on, glue_on, join_on,
}

pub has_prefix-append : (sep t : Bytes) → has_prefix (sep ++ t) sep ≡ true
unfolding has_prefix
has_prefix-append [] [] = refl
has_prefix-append [] (x ∷ t) = refl
has_prefix-append (c ∷ sep) t = ground (arith, has_prefix-append sep t)

-- What stands before a place where `sep` begins does not change which place is the last one, if
-- `sep` does not begin again behind the first byte of that place.
pub last_index-append :
    (s : Bytes) (c : ℕ) (t sep : Bytes)
    → has_prefix (c ∷ t) sep ≡ true
    → last_index t sep ≡ none
    → last_index (s ++ c ∷ t) sep ≡ some (length s)
unfolding last_index
last_index-append [] c t sep here later = rw (later, here)
last_index-append (x ∷ s) c t sep here later = rw (last_index-append s c t sep here later)

-- A byte that no occurrence of the separator starts with adds no occurrence.
pub index-skip :
    (p : Bytes) (t : Bytes) (c : ℕ) (sep : Bytes)
    → All (λ b. b ≢ c) p
    → has_prefix t (c ∷ sep) ≡ true
    → index (p ++ t) (c ∷ sep) ≡ some (length p)
unfolding index has_prefix
index-skip [] [] c sep _ h = cc
index-skip [] (x ∷ t) c sep _ h = rw h
index-skip (b ∷ p) t c sep (hb, hp) h = ground (arith, index-skip p t c sep hp h)

pub last_index-skip :
    (p : Bytes) (t : Bytes) (c : ℕ) (sep : Bytes)
    → All (λ b. b ≢ c) p
    → last_index t (c ∷ sep) ≡ none
    → last_index (p ++ t) (c ∷ sep) ≡ none
unfolding last_index has_prefix
last_index-skip [] t c sep _ h = h
last_index-skip (b ∷ p) t c sep (hb, hp) h = ground (arith, last_index-skip p t c sep hp h)

pub split_n2-append :
    (p t : Bytes) (c : ℕ) (sep : Bytes)
    → All (λ b. b ≢ c) p
    → split_n2 (p ++ ((c ∷ sep) ++ t)) (c ∷ sep) ≡ p ∷ t ∷ []
unfolding split_n2
split_n2-append p t c sep lacks =
    rw (index-skip p ((c ∷ sep) ++ t) c sep lacks (has_prefix-append (c ∷ sep) t), split_n2)
      (cc (take-length-append p ((c ∷ sep) ++ t), tail))
  where
    tail : drop (length p + suc (length sep)) (p ++ ((c ∷ sep) ++ t)) ≡ t
    tail = drop_add-append p ((c ∷ sep) ++ t) (suc (length sep)) ∙ drop-length-append sep t

abbrev pub Lacks : ℕ → Bytes → Type 0
Lacks c = All (λ b. b ≢ c)

module _ (sep : ℕ) where
  pub split_at_sep : (c : ℕ) (s : Bytes) → c ≡ sep → split_on sep (c ∷ s) ≡ [] ∷ split_on sep s
  unfolding split_on
  split_at_sep c s e = ground arith

  split_at_other :
      (c : ℕ) (s : Bytes) → c ≢ sep → split_on sep (c ∷ s) ≡ cons_head c (split_on sep s)
  unfolding split_on
  split_at_other c s e = ground arith

  pub split-cons : (s : Bytes) → (l : Bytes) × (ls : List Bytes) × (split_on sep s ≡ l ∷ ls)
  split-cons [] = ([], [], unfold split_on in refl)
  split-cons (c ∷ s) = elim (ℕ_discrete c sep) [
    | yes e ↦ ([], split_on sep s, split_at_sep c s e)
    | no e ↦ let (l, ls, h) = split-cons s in (c ∷ l, ls, cc (split_at_other c s e, h))
  ]

  join-cons_head : (c : ℕ) (ls : List Bytes) → join_on sep (cons_head c ls) ≡ c ∷ join_on sep ls
  unfolding join_on
  join-cons_head c [] = refl
  join-cons_head c (l ∷ ls) = refl

  join-nil_cons :
      (l : Bytes) (ls : List Bytes) → join_on sep ([] ∷ l ∷ ls) ≡ sep ∷ join_on sep (l ∷ ls)
  unfolding join_on
  join-nil_cons l ls = refl

  -- Joining what was split gives the text back.
  pub join-split : (s : Bytes) → join_on sep (split_on sep s) ≡ s
  join-split [] = unfold join_on split_on in refl
  join-split (c ∷ s) = elim (ℕ_discrete c sep) [
    | yes e ↦
        let (l, ls, h) = split-cons s in
        cc (split_at_sep c s e, h, join-nil_cons l ls, join-split s, e)
    | no e ↦ cc (split_at_other c s e, join-cons_head c (split_on sep s), join-split s)
  ]

  cons_head-Lacks :
      (c : ℕ) (ls : List Bytes) → c ≢ sep → All (Lacks sep) ls → All (Lacks sep) (cons_head c ls)
  cons_head-Lacks c [] h _ = ((h, tt), tt)
  cons_head-Lacks c (l ∷ ls) h (hl, hs) = ((h, hl), hs)

  -- No part holds the separator.
  pub split-Lacks : (s : Bytes) → All (Lacks sep) (split_on sep s)
  split-Lacks [] = unfold split_on in (tt, tt)
  split-Lacks (c ∷ s) = elim (ℕ_discrete c sep) [
    | yes e ↦ rw (split_at_sep c s e) (tt, split-Lacks s)
    | no e ↦ rw (split_at_other c s e) (cons_head-Lacks c (split_on sep s) e (split-Lacks s))
  ]

  split-append :
      (p t : Bytes) (l : Bytes) (ls : List Bytes)
      → Lacks sep p
      → split_on sep t ≡ l ∷ ls
      → split_on sep (p ++ t) ≡ (p ++ l) ∷ ls
  split-append [] t l ls _ h = h
  split-append (c ∷ p) t l ls (hc, hp) h =
      cc (split_at_other c (p ++ t) hc, split-append p t l ls hp h)

  split-glue : (ps : List Bytes) → All (Lacks sep) ps → split_on sep (glue_on sep ps) ≡ [] ∷ ps
  split-glue [] _ = unfold split_on in refl
  split-glue (p ∷ ps) (hp, hps) =
      split_at_sep sep _ refl
      ∙ ap (λ r. [] ∷ r)
          (split-append p (glue_on sep ps) [] ps hp (split-glue ps hps)
            ∙ ap (λ r. r ∷ ps) (append-nil p))

  -- Splitting a join gives the parts back, if there is a part and none holds the separator.
  pub split-join :
      (p : Bytes) (ps : List Bytes)
      → Lacks sep p
      → All (Lacks sep) ps
      → split_on sep (join_on sep (p ∷ ps)) ≡ p ∷ ps
  unfolding join_on
  split-join p ps hp hps =
      split-append p (glue_on sep ps) [] ps hp (split-glue ps hps) ∙ ap (λ r. r ∷ ps) (append-nil p)
