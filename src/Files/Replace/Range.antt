-- ===== src/Files/Replace/Range.antt =====
-- An edit of a range of lines.
use native.Mathlib.Decide.{dec_lt}
use mcp_ssh_workspace.Common.{
  ℕ, zero, suc, ◌+◌, ◌-◌, ◌≤◌, ◌<◌, ◌≡◌, ◌≢◌, refl, sym, ap, ◌∙◌, Bool, true, false, List, [], ◌∷◌,
  ◌++◌, append_assoc, append-nil, Bytes, ltb, ltb→lt, length, take, drop, take-append-drop,
  drop-drop, length-drop, length-take, arith, Bool-cases, inl, inr,
}
use mcp_ssh_workspace.Common.Result.{Result, ok, err, panic, err-ne-ok, panic-ne-ok}
use mcp_ssh_workspace.Text.Search.{newline, join_on}
use mcp_ssh_workspace.Text.Lines.{unlines, join_some, join-append, join-eq-nil}
use mcp_ssh_workspace.Text.Replace.{count}
use mcp_ssh_workspace.Text.Replace.Pieces.{count-nil}
use mcp_ssh_workspace.Files.Replace.{
  EditError, not_in_range, many_in_range, before_of, chunk_of, after_of, edit_chunk, surround,
  edit_lines,
}
use mcp_ssh_workspace.Files.Replace.Whole.{edit_chunk_ok}

join_nil : join_on newline [] ≡ []
unfolding join_on
join_nil = refl

nil_of_length : (ls : List Bytes) → length ls ≡ 0 → ls ≡ []
nil_of_length [] h = refl
nil_of_length (l ∷ ls) h = absurd (omega arith)

empty_of_length : (s : Bytes) → ltb 0 (length s) ≡ false → s ≡ []
empty_of_length [] h = refl
empty_of_length (c ∷ s) h = absurd (ground arith)

some_lines : (ls : List Bytes) → ltb 0 (length (join_on newline ls)) ≡ true → 0 < length ls
unfolding join_on
some_lines [] h = absurd (ground arith)
some_lines (l ∷ ls) h = omega arith

-- What stands from line `start` on: the chunk, and what stands behind it.
module _ (lines : List Bytes) (start end : ℕ) (in_order : start - 1 < end) where
  abbrev pub rest : List Bytes
  rest = drop (start - 1) lines

  asked : ℕ
  asked = end - (start - 1)

  parts : take asked rest ++ drop asked rest ≡ rest
  parts = take-append-drop asked rest

  behind : drop asked rest ≡ drop end lines
  unfolding asked
  behind =
      let e : start - 1 + (end - (start - 1)) ≡ end = omega arith in
      drop-drop (end - (start - 1)) (start - 1) lines ∙ ap (λ i. drop i lines) e

  module _ (inside : start ≤ length lines) (pos : 0 < start) where
    some_asked : take asked rest ≢ []
    unfolding asked
    some_asked e = omega (
      arith,
      ap length e,
      length-take (end - (start - 1)) (drop (start - 1) lines),
      length-drop (start - 1) lines,
    )

    join_more :
        end < length lines
        → join_on newline rest
          ≡ join_on newline (take asked rest) ++ newline ∷ join_on newline (drop end lines)
    join_more more =
        ap (join_on newline) (sym parts)
        ∙ join-append (take asked rest) (drop asked rest) some_asked some_behind
        ∙ ap (λ r. join_on newline (take asked rest) ++ newline ∷ join_on newline r) behind
      where
        some_behind : drop asked rest ≢ []
        some_behind e = omega (arith, ap length (sym behind ∙ e), length-drop end lines)

    join_all : length lines ≤ end → join_on newline rest ≡ join_on newline (take asked rest)
    join_all all = ap (join_on newline) (
        sym parts
        ∙ ap (λ r. take asked rest ++ r)
            (behind ∙ nil_of_length (drop end lines) (omega (arith, length-drop end lines)))
        ∙ append-nil (take asked rest))

    pub join_rest : join_on newline rest ≡ chunk_of lines start end ++ after_of lines end
    unfolding after_of asked
    join_rest = elim (Bool-cases (ltb end (length lines))) [
      | inl more ↦ rw more (join_more (ltb→lt end (length lines) more))
      | inr all ↦ rw all (join_all (ground arith) ∙ sym (append-nil (chunk_of lines start end)))
    ]

-- The lines in front, as the text has them.
pub before-unlines :
    (lines : List Bytes) (start : ℕ)
    → take (start - 1) lines ≢ [] ∷ []
    → before_of lines start ≡ unlines (take (start - 1) lines)
unfolding before_of
before-unlines lines start some_text =
    let front = take (start - 1) lines in
    elim (Bool-cases (ltb 0 (length (join_on newline front)))) [
      | inl text ↦ rw text (join_some front (some_lines front text))
      | inr blank ↦ rw blank (
          empty_of_length (join_on newline front) blank
          ∙ elim (join-eq-nil front (empty_of_length (join_on newline front) blank)) [
            | inl e ↦ sym (ap unlines e)
            | inr e ↦ absurd (some_text e)
          ])
    ]

-- With one empty line in front, its newline is lost.
pub before-empty :
    (lines : List Bytes) (start : ℕ) → take (start - 1) lines ≡ [] ∷ [] → before_of lines start ≡ []
unfolding before_of join_on
before-empty lines start e = rw e

pub surround_ok :
    (before after : Bytes) (x : Result EditError (Bytes × ℕ)) (r : Bytes × ℕ)
    → surround before after x ≡ ok r
    → (t : Bytes) × (x ≡ ok (t, r.1)) × (r.0 ≡ before ++ (t ++ after))
unfolding surround
surround_ok before after (ok (t, n)) r h = (t, cc, cc)
surround_ok before after (err e) r h = absurd (err-ne-ok e r h)
surround_ok before after panic r h = absurd (panic-ne-ok r h)

pub join_front :
    (lines : List Bytes) (m : ℕ)
    → m < length lines
    → join_on newline lines ≡ unlines (take m lines) ++ join_on newline (drop m lines)
join_front lines zero h = refl
join_front lines (suc m) h =
    ap (join_on newline) (sym (take-append-drop (suc m) lines))
    ∙ join-append (take (suc m) lines) (drop (suc m) lines) front back
    ∙ sym (
        append_assoc (join_on newline (take (suc m) lines)) (newline ∷ [])
          (join_on newline (drop (suc m) lines)))
    ∙ ap (λ r. r ++ join_on newline (drop (suc m) lines))
        (join_some (take (suc m) lines) (omega (arith, length-take (suc m) lines)))
  where
    front : take (suc m) lines ≢ []
    front e = omega (arith, ap length e, length-take (suc m) lines)

    back : drop (suc m) lines ≢ []
    back e = omega (arith, ap length e, length-drop (suc m) lines)

module _ (lines : List Bytes) (target replacement : Bytes) (start end : ℕ) (allow : Bool) where
  unfoldable pub found_chunk : Result EditError (Bytes × ℕ)
  found_chunk =
      edit_chunk (chunk_of lines start end) target replacement allow (not_in_range start end)
        (many_in_range (count (chunk_of lines start end) target) start end)

  -- A success comes from a range that lies in the file and holds the target.
  pub edit_lines_ok :
      (r : Bytes × ℕ)
      → edit_lines lines target replacement start end allow ≡ ok r
      → (start ≤ length lines)
        × (start - 1 ≤ end)
        × (surround (before_of lines start) (after_of lines end) found_chunk ≡ ok r)
  unfolding edit_lines found_chunk
  edit_lines_ok r h = elim (Bool-cases (ltb (length lines) start)) [
    | inl beyond ↦ absurd (err-ne-ok _ r (rw beyond at h))
    | inr inside ↦ elim (Bool-cases (ltb end (start - 1))) [
      | inl reversed ↦ absurd (panic-ne-ok r (rw (inside, reversed) at h))
      | inr ordered ↦ (ground arith, ground arith, rw (inside, ordered) at h)
    ]
  ]

  -- An empty range holds no target.
  pub not_empty :
      (r : Bytes × ℕ) → target ≢ [] → found_chunk ≡ ok r → start - 1 ≤ end → start - 1 < end
  unfolding found_chunk
  not_empty r some_target h le = elim (dec_lt (start - 1) end) [
    | yes more ↦ more
    | no same ↦
        let none_left : end - (start - 1) ≡ 0 = omega arith in
        let blank : chunk_of lines start end ≡ [] =
          ap (λ n. join_on newline (take n (drop (start - 1) lines))) none_left ∙ join_nil in
        let (pos, _, _) =
          edit_chunk_ok (chunk_of lines start end) target replacement allow (not_in_range start end)
            (many_in_range (count (chunk_of lines start end) target) start end) r h in
        absurd (omega (arith, ap (λ c. count c target) blank, count-nil target some_target))
  ]
