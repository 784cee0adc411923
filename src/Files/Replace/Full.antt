-- ===== src/Files/Replace/Full.antt =====
-- An edit of all lines is an edit of the whole file.
use mcp_ssh_workspace.Common.{
  ℕ, suc, ◌-◌, ◌<◌, ◌≡◌, ◌↔◌, refl, sym, ap, ◌∙◌, Bool, false, not, ◌||◌, List, [], ◌∷◌, append-nil,
  Bytes, ltb, length, take, arith, Bool-cases, inl, inr,
}
use mcp_ssh_workspace.Common.Int.{ℤ, pos, is_nonpos}
use mcp_ssh_workspace.Common.Result.{Result, ok, err, panic}
use mcp_ssh_workspace.Text.Search.{newline, split_on, join_on}
use mcp_ssh_workspace.Text.Search.Laws.{join-split, split-cons}
use mcp_ssh_workspace.Text.Replace.{count}
use mcp_ssh_workspace.Files.Replace.{
  EditError, not_in_range, many_in_range, not_in_file, many_in_file, before_of, chunk_of, after_of,
  edit_chunk, surround, edit_lines, first_line, last_line, edit_text,
}

take_all : (ls : List Bytes) → take (length ls) ls ≡ ls
take_all [] = refl
take_all (l ∷ ls) = ap (λ r. l ∷ r) (take_all ls)

surround_nothing : (x : Result EditError (Bytes × ℕ)) → surround [] [] x ≡ x
unfolding surround
surround_nothing (ok (text, n)) = ap (λ t. ok (t, n)) (append-nil text)
surround_nothing (err e) = refl
surround_nothing panic = refl

module _ (text target replacement : Bytes) (allow_multiple : Bool) where
  abbrev lines : List Bytes
  lines = split_on newline text

  abbrev total : ℕ
  total = length lines

  some_line : 0 < total
  some_line =
      let (l, ls, e) = split-cons newline text in
      let counted : total ≡ suc (length ls) = ap length e in omega (arith, counted)

  nothing_before : before_of lines 1 ≡ []
  unfolding before_of join_on
  nothing_before = refl

  nothing_after : after_of lines total ≡ []
  unfolding after_of
  nothing_after = ground arith

  all_lines : chunk_of lines 1 total ≡ text
  all_lines =
      let count : total - 0 ≡ total = omega arith in
      ap (λ n. join_on newline (take n lines)) count
      ∙ ap (join_on newline) (take_all lines)
      ∙ join-split newline text

  all_edited :
      edit_lines lines target replacement 1 total allow_multiple
      ≡ edit_chunk text target replacement allow_multiple
          (not_in_range 1 total)
          (many_in_range (count text target) 1 total)
  unfolding edit_lines
  all_edited =
      let inside : ltb total 1 ≡ false = ground (arith, some_line) in
      let ordered : ltb total 0 ≡ false = ground arith in
      rw (inside, ordered, nothing_before, nothing_after, all_lines) (surround_nothing _)

  same_success :
      (e f e' f' : EditError) (r : Bytes × ℕ)
      → edit_chunk text target replacement allow_multiple e f ≡ ok r
      → edit_chunk text target replacement allow_multiple e' f' ≡ ok r
  unfolding edit_chunk
  same_success e f e' f' r h = ground arith

  module _ (start_line end_line : ℤ) (from_first : first_line start_line ≡ 1)
      (to_last : last_line end_line total ≡ total) where
    abbrev Chunk : EditError → EditError → Result EditError (Bytes × ℕ)
    Chunk e f = edit_chunk text target replacement allow_multiple e f

    -- Either way it is an edit of the whole text.
    as_chunk :
        (e f : EditError) × (edit_text text target replacement start_line end_line allow_multiple
          ≡ edit_chunk text target replacement allow_multiple e f)
    unfolding edit_text
    as_chunk = elim (Bool-cases (not (is_nonpos start_line) || not (is_nonpos end_line))) [
      | inl ranged ↦ (
        not_in_range 1 total,
        many_in_range (count text target) 1 total,
        rw (ranged, from_first, to_last) all_edited,
      )
      | inr whole ↦ (not_in_file, many_in_file (count text target), rw whole refl)
    ]

    -- With line numbers that stand for the first and the last line, an edit succeeds exactly if it
    -- does without, and with the same text and the same number of replacements.
    pub edit_all_lines :
        (r : Bytes × ℕ)
        → edit_text text target replacement start_line end_line allow_multiple ≡ ok r
          ↔ edit_text text target replacement (pos 0) (pos 0) allow_multiple ≡ ok r
    unfolding edit_text
    edit_all_lines r =
        let (e, f, same) = as_chunk in
        (
          λ h. same_success e f not_in_file (many_in_file (count text target)) r (sym same ∙ h),
          λ h. same ∙ same_success not_in_file (many_in_file (count text target)) e f r h,
        )
