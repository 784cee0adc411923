-- ===== src/Files/Replace/Lines.antt =====
-- What an edit with line numbers does to a file.
use mathlib.Core.Bool.{◌||◌}
use mcp_ssh_workspace.Common.{
  ℕ, zero, suc, ◌-◌, ◌≤◌, ◌<◌, ◌≡◌, ◌≢◌, ◌↔◌, sym, ap, ◌∙◌, Bool, true, not, List, [], ◌∷◌, ◌++◌,
  Bytes, length, take, arith,
}
use mcp_ssh_workspace.Common.Int.{ℤ, pos, negsuc, is_nonpos}
use mcp_ssh_workspace.Common.Result.{Result, ok, panic}
use mcp_ssh_workspace.Text.Search.{newline, split_on}
use mcp_ssh_workspace.Text.Search.Laws.{join-split}
use mcp_ssh_workspace.Text.Lines.{unlines}
use mcp_ssh_workspace.Files.Replace.{
  EditError, not_in_range, many_in_range, before_of, chunk_of, after_of, edit_lines, first_line,
  last_line, edit_text,
}
use mcp_ssh_workspace.Text.Replace.{count}
use mcp_ssh_workspace.Files.Replace.Whole.{IsEdit, edit_chunk-IsEdit}
use mcp_ssh_workspace.Files.Replace.Range.{
  join_front, join_rest, found_chunk, edit_lines_ok, not_empty, surround_ok, before-unlines,
  before-empty,
}
use mcp_ssh_workspace.Files.Replace.Panics.{edit_lines_panics}

first_line_pos : (n : ℤ) → 0 < first_line n
first_line_pos (pos zero) = omega arith
first_line_pos (pos (suc n)) = omega arith
first_line_pos (negsuc n) = omega arith

module _ (text target replacement : Bytes) (start_line end_line : ℤ) (allow_multiple : Bool)
    (ranged : (not (is_nonpos start_line) || not (is_nonpos end_line)) ≡ true) where
  abbrev lines : List Bytes
  lines = split_on newline text

  abbrev start : ℕ
  start = first_line start_line

  abbrev end : ℕ
  end = last_line end_line (length lines)

  ranged_lines :
      edit_text text target replacement start_line end_line allow_multiple
      ≡ edit_lines lines target replacement start end allow_multiple
  ranged_lines = unfold edit_text in rw ranged

  start_pos : 0 < start
  start_pos = first_line_pos start_line

  module _ (r : Bytes × ℕ) (some_target : target ≢ [])
      (done : edit_text text target replacement start_line end_line allow_multiple ≡ ok r) where
    found : Result EditError (Bytes × ℕ)
    found = found_chunk lines target replacement start end allow_multiple

    in_file :
        (start ≤ length lines)
        × (start - 1 < end)
        × ((t : Bytes) × (found ≡ ok (t, r.1))
            × (r.0 ≡ before_of lines start ++ (t ++ after_of lines end)))
    unfolding found
    in_file =
        let (inside, ordered, e) =
          edit_lines_ok lines target replacement start end allow_multiple r
            (sym ranged_lines ∙ done) in
        let (t, f, new) =
          surround_ok (before_of lines start) (after_of lines end)
            (found_chunk lines target replacement start end allow_multiple) r e in
        (
          inside,
          not_empty lines target replacement start end allow_multiple (t, r.1) some_target f
              ordered,
          (t, f, new),
        )

    old_text :
        start ≤ length lines
        → start - 1 < end
        → text
          ≡ unlines (take (start - 1) lines) ++ (chunk_of lines start end ++ after_of lines end)
    old_text inside ordered =
        sym (join-split newline text)
        ∙ join_front lines (start - 1) (omega (arith, start_pos))
        ∙ ap (λ t. unlines (take (start - 1) lines) ++ t)
            (join_rest lines start end ordered inside start_pos)

    -- A successful edit with line numbers keeps what stands in front of the lines `start` to `end`
    -- and behind them, and replaces occurrences of the target between. The condition is that the text
    -- in front is not one empty line.
    pub range-IsEdit :
        take (start - 1) lines ≢ [] ∷ []
        → (t : Bytes) × (text
            ≡ unlines (take (start - 1) lines) ++ (chunk_of lines start end ++ after_of lines end))
          × (r.0 ≡ unlines (take (start - 1) lines) ++ (t ++ after_of lines end))
          × IsEdit (chunk_of lines start end) target replacement allow_multiple (t, r.1)
    unfolding found found_chunk
    range-IsEdit some_text =
        let (inside, ordered, (t, f, new)) = in_file in
        (
          t,
          old_text inside ordered,
          new ∙ ap (λ b. b ++ (t ++ after_of lines end)) (before-unlines lines start some_text),
          edit_chunk-IsEdit (chunk_of lines start end) target replacement allow_multiple
              (not_in_range start end)
              (many_in_range (count (chunk_of lines start end) target) start end) (t, r.1)
              some_target f,
        )

    -- With one empty line in front, a successful edit drops the newline behind it: the file starts
    -- with a newline before the edit, and with the edited chunk after it.
    pub loses_newline :
        take (start - 1) lines ≡ [] ∷ []
        → (t : Bytes) × (text ≡ newline ∷ (chunk_of lines start end ++ after_of lines end))
          × (r.0 ≡ t ++ after_of lines end)
          × IsEdit (chunk_of lines start end) target replacement allow_multiple (t, r.1)
    unfolding found found_chunk
    loses_newline blank =
        let (inside, ordered, (t, f, new)) = in_file in
        (
          t,
          old_text inside ordered
              ∙ ap (λ ls. unlines ls ++ (chunk_of lines start end ++ after_of lines end)) blank,
          new ∙ ap (λ b. b ++ (t ++ after_of lines end)) (before-empty lines start blank),
          edit_chunk-IsEdit (chunk_of lines start end) target replacement allow_multiple
              (not_in_range start end)
              (many_in_range (count (chunk_of lines start end) target) start end) (t, r.1)
              some_target f,
        )

  -- With line numbers the edit panics exactly if the first line lies in the file and the last line
  -- lies more than one line before it.
  pub edit_range_panics :
      edit_text text target replacement start_line end_line allow_multiple ≡ panic
      ↔ (start ≤ length lines) × (end < start - 1)
  edit_range_panics =
      rw ranged_lines (edit_lines_panics lines target replacement start end allow_multiple)
