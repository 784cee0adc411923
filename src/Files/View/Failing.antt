-- ===== src/Files/View/Failing.antt =====
-- When `ViewFile` fails, and what it shows of an empty file.
use mcp_ssh_workspace.Common.{
  ◌≢◌, ◌<◌, ◌≡◌, refl, sym, ◌⊎◌, inl, inr, Option, none, some, List, [], ◌∷◌, Bytes, ltb, ltb→lt,
  length, Bool-cases, false,
}
use mcp_ssh_workspace.Common.Int.{ℤ}
use mcp_ssh_workspace.Common.Result.{
  ok, err, panic, panic-ne-ok, panic-ne-err, ok-injective, err-ne-ok, err-injective,
}
use mcp_ssh_workspace.Files.View.{
  ViewResult, ViewError, line_too_long, start_beyond, scan_lines, first_line, view_lines, view_text,
}

lines_fail :
    (path : Bytes) (o : Option (List Bytes)) (start_line end_line max_bytes : ℤ) (e : ViewError)
    → view_lines path o start_line end_line max_bytes ≡ err e
    → ((o ≡ none) × (e ≡ line_too_long))
      ⊎ ((lines : List Bytes) × (o ≡ some lines)
          × (length lines < first_line start_line)
          × (e ≡ start_beyond (first_line start_line) (length lines)))
unfolding view_lines
lines_fail path none start_line end_line max_bytes e h = inl (refl, cc)
lines_fail path (some []) start_line end_line max_bytes e h = absurd (err-ne-ok e _ (sym h))
lines_fail path (some (l ∷ ls)) start_line end_line max_bytes e h =
    elim (Bool-cases (ltb (length (l ∷ ls)) (first_line start_line))) [
      | inl short ↦ inr (l ∷ ls, refl, ltb→lt _ _ short, sym (err-injective _ _ (rw short at h)))
      | inr long ↦ absurd (err-ne-ok e _ (sym (rw long at h)))
    ]

-- And it fails only for a line that fills the scanner's buffer, or a first line beyond the end.
pub view_text_fails :
    (path text : Bytes) (start_line end_line max_bytes : ℤ) (e : ViewError)
    → view_text path text start_line end_line max_bytes ≡ err e
    → ((scan_lines text ≡ none) × (e ≡ line_too_long))
      ⊎ ((lines : List Bytes) × (scan_lines text ≡ some lines)
          × (length lines < first_line start_line)
          × (e ≡ start_beyond (first_line start_line) (length lines)))
unfolding view_text
view_text_fails path text start_line end_line max_bytes e h =
    lines_fail path (scan_lines text) start_line end_line max_bytes e h

module _ (path text : Bytes) (start_line end_line max_bytes : ℤ) (r : ViewResult)
    (done : view_text path text start_line end_line max_bytes ≡ ok r) where
  -- A view that succeeds has scanned the text.
  pub view_text_scans : scan_lines text ≢ none
  unfolding view_text view_lines
  view_text_scans e = err-ne-ok line_too_long r (rw e at done)

  -- There is nothing to show of an empty file.
  pub view_text_empty :
      scan_lines text ≡ some []
      → (r.total_lines ≡ 0) × (r.content ≡ []) × (r.is_truncated ≡ false) × (r.end_line ≡ 0)
  unfolding view_text view_lines
  view_text_empty e =
      let same = ok-injective _ r (rw e at done) in rw (sym same) (refl, refl, refl, refl)

lines_answer :
    (path : Bytes) (o : Option (List Bytes)) (start_line end_line max_bytes : ℤ)
    → view_lines path o start_line end_line max_bytes ≢ panic
unfolding view_lines
lines_answer path none start_line end_line max_bytes h = panic-ne-err _ (sym h)
lines_answer path (some []) start_line end_line max_bytes h = panic-ne-ok _ (sym h)
lines_answer path (some (l ∷ ls)) start_line end_line max_bytes h =
    elim (Bool-cases (ltb (length (l ∷ ls)) (first_line start_line))) [
      | inl short ↦ panic-ne-err _ (sym (rw short at h))
      | inr long ↦ panic-ne-ok _ (sym (rw long at h))
    ]

-- The view of a text never panics.
pub view_text_answers :
    (path text : Bytes) (start_line end_line max_bytes : ℤ)
    → view_text path text start_line end_line max_bytes ≢ panic
unfolding view_text
view_text_answers path text start_line end_line max_bytes =
    lines_answer path (scan_lines text) start_line end_line max_bytes
