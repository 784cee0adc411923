-- ===== src/Files/Replace/Panics.antt =====
-- When an edit of a range of lines panics.
use mcp_ssh_workspace.Common.{
  ℕ, ◌-◌, ◌≤◌, ◌<◌, ◌≡◌, ◌≢◌, ◌↔◌, refl, sym, Bool, List, ◌++◌, Bytes, ltb, length, arith,
  Bool-cases, inl, inr,
}
use mcp_ssh_workspace.Common.Result.{Result, ok, err, panic, panic-ne-ok, panic-ne-err}
use mcp_ssh_workspace.Text.Replace.{count}
use mcp_ssh_workspace.Files.Replace.{
  EditError, not_in_range, many_in_range, before_of, chunk_of, after_of, edit_chunk, surround,
  edit_lines,
}

module _ (lines : List Bytes) (target replacement : Bytes) (start end : ℕ) (allow : Bool) where
  edit_chunk_no_panic :
      (chunk : Bytes) (e f : EditError) → edit_chunk chunk target replacement allow e f ≢ panic
  unfolding edit_chunk
  edit_chunk_no_panic chunk e f = ground arith

  surround_no_panic :
      (b a : Bytes) (x : Result EditError (Bytes × ℕ)) → x ≢ panic → surround b a x ≢ panic
  unfolding surround
  surround_no_panic b a (ok (t, n)) h = λ e. panic-ne-ok (b ++ (t ++ a), n) (sym e)
  surround_no_panic b a (err e) h = λ p. panic-ne-err e (sym p)
  surround_no_panic b a panic h = absurd (h refl)

  pub edit_lines_panics :
      edit_lines lines target replacement start end allow ≡ panic
      ↔ (start ≤ length lines) × (end < start - 1)
  unfolding edit_lines
  edit_lines_panics = (there, back)
    where
      there :
          edit_lines lines target replacement start end allow ≡ panic
          → (start ≤ length lines) × (end < start - 1)
      there h = elim (Bool-cases (ltb (length lines) start)) [
        | inl beyond ↦ absurd (panic-ne-err _ (sym (rw beyond at h)))
        | inr inside ↦ elim (Bool-cases (ltb end (start - 1))) [
          | inl reversed ↦ (ground arith, ground arith)
          | inr ordered ↦ absurd (
              surround_no_panic (before_of lines start) (after_of lines end) _
                (edit_chunk_no_panic (chunk_of lines start end) (not_in_range start end)
                  (many_in_range (count (chunk_of lines start end) target) start end))
                (rw (inside, ordered) at h))
        ]
      ]

      back :
          (start ≤ length lines) × (end < start - 1)
          → edit_lines lines target replacement start end allow ≡ panic
      back (inside, reversed) = ground arith
