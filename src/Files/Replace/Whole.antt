-- ===== src/Files/Replace/Whole.antt =====
-- An edit without line numbers.
use mcp_ssh_workspace.Common.{
  ℕ, suc, ◌<◌, ◌≡◌, ◌≢◌, ◌↔◌, refl, sym, ap, ◌∙◌, Bool, true, false, not, List, [], Bytes, length,
  arith,
}
use mathlib.Core.Bool.{false≢true, ◌||◌}
use mcp_ssh_workspace.Common.Int.{ℤ, is_nonpos}
use mcp_ssh_workspace.Common.Result.{ok, err, panic}
use mcp_ssh_workspace.Text.Replace.{count}
use mcp_ssh_workspace.Text.Replace.Pieces.{
  pieces, intercalate, intercalate-pieces, length-pieces, replace-pieces, replace_all-pieces,
}
use mcp_ssh_workspace.Files.Replace.{
  EditError, replaced, edit_chunk, edit_text, not_in_file, many_in_file,
}

-- `text` was cut at `n` occurrences of the target, and the pieces were joined by the replacement.
pub record IsEdit (text target replacement : Bytes) (allow_multiple : Bool) (r : Bytes × ℕ)
    : Type 0 where
  pub parts : List Bytes
  pub cut : intercalate target parts ≡ text
  pub joined : intercalate replacement parts ≡ r.0
  pub counted : length parts ≡ suc r.1
  pub some_occurrence : 0 < r.1
  -- Without `allow_multiple` there was one occurrence only.
  pub only : allow_multiple ≡ false → r.1 ≡ 1

pub edit_chunk_ok :
    (chunk target replacement : Bytes) (allow : Bool) (e f : EditError) (r : Bytes × ℕ)
    → edit_chunk chunk target replacement allow e f ≡ ok r
    → (0 < count chunk target)
      × (allow ≡ false → count chunk target ≡ 1)
      × (r ≡ replaced chunk target replacement allow)
unfolding edit_chunk
edit_chunk_ok chunk target replacement true e f r h =
    (ground arith, λ t. absurd (false≢true (sym t)), ground arith)
edit_chunk_ok chunk target replacement false e f r h =
    (ground arith, λ _. ground arith, ground arith)

pub edit_chunk-IsEdit :
    (chunk target replacement : Bytes) (allow : Bool) (e f : EditError) (r : Bytes × ℕ)
    → target ≢ []
    → edit_chunk chunk target replacement allow e f ≡ ok r
    → IsEdit chunk target replacement allow r
edit_chunk-IsEdit chunk target replacement true e f r some_target h =
    let (pos, _, same) = edit_chunk_ok chunk target replacement true e f r h in
    rw same (record {
      parts = pieces chunk target;
      cut = intercalate-pieces chunk target some_target;
      joined = sym (replace_all-pieces chunk target replacement some_target);
      counted = length-pieces chunk target some_target;
      some_occurrence = pos;
      only = λ t. absurd (false≢true (sym t));
    })
edit_chunk-IsEdit chunk target replacement false e f r some_target h =
    let (pos, single, same) = edit_chunk_ok chunk target replacement false e f r h in
    let one = single refl in
    rw same (record {
      parts = pieces chunk target;
      cut = intercalate-pieces chunk target some_target;
      joined = sym (replace-pieces chunk target replacement 1 some_target (omega (arith, one)));
      counted = length-pieces chunk target some_target ∙ ap suc one;
      some_occurrence = omega arith;
      only = λ _. refl;
    })

module _ (text target replacement : Bytes) (start_line end_line : ℤ) (allow_multiple : Bool)
    (whole : (not (is_nonpos start_line) || not (is_nonpos end_line)) ≡ false) where
  whole_chunk :
      edit_text text target replacement start_line end_line allow_multiple
      ≡ edit_chunk text target replacement allow_multiple not_in_file
          (many_in_file (count text target))
  whole_chunk = unfold edit_text in rw whole

  -- It fails exactly on a target that does not occur, and on one that occurs more than once where
  -- only one is allowed; and it never panics.
  pub edit_whole_fails :
      (edit_text text target replacement start_line end_line allow_multiple ≢ panic)
      × ((edit_text text target replacement start_line end_line allow_multiple ≡ err not_in_file)
          ↔ (count text target ≡ 0))
      × ((edit_text text target replacement start_line end_line allow_multiple
            ≡ err (many_in_file (count text target)))
          ↔ ((1 < count text target) × (allow_multiple ≡ false)))
  edit_whole_fails =
      rw whole_chunk (unfold edit_chunk in (ground arith, ground arith, ground arith))
