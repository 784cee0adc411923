-- ===== src/Files/Replace.antt =====
-- `ReplaceFileContent` of internal/sshclient/sftp.go, from the text of the file to the new text.
pub mod Range
pub mod Whole
pub mod Panics
pub mod Lines
pub mod Full
use mcp_ssh_workspace.Common.{
  ℕ, zero, suc, ◌+◌, ◌-◌, ◌≡◌, refl, Bool, true, false, not, ◌&&◌, ◌||◌, List, [], ◌∷◌, ◌++◌, Bytes,
  eqb, ◌==◌, ltb, if◌then◌else◌, length, take, drop,
}
use mcp_ssh_workspace.Common.Int.{ℤ, is_nonpos, pos_part}
use mcp_ssh_workspace.Common.Result.{Result, ok, err, panic}
use mcp_ssh_workspace.Text.Search.{newline, split_on, join_on}
use mcp_ssh_workspace.Text.Replace.{count, replace, replace_all}

pub data EditError : Type 0 where
  start_beyond : ℕ → ℕ → EditError
  not_in_range : ℕ → ℕ → EditError
  many_in_range : ℕ → ℕ → ℕ → EditError
  not_in_file : EditError
  many_in_file : ℕ → EditError

-- The new text of a chunk that holds the target, and how many occurrences were replaced.
abbrev pub replaced : Bytes → Bytes → Bytes → Bool → Bytes × ℕ
replaced chunk target replacement allow_multiple =
    if allow_multiple
    then (replace_all chunk target replacement, count chunk target)
    else (replace chunk target replacement 1, 1)

-- The three parts of a text around the lines `start` to `end`.
unfoldable pub before_of : List Bytes → ℕ → Bytes
before_of lines start =
    let before = join_on newline (take (start - 1) lines) in
    if ltb 0 (length before) then before ++ newline ∷ [] else before

-- lines[start - 1 : end]
abbrev pub chunk_of : List Bytes → ℕ → ℕ → Bytes
chunk_of lines start end = join_on newline (take (end - (start - 1)) (drop (start - 1) lines))

unfoldable pub after_of : List Bytes → ℕ → Bytes
after_of lines end =
    if ltb end (length lines) then newline ∷ join_on newline (drop end lines) else []

-- `not_found` and `too_many` are the two errors of the search.
unfoldable pub edit_chunk :
    Bytes → Bytes → Bytes → Bool → EditError → EditError → Result EditError (Bytes × ℕ)
edit_chunk chunk target replacement allow_multiple not_found too_many =
    if count chunk target == 0
    then err not_found
    else if ltb 1 (count chunk target) && not allow_multiple
    then err too_many
    else ok (replaced chunk target replacement allow_multiple)

unfoldable pub surround :
    Bytes → Bytes → Result EditError (Bytes × ℕ) → Result EditError (Bytes × ℕ)
surround before after (ok (text, n)) = ok (before ++ (text ++ after), n)
surround before after (err e) = err e
surround before after panic = panic

-- Slicing `lines[start - 1 : end]` panics if `end` is smaller than `start - 1`.
unfoldable pub edit_lines : List Bytes → Bytes → Bytes → ℕ → ℕ → Bool → Result EditError (Bytes × ℕ)
unfolding edit_chunk surround before_of after_of
edit_lines lines target replacement start end allow_multiple =
    let chunk = chunk_of lines start end in
    if ltb (length lines) start
    then err (start_beyond start (length lines))
    else if ltb end (start - 1)
    then panic
    else surround (before_of lines start) (after_of lines end) (
        edit_chunk chunk target replacement allow_multiple (not_in_range start end)
          (many_in_range (count chunk target) start end))

-- The lines that the arguments stand for, in a text of `total` lines.
abbrev pub first_line : ℤ → ℕ
first_line start_line = if is_nonpos start_line then 1 else pos_part start_line

abbrev pub last_line : ℤ → ℕ → ℕ
last_line end_line total =
    if is_nonpos end_line || ltb total (pos_part end_line) then total else pos_part end_line

unfoldable pub edit_text : Bytes → Bytes → Bytes → ℤ → ℤ → Bool → Result EditError (Bytes × ℕ)
unfolding edit_lines edit_chunk
edit_text full_text target replacement start_line end_line allow_multiple =
    let lines = split_on newline full_text in
    if not (is_nonpos start_line) || not (is_nonpos end_line)
    then edit_lines lines target replacement (first_line start_line)
        (last_line end_line (length lines)) allow_multiple
    else edit_chunk full_text target replacement allow_multiple not_in_file
        (many_in_file (count full_text target))
