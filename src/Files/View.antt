-- ===== src/Files/View.antt =====
-- `ViewFile` of internal/sshclient/sftp.go, from the text of the file on.
pub mod Slice
pub mod Failing
use mcp_ssh_workspace.Common.{
  ℕ, zero, suc, ◌+◌, ◌-◌, ◌*◌, ◌≡◌, refl, Bool, true, false, Option, none, some, List, [], ◌∷◌,
  ◌++◌, Bytes, codes, eqb, ◌==◌, ltb, leb, if◌then◌else◌, length, take, drop,
}
use mcp_ssh_workspace.Common.Int.{ℤ, pos, negsuc, is_nonpos, pos_part}
use mcp_ssh_workspace.Common.Result.{Result, ok, err}
use mcp_ssh_workspace.Text.Decimal.{format}
use mcp_ssh_workspace.Text.Search.{newline, split_on}

pub record ViewResult : Type 0 where
  pub path : Bytes
  pub total_lines : ℕ
  pub start_line : ℕ
  pub end_line : ℕ
  pub content : Bytes
  pub is_truncated : Bool

-- The errors behind the opening of the file. The first number is the line that was asked for.
pub data ViewError : Type 0 where
  line_too_long : ViewError
  start_beyond : ℕ → ℕ → ViewError

-- The buffer of the scanner: a line that fills it is an error.
abbrev pub max_line : ℕ
max_line = 10 * 1024 * 1024

-- One carriage return at the end is no part of a line.
drop_cr : Bytes → Bytes
drop_cr [] = []
drop_cr (c ∷ []) = if c == 13 then [] else c ∷ []
drop_cr (c ∷ d ∷ s) = c ∷ drop_cr (d ∷ s)

-- `bufio.ScanLines`: behind the last newline there is a line only if there is text.
scanned : List Bytes → Option (List Bytes)
unfolding drop_cr eqb
scanned [] = some []
scanned (l ∷ []) =
    if eqb l [] then some [] else if leb max_line (length l) then none else some (drop_cr l ∷ [])
scanned (l ∷ m ∷ ls) = elim (scanned (m ∷ ls)) [
  | none ↦ none
  | some rest ↦ if leb max_line (length l) then none else some (drop_cr l ∷ rest)
]

unfoldable pub scan_lines : Bytes → Option (List Bytes)
unfolding scanned split_on
scan_lines s = scanned (split_on newline s)

-- `%6d` of a number with few digits is padded on the left.
abbrev pad : ℕ → Bytes
pad zero = []
pad (suc n) = 32 ∷ pad n

-- `%6d | %s\n`
unfoldable pub number_line : ℕ → Bytes → Bytes
number_line n l = pad (6 - length (format n)) ++ (format n ++ (codes " | " ++ (l ++ newline ∷ [])))

-- The loop over the lines from number `n` on, with `used` bytes written so far: what is written
-- yet, the last line that is shown, and whether the budget ended the loop.
view_loop : ℕ → ℕ → ℕ → ℕ → List Bytes → Bytes × ℕ × Bool
view_loop max_bytes end_line n used [] = ([], end_line, false)
view_loop max_bytes end_line n used (l ∷ ls) =
    let (text, last, truncated) =
      view_loop max_bytes end_line (n + 1) (used + length (number_line n l)) ls in
    if ltb max_bytes (used + length (number_line n l))
    then ([], n - 1, true)
    else (number_line n l ++ text, last, truncated)

-- The limits that the arguments stand for.
abbrev pub budget : ℤ → ℕ
budget max_bytes = if is_nonpos max_bytes then 46080 else pos_part max_bytes

abbrev pub first_line : ℤ → ℕ
first_line start_line = if is_nonpos start_line then 1 else pos_part start_line

abbrev pub last_line : ℤ → ℕ → ℕ
last_line end_line total =
    if is_nonpos end_line
    then total
    else if ltb total (pos_part end_line)
    then total
    else pos_part end_line

-- lines[start - 1 : end], as far as the loop goes
abbrev pub between : ℕ → ℕ → List Bytes → List Bytes
between start end lines = take (end + 1 - start) (drop (start - 1) lines)

view_range : Bytes → List Bytes → ℕ → ℕ → ℕ → Result ViewError ViewResult
unfolding view_loop
view_range path lines start end max_bytes =
    let (text, last, truncated) = view_loop max_bytes end start 0 (between start end lines) in
    if ltb (length lines) start
    then err (start_beyond start (length lines))
    else ok (record {
      path = path;
      total_lines = length lines;
      start_line = start;
      end_line = last;
      content = text;
      is_truncated = truncated;
    })

view_lines : Bytes → Option (List Bytes) → ℤ → ℤ → ℤ → Result ViewError ViewResult
unfolding view_range
view_lines path none start_line end_line max_bytes = err line_too_long
view_lines path (some []) start_line end_line max_bytes = ok (record {
  path = path;
  total_lines = 0;
  start_line = 1;
  end_line = 0;
  content = [];
  is_truncated = false;
})
view_lines path (some (l ∷ ls)) start_line end_line max_bytes =
    view_range path (l ∷ ls) (first_line start_line) (last_line end_line (length (l ∷ ls)))
      (budget max_bytes)

unfoldable pub view_text : Bytes → Bytes → ℤ → ℤ → ℤ → Result ViewError ViewResult
unfolding view_lines
view_text path text start_line end_line max_bytes =
    view_lines path (scan_lines text) start_line end_line max_bytes
