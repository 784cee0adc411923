-- ===== src/Tools/Search.antt =====
-- The command lines of `remote_grep_search` and `remote_find_by_name`, internal/tools/register.go.
pub mod Injection
use mcp_ssh_workspace.Common.{
  ℕ, ◌≡◌, Bool, true, false, not, ◌||◌, List, [], ◌∷◌, ◌++◌, Bytes, codes, eqb, ◌==◌, if◌then◌else◌,
}
use mcp_ssh_workspace.Common.Int.{ℤ, is_nonpos}
use mcp_ssh_workspace.Text.Decimal.{format_int}
use mcp_ssh_workspace.Text.Quote.{quote}
use mcp_ssh_workspace.Text.Search.{has_prefix}
use mcp_ssh_workspace.Text.Trim.{trim_prefix, trim_space}
use mcp_ssh_workspace.Tools.{ToolResult, text, error}

abbrev is_one_of : ℕ → Bytes → Bool
is_one_of c [] = false
is_one_of c (d ∷ ds) = let rest = is_one_of c ds in c == d || rest

-- strings.ContainsAny
unfoldable pub contains_any : Bytes → Bytes → Bool
contains_any [] chars = false
contains_any (c ∷ s) chars = let rest = contains_any s chars in is_one_of c chars || rest

abbrev when : Bool → Bytes → Bytes
when test piece = if test then piece else []

-- The table of `unicode.IsPrint` is a parameter, as it is for `%q`.
module _ (is_print : ℕ → Bool) where
  -- One flag for each of the globs, each behind `flag`.
  unfoldable pub globs : Bytes → List Bytes → Bytes
  globs flag [] = []
  globs flag (inc ∷ includes) =
      let rest = globs flag includes in flag ++ (quote is_print inc ++ rest)

  abbrev pub search_words : Bytes → Bytes → Bytes
  search_words query search_path =
      b' ' ∷ (quote is_print query ++ (b' ' ∷ quote is_print search_path))

  abbrev pub grep_flags : Bool → Bool → Bytes
  grep_flags is_regex case_insensitive =
      when case_insensitive (codes " -i") ++ when (not is_regex) (codes " -F")

  unfoldable pub grep_command : Bytes → Bytes → Bool → Bool → List Bytes → Bytes
  unfolding globs quote
  grep_command query search_path is_regex case_insensitive includes =
      let flags = grep_flags is_regex case_insensitive in
      let words = search_words query search_path in
      codes "if command -v rg >/dev/null 2>&1; then rg --hidden --max-columns 500 -n"
      ++ (flags
          ++ (globs (codes " --glob ") includes
              ++ (words
                  ++ (codes "; else grep -rn"
                      ++ (flags
                          ++ (globs (codes " --include=") includes
                              ++ (words ++ codes "; fi | head -n 100")))))))

  -- The test of the name in the call of `find`.
  unfoldable pub find_clause : Bytes → Bytes
  unfolding contains_any quote has_prefix
  find_clause pattern =
      if not (contains_any pattern (codes "*?["))
      then codes "\\( -name "
        ++ (quote is_print pattern ++ (codes " -o -name \"*" ++ (pattern ++ codes "*\" \\)")))
      else if has_prefix pattern (codes "*.")
      then codes "\\( -name "
        ++ (quote is_print pattern
            ++ (codes " -o -name \"*" ++ (trim_prefix (codes "*.") pattern ++ codes "\" \\)")))
      else codes "-name " ++ quote is_print pattern

  abbrev depth_flag : Bytes → ℤ → Bytes
  depth_flag flag max_depth = when (not (is_nonpos max_depth)) (flag ++ format_int max_depth)

  abbrev type_flag : Bytes → Bytes → Bytes
  type_flag flag file_type =
      if eqb file_type (codes "file")
      then flag ++ codes "f"
      else if eqb file_type (codes "directory")
      then flag ++ codes "d"
      else []

  -- What stands in front of the clause.
  abbrev pub find_front : Bytes → Bytes → Bytes → ℤ → Bytes
  find_front pattern search_dir file_type max_depth =
      codes "if command -v fd >/dev/null 2>&1; then fd -H -I -g"
      ++ (depth_flag (codes " --max-depth ") max_depth
          ++ (type_flag (codes " -t ") file_type
              ++ (search_words pattern search_dir
                  ++ (codes " 2>/dev/null; else find "
                      ++ (quote is_print search_dir
                          ++ (depth_flag (codes " -maxdepth ") max_depth
                              ++ (type_flag (codes " -type ") file_type ++ codes " ")))))))

  unfoldable pub find_command : Bytes → Bytes → Bytes → ℤ → Bytes
  unfolding find_clause
  find_command pattern search_dir file_type max_depth =
      find_front pattern search_dir file_type max_depth
      ++ (find_clause pattern ++ codes " 2>/dev/null; fi | head -n 100")

-- What the tools answer, from the output of the command.
unfoldable pub search_reply : Bytes → Bytes → Bytes → Bytes → ToolResult ⊥
unfolding trim_space
search_reply failed no_match stdout stderr =
    let out_text = trim_space stdout in
    let err_text = trim_space stderr in
    if not (eqb out_text [])
    then text out_text
    else if not (eqb err_text [])
    then error (failed ++ err_text)
    else text no_match
