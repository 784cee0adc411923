-- ===== src/Tools/Search/Injection.antt =====
-- What a search command holds of the pattern it was asked for.
use mcp_ssh_workspace.Common.{
  ℕ, ◌≡◌, sym, ap, ◌∙◌, Bool, false, List, [], ◌∷◌, ◌++◌, append_assoc, Bytes, codes, All,
}
use mcp_ssh_workspace.Common.Int.{ℤ}
use mcp_ssh_workspace.Text.Quote.{quote, IsPlain, quote_plain}
use mcp_ssh_workspace.Tools.Search.{
  contains_any, globs, grep_flags, grep_command, find_clause, find_front, find_command,
}

regroup :
    (query search_path : Bytes)
    → (query ++ codes "\" \"") ++ (search_path ++ codes "\"")
      ≡ (query ++ b'"' ∷ []) ++ (b' ' ∷ b'"' ∷ search_path ++ b'"' ∷ [])
regroup query search_path =
    append_assoc query (codes "\" \"") (search_path ++ codes "\"")
    ∙ sym (append_assoc query (b'"' ∷ []) (b' ' ∷ b'"' ∷ search_path ++ b'"' ∷ []))

module _ (is_print : ℕ → Bool) where
  -- A pattern without wildcards stands in the command of `remote_find_by_name` a second time, between
  -- double quotes and unescaped, whatever characters it holds.
  pub find_holds_pattern :
      (pattern search_dir file_type : Bytes) (max_depth : ℤ)
      → contains_any pattern (codes "*?[") ≡ false
      → find_command is_print pattern search_dir file_type max_depth
        ≡ find_front is_print pattern search_dir file_type max_depth
          ++ (codes "\\( -name "
              ++ (quote is_print pattern
                  ++ (codes " -o -name \"*"
                      ++ (pattern ++ codes "*\" \\) 2>/dev/null; fi | head -n 100"))))
  unfolding find_command find_clause
  find_holds_pattern pattern search_dir file_type max_depth plain =
      let q = quote is_print pattern in
      let tail = codes " 2>/dev/null; fi | head -n 100" in
      rw plain (
        ap
          (λ r.
            find_front is_print pattern search_dir file_type max_depth ++ (codes "\\( -name " ++ r))
          (append_assoc q (codes " -o -name \"*" ++ (pattern ++ codes "*\" \\)")) tail
            ∙ ap (λ r. q ++ (codes " -o -name \"*" ++ r))
                (append_assoc pattern (codes "*\" \\)") tail)))

  -- Plain words stand in the command of `remote_grep_search` between double quotes as they are, with
  -- the dollar signs and backticks that a shell expands there; both searches get the same words.
  pub grep_holds_words :
      (query search_path : Bytes) (is_regex case_insensitive : Bool) (includes : List Bytes)
      → All IsPlain query
      → All IsPlain search_path
      → let words = (codes " \"" ++ query ++ codes "\" \"") ++ (search_path ++ codes "\"") in
        grep_command is_print query search_path is_regex case_insensitive includes
        ≡ codes "if command -v rg >/dev/null 2>&1; then rg --hidden --max-columns 500 -n"
          ++ (grep_flags is_print is_regex case_insensitive
              ++ (globs is_print (codes " --glob ") includes
                  ++ (words
                      ++ (codes "; else grep -rn"
                          ++ (grep_flags is_print is_regex case_insensitive
                              ++ (globs is_print (codes " --include=") includes
                                  ++ (words ++ codes "; fi | head -n 100")))))))
  unfolding grep_command
  grep_holds_words query search_path is_regex case_insensitive includes hq hp =
      ap
        (λ words.
          codes "if command -v rg >/dev/null 2>&1; then rg --hidden --max-columns 500 -n"
          ++ (grep_flags is_print is_regex case_insensitive
              ++ (globs is_print (codes " --glob ") includes
                  ++ (words
                      ++ (codes "; else grep -rn"
                          ++ (grep_flags is_print is_regex case_insensitive
                              ++ (globs is_print (codes " --include=") includes
                                  ++ (words ++ codes "; fi | head -n 100"))))))))
        (ap (λ q. b' ' ∷ (q ++ (b' ' ∷ quote is_print search_path))) (quote_plain is_print query hq)
          ∙ ap (λ q. b' ' ∷ ((b'"' ∷ query ++ b'"' ∷ []) ++ (b' ' ∷ q)))
              (quote_plain is_print search_path hp)
          ∙ ap (λ r. b' ' ∷ b'"' ∷ r) (sym (regroup query search_path)))
