-- ===== src/Exec/Markers/RoundTrip.antt =====
-- The result of `parseCommandMarkers` on what the wrapped script prints.
use mcp_ssh_workspace.Common.{
  ℕ, ◌+◌, ◌^◌, ◌<◌, ◌≡◌, ◌≢◌, none, some, [], ◌∷◌, ◌++◌, Bytes, codes, length, drop,
  take-length-append, drop_add-append, All, arith,
}
use mcp_ssh_workspace.Common.Int.{pos}
use mcp_ssh_workspace.Text.Decimal.{format, IsDigit, format-IsDigit}
use mcp_ssh_workspace.Text.Search.{has_prefix, last_index, split_n2, newline}
use mcp_ssh_workspace.Text.Search.Laws.{
  Lacks, last_index-append, last_index-skip, split_n2-append, has_prefix-append,
}
use mcp_ssh_workspace.Text.Scan.{sscanf-format}
use mcp_ssh_workspace.Text.Trim.{trim_space, trim_space-newline}
use mcp_ssh_workspace.Exec.Markers.{mcp_exit, mcp_cwd, parse_command_markers}

-- The last line of the script prints this behind the command's output: the `echo` without the
-- newline, and then `pwd`.
abbrev pub report : ℕ → Bytes → Bytes
report code cwd =
    mcp_exit ++ (codes ":" ++ (format code ++ (codes ":__MCP_CWD__:" ++ (cwd ++ newline ∷ []))))

abbrev pub exit_mark : Bytes
exit_mark = codes "__MCP_EXIT__:"

digits-Lack : (c : ℕ) (s : Bytes) → All IsDigit s → ((d : ℕ) → IsDigit d → d ≢ c) → Lacks c s
digits-Lack c [] _ h = tt
digits-Lack c (d ∷ s) (hd, hs) h = (h d hd, digits-Lack c s hs h)

-- No exit marker begins in what follows the code.
no_mark_in_tail :
    (cwd : Bytes)
    → last_index (cwd ++ newline ∷ []) exit_mark ≡ none
    → last_index (codes ":__MCP_CWD__:" ++ (cwd ++ newline ∷ [])) exit_mark ≡ none
no_mark_in_tail cwd h = unfold last_index has_prefix in rw h

abbrev meta : ℕ → Bytes → Bytes
meta code cwd = format code ++ (codes ":__MCP_CWD__:" ++ (cwd ++ newline ∷ []))

no_mark_behind :
    (code : ℕ) (cwd : Bytes)
    → last_index (cwd ++ newline ∷ []) exit_mark ≡ none
    → last_index (codes "_MCP_EXIT__:" ++ meta code cwd) exit_mark ≡ none
no_mark_behind code cwd h = unfold last_index has_prefix in rw digits
  where
    digits : last_index (meta code cwd) exit_mark ≡ none
    digits =
        last_index-skip (format code) _ b'_' (codes "_MCP_EXIT__:")
          (digits-Lack b'_' (format code) (format-IsDigit code) (λ d h. omega arith))
          (no_mark_in_tail cwd h)

module _ (out : Bytes) (code : ℕ) (cwd : Bytes)
    (no_mark : last_index (cwd ++ newline ∷ []) exit_mark ≡ none) where
  found : last_index (out ++ report code cwd) exit_mark ≡ some (length out)
  found =
      last_index-append out b'_' (codes "_MCP_EXIT__:" ++ meta code cwd) exit_mark
        (has_prefix-append exit_mark (meta code cwd)) (no_mark_behind code cwd no_mark)

  behind : drop (length out + length mcp_exit + 1) (out ++ report code cwd) ≡ meta code cwd
  behind =
      let e : length out + length mcp_exit + 1 ≡ length out + 13 = omega arith in
      rw e (drop_add-append out (report code cwd) 13)

  two_parts :
      split_n2 (meta code cwd) (codes ":__MCP_CWD__:") ≡ format code ∷ (cwd ++ newline ∷ []) ∷ []
  two_parts =
      split_n2-append (format code) (cwd ++ newline ∷ []) b':' (codes "__MCP_CWD__:")
        (digits-Lack b':' (format code) (format-IsDigit code) (λ d h. omega arith))

  -- Whatever the command printed, its output, the directory and the exit code come back apart, if
  -- the code fits an `int`, and the directory holds no exit marker and has no blanks at its ends.
  pub parse-report :
      code < 2 ^ 63
      → trim_space cwd ≡ cwd
      → parse_command_markers (out ++ report code cwd) mcp_exit mcp_cwd ≡ (out, cwd, pos code)
  parse-report fits trimmed =
      unfold parse_command_markers in
      rw (
        found,
        behind,
        two_parts,
        take-length-append out (report code cwd),
        trim_space-newline cwd,
        trimmed,
        sscanf-format code (pos 0) fits,
      )
