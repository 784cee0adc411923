-- ===== src/Tasks/Tail.antt =====
-- `tailLines`: what it leaves out are whole lines at the front.
use mcp_ssh_workspace.Common.{
  ℕ, zero, suc, ◌-◌, ◌≤◌, ◌<◌, ◌≡◌, sym, ap, ◌∙◌, true, false, List, [], ◌∷◌, ◌++◌, Bytes, eqb, leb,
  length, take, drop, take-append-drop, length-drop, All, arith, Bool-cases, inl, inr, eqb_iff,
}
use mcp_ssh_workspace.Text.Search.{newline, split_on, join_on}
use mcp_ssh_workspace.Text.Search.Laws.{Lacks, join-split, split-Lacks}
use mcp_ssh_workspace.Text.Lines.{unlines, newlines, join_some, unlines-append, newlines-unlines}
use mcp_ssh_workspace.Text.Trim.{trim_newlines}
use mcp_ssh_workspace.Tasks.{tail_lines}

-- The lines of an output, its trailing newlines aside.
abbrev pub lines_of : Bytes → List Bytes
lines_of s = split_on newline (trim_newlines s)

All-drop : (n : ℕ) (ls : List Bytes) → All (Lacks newline) ls → All (Lacks newline) (drop n ls)
All-drop zero ls h = h
All-drop (suc n) [] h = tt
All-drop (suc n) (l ∷ ls) h = All-drop n ls h.1

lines-nil : (s : Bytes) → s ≡ [] → length (lines_of s) ≡ 1
unfolding trim_newlines split_on
lines-nil s e = rw e

module _ (s : Bytes) (n : ℕ) (some_line : 0 < n) (more : n < length (lines_of s)) where
  cut : ℕ
  cut = length (lines_of s) - n

  not_empty : eqb s [] ≡ false
  not_empty = elim (Bool-cases (eqb s [])) [
    | inl e ↦ absurd (omega (arith, lines-nil s ((eqb_iff s []).0 e)))
    | inr e ↦ e
  ]

  not_all : leb (length (lines_of s)) n ≡ false
  not_all = ground arith

  tail_cut : tail_lines s n ≡ join_on newline (drop cut (lines_of s)) ++ newline ∷ []
  unfolding tail_lines cut
  tail_cut = rw (not_empty, not_all)

  kept : length (drop cut (lines_of s)) ≡ n
  unfolding cut
  kept = omega (arith, length-drop (length (lines_of s) - n) (lines_of s))

  tail-unlines : tail_lines s n ≡ unlines (drop cut (lines_of s))
  tail-unlines = tail_cut ∙ join_some (drop cut (lines_of s)) (omega (arith, kept))

  -- Of an output with more lines than are asked for, exactly the asked number of lines is shown,
  -- and they are its last ones: what stands before them are whole lines.
  pub tail_lines_last :
      (before : List Bytes) × (unlines before ++ tail_lines s n ≡ trim_newlines s ++ newline ∷ [])
      × (newlines (tail_lines s n) ≡ n)
  tail_lines_last = (
    take cut (lines_of s),
    ap (λ r. unlines (take cut (lines_of s)) ++ r) tail-unlines
        ∙ sym (unlines-append (take cut (lines_of s)) (drop cut (lines_of s)))
        ∙ ap unlines (take-append-drop cut (lines_of s))
        ∙ sym (join_some (lines_of s) (omega arith))
        ∙ ap (λ r. r ++ newline ∷ []) (join-split newline (trim_newlines s)),
    ap newlines tail-unlines
        ∙ newlines-unlines (drop cut (lines_of s))
            (All-drop cut (lines_of s) (split-Lacks newline (trim_newlines s)))
        ∙ kept,
  )

-- An output with no more lines than are asked for is shown whole, trailing newlines included.
pub tail_lines_all : (s : Bytes) (n : ℕ) → length (lines_of s) ≤ n → tail_lines s n ≡ s
unfolding tail_lines
tail_lines_all s n h = elim (Bool-cases (eqb s [])) [
  | inl e ↦ rw e (sym ((eqb_iff s []).0 e))
  | inr e ↦ let fits : leb (length (lines_of s)) n ≡ true = ground arith in rw (e, fits)
]
