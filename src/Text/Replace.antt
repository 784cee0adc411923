-- ===== src/Text/Replace.antt =====
-- `strings.Count`, `Replace` and `ReplaceAll`.
pub mod Pieces
use mcp_ssh_workspace.Common.{
  ℕ, zero, suc, ◌+◌, ◌-◌, Bool, true, false, ◌&&◌, ◌||◌, List, [], ◌∷◌, ◌++◌, Bytes, ◌==◌, leb, ltb,
  if◌then◌else◌, length, eqb,
}
use mcp_ssh_workspace.Text.Utf8.{rune_width, follows}
use mcp_ssh_workspace.Text.Search.{has_prefix}

-- The first argument is how many bytes of the current character, or of the occurrence that was
-- found, are still to pass.
count_runes : ℕ → Bytes → ℕ
unfolding rune_width follows
count_runes k [] = 0
count_runes (suc k) (c ∷ s) = count_runes k s
count_runes zero (c ∷ s) = suc (count_runes (rune_width c s - 1) s)

count_from : Bytes → ℕ → Bytes → ℕ
count_from old k [] = 0
count_from old (suc k) (c ∷ s) = count_from old k s
count_from old zero (c ∷ s) =
    let found = has_prefix (c ∷ s) old in
    let n = count_from old (if found then length old - 1 else 0) s in if found then suc n else n

unfoldable pub count : Bytes → Bytes → ℕ
unfolding count_runes count_from has_prefix
count s [] = suc (count_runes 0 s)
count s (c ∷ old) = count_from (c ∷ old) 0 s

-- With an empty `old`, a copy of `new` goes in front of each of the first `n` characters, and
-- behind the last one if copies are left.
fill_runes : Bytes → ℕ → ℕ → Bytes → Bytes
unfolding rune_width follows
fill_runes new n k [] = if ltb 0 n then new else []
fill_runes new n (suc k) (c ∷ s) = c ∷ fill_runes new n k s
fill_runes new n zero (c ∷ s) =
    (if ltb 0 n then new else []) ++ (c ∷ fill_runes new (n - 1) (rune_width c s - 1) s)

replace_from : Bytes → Bytes → ℕ → ℕ → Bytes → Bytes
replace_from old new n k [] = []
replace_from old new n (suc k) (c ∷ s) = replace_from old new n k s
replace_from old new n zero (c ∷ s) =
    let found = ltb 0 n && has_prefix (c ∷ s) old in
    let rest =
      replace_from old new (if found then n - 1 else n) (if found then length old - 1 else 0) s in
    if found then new ++ rest else c ∷ rest

-- Replace(s, old, new, n), for `0 <= n`
unfoldable pub replace : Bytes → Bytes → Bytes → ℕ → Bytes
unfolding fill_runes replace_from eqb has_prefix
replace s [] new n = if eqb [] new then s else fill_runes new n 0 s
replace s (c ∷ old) new n = if eqb (c ∷ old) new then s else replace_from (c ∷ old) new n 0 s

-- ReplaceAll(s, old, new): the limit -1 stands for the number of occurrences.
unfoldable pub replace_all : Bytes → Bytes → Bytes → Bytes
unfolding replace count
replace_all s old new = replace s old new (count s old)
