-- ===== src/Text/Search.antt =====
-- `HasPrefix`, `Index`, `LastIndex`, `Contains`, `SplitN(s, sep, 2)`, `Split` and `Join`
-- of package `strings`.
pub mod Laws
use mcp_ssh_workspace.Common.{
  ℕ, suc, ◌+◌, Bool, true, false, ◌&&◌, Option, none, some, List, [], ◌∷◌, ◌++◌, Bytes, ◌==◌,
  if◌then◌else◌, length, take, drop,
}

unfoldable pub has_prefix : Bytes → Bytes → Bool
has_prefix s [] = true
has_prefix [] (y ∷ ys) = false
has_prefix (x ∷ xs) (y ∷ ys) = x == y && has_prefix xs ys

abbrev shift : Option ℕ → Option ℕ
shift none = none
shift (some i) = some (suc i)

-- The first place where `sep` stands in `s`.
unfoldable pub index : Bytes → Bytes → Option ℕ
unfolding has_prefix
index [] sep = if has_prefix [] sep then some 0 else none
index (x ∷ xs) sep = if has_prefix (x ∷ xs) sep then some 0 else shift (index xs sep)

abbrev or_here : Bool → Option ℕ → Option ℕ
or_here here (some i) = some (suc i)
or_here true none = some 0
or_here false none = none

-- The last place.
unfoldable pub last_index : Bytes → Bytes → Option ℕ
unfolding has_prefix
last_index [] sep = if has_prefix [] sep then some 0 else none
last_index (x ∷ xs) sep = or_here (has_prefix (x ∷ xs) sep) (last_index xs sep)

-- SplitN(s, sep, 2)
unfoldable pub split_n2 : Bytes → Bytes → List Bytes
unfolding index
split_n2 s sep = elim (index s sep) [
  | none ↦ s ∷ []
  | some i ↦ take i s ∷ drop (i + length sep) s ∷ []
]

abbrev pub newline : ℕ
newline = 10

abbrev pub cons_head : ℕ → List Bytes → List Bytes
cons_head c [] = (c ∷ []) ∷ []
cons_head c (l ∷ ls) = (c ∷ l) ∷ ls

-- Split(s, sep), for a separator of one byte
unfoldable pub split_on : ℕ → Bytes → List Bytes
split_on sep [] = [] ∷ []
split_on sep (c ∷ s) = let rest = split_on sep s in if c == sep then [] ∷ rest else cons_head c rest

abbrev pub glue_on : ℕ → List Bytes → Bytes
glue_on sep [] = []
glue_on sep (l ∷ ls) = sep ∷ (l ++ glue_on sep ls)

-- Join(parts, sep)
unfoldable pub join_on : ℕ → List Bytes → Bytes
join_on sep [] = []
join_on sep (l ∷ ls) = l ++ glue_on sep ls
