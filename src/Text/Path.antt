-- ===== src/Text/Path.antt =====
-- `Clean`, `Join`, `IsAbs`, `Dir` and `Base` of package `path/filepath`, on a Unix system.
pub mod Laws
use mcp_ssh_workspace.Common.{
  ℕ, ◌≡◌, refl, Bool, true, false, ◌||◌, Option, none, some, List, [], ◌∷◌, ◌++◌, reverse, Bytes,
  codes, eqb, ◌==◌, if◌then◌else◌,
}
use mcp_ssh_workspace.Text.Search.{has_prefix, split_on, join_on}

abbrev pub slash : ℕ
slash = b'/'

abbrev pub dot : Bytes
dot = b'.' ∷ []

abbrev pub dot_dot : Bytes
dot_dot = b'.' ∷ b'.' ∷ []

-- IsAbs(p)
unfoldable pub is_abs : Bytes → Bool
is_abs [] = false
is_abs (c ∷ s) = c == slash

-- `..` takes the last name off; there is nothing above the root.
parent : Bool → List Bytes → List Bytes
parent rooted [] = if rooted then [] else dot_dot ∷ []
parent rooted (name ∷ names) = if eqb name dot_dot then dot_dot ∷ name ∷ names else names

-- The names so far stand in reverse.
enter : Bool → List Bytes → Bytes → List Bytes
enter rooted names part =
    if eqb part [] || eqb part dot
    then names
    else if eqb part dot_dot
    then parent rooted names
    else part ∷ names

walk : Bool → List Bytes → List Bytes → List Bytes
walk rooted names [] = names
walk rooted names (part ∷ parts) = walk rooted (enter rooted names part) parts

abbrev or_dot : Bytes → Bytes
or_dot [] = dot
or_dot (c ∷ s) = c ∷ s

-- Clean(p)
unfoldable pub clean : Bytes → Bytes
unfolding walk enter parent eqb is_abs split_on join_on
clean p =
    let names = join_on slash (reverse (walk (is_abs p) [] (split_on slash p))) in
    if is_abs p then slash ∷ names else or_dot names

-- Join(a, b)
unfoldable pub join : Bytes → Bytes → Bytes
unfolding clean
join [] [] = []
join [] (c ∷ s) = clean (c ∷ s)
join (c ∷ s) b = clean ((c ∷ s) ++ slash ∷ b)

-- What stands up to the last slash, and what stands behind it.
up_to_slash : Bytes → Bytes
up_to_slash [] = []
up_to_slash (c ∷ s) =
    let rest = up_to_slash s in
    elim rest [ [] ↦ if c == slash then c ∷ [] else [] | d ∷ t ↦ c ∷ d ∷ t ]

-- Dir(p)
unfoldable pub dir : Bytes → Bytes
unfolding clean up_to_slash
dir p = clean (up_to_slash p)

last_name : Bytes → List Bytes → Bytes
last_name name [] = name
last_name name (part ∷ parts) = last_name (if eqb part [] then name else part) parts

-- Base(p): trailing slashes do not count.
unfoldable pub base : Bytes → Bytes
unfolding last_name eqb split_on
base [] = dot
base (c ∷ s) =
    let name = last_name [] (split_on slash (c ∷ s)) in if eqb name [] then slash ∷ [] else name

clean_runs : clean (codes "/a//b/../c/./") ≡ codes "/a/c"
unfolding clean
clean_runs = refl

clean_relative : clean (codes "a/../../b/..") ≡ codes ".."
unfolding clean
clean_relative = refl

dir-base_runs : dir (codes "/a/b") ++ base (codes "/a/b/") ≡ codes "/ab"
unfolding dir base
dir-base_runs = refl
