-- ===== src/Config/Argument.antt =====
-- `user@host` on the command line.
use mcp_ssh_workspace.Common.{
  ◌≡◌, refl, true, none, List, [], ◌∷◌, ◌++◌, Bytes, codes, eqb, if◌then◌else◌, arith,
}
use mcp_ssh_workspace.Text.Search.{has_prefix, index}
use mcp_ssh_workspace.Text.Search.Laws.{Lacks, index-skip, split_n2-append}
use mcp_ssh_workspace.Config.{Config, from_argument}

Lacks-at : (s : Bytes) → Lacks b'@' s → index s (codes "@") ≡ none
unfolding index has_prefix
Lacks-at [] _ = refl
Lacks-at (c ∷ s) (hc, hs) = ground (arith, Lacks-at s hs)

-- The first argument that is no flag names the host. In `user@host`, cut at the first `@`, it also
-- names the user, if none was set before; an argument without `@` is the host as a whole, and
-- leaves the user alone.
pub argument_cases :
    (cfg : Config) (user host : Bytes) (args : List Bytes)
    → Lacks b'@' user
    → (from_argument cfg ((user ++ b'@' ∷ host) ∷ args)
        ≡ record cfg { user = if eqb cfg.user [] then user else cfg.user; host = host })
      × (from_argument cfg (user ∷ args) ≡ record cfg { host = user })
unfolding from_argument has_prefix
argument_cases cfg user host args lacks = (
  rw
      (
        index-skip user (b'@' ∷ host) b'@' [] lacks (at_first host),
        split_n2-append user host b'@' [] lacks,
      )
      refl,
  rw (Lacks-at user lacks) refl,
)
  where
    at_first : (host : Bytes) → has_prefix (b'@' ∷ host) (b'@' ∷ []) ≡ true
    at_first [] = refl
    at_first (c ∷ host) = refl
