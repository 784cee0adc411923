-- ===== src/Text/Trim.antt =====
-- `strings.TrimSpace`, `strings.TrimRight(s, "\n")` and `strings.TrimPrefix`.
use mcp_ssh_workspace.Common.{
  ℕ, zero, suc, ◌≡◌, refl, ap, map, Option, none, some, List, [], ◌∷◌, ◌++◌, reverse, Bytes, ◌==◌,
  arith, if◌then◌else◌, length, drop, length-append,
}
use mcp_ssh_workspace.Text.Search.{has_prefix, newline}
use mathlib.Core.List.{reverse-append}

-- The encodings of the characters that `unicode.IsSpace` accepts, but for the newline.
abbrev pub blanks : List Bytes
blanks =
    (9 ∷ [])
    ∷ (11 ∷ [])
    ∷ (12 ∷ [])
    ∷ (13 ∷ [])
    ∷ (32 ∷ [])
    ∷ (0xc2 ∷ 0x85 ∷ [])
    ∷ (0xc2 ∷ 0xa0 ∷ [])
    ∷ (0xe1 ∷ 0x9a ∷ 0x80 ∷ [])
    ∷ (0xe2 ∷ 0x80 ∷ 0x80 ∷ [])
    ∷ (0xe2 ∷ 0x80 ∷ 0x81 ∷ [])
    ∷ (0xe2 ∷ 0x80 ∷ 0x82 ∷ [])
    ∷ (0xe2 ∷ 0x80 ∷ 0x83 ∷ [])
    ∷ (0xe2 ∷ 0x80 ∷ 0x84 ∷ [])
    ∷ (0xe2 ∷ 0x80 ∷ 0x85 ∷ [])
    ∷ (0xe2 ∷ 0x80 ∷ 0x86 ∷ [])
    ∷ (0xe2 ∷ 0x80 ∷ 0x87 ∷ [])
    ∷ (0xe2 ∷ 0x80 ∷ 0x88 ∷ [])
    ∷ (0xe2 ∷ 0x80 ∷ 0x89 ∷ [])
    ∷ (0xe2 ∷ 0x80 ∷ 0x8a ∷ [])
    ∷ (0xe2 ∷ 0x80 ∷ 0xa8 ∷ [])
    ∷ (0xe2 ∷ 0x80 ∷ 0xa9 ∷ [])
    ∷ (0xe2 ∷ 0x80 ∷ 0xaf ∷ [])
    ∷ (0xe2 ∷ 0x81 ∷ 0x9f ∷ [])
    ∷ (0xe3 ∷ 0x80 ∷ 0x80 ∷ [])
    ∷ []

abbrev spaces : List Bytes
spaces = (10 ∷ []) ∷ blanks

-- Takes off the first of the listed texts that stands in front.
unfoldable pub strip_one : List Bytes → Bytes → Option Bytes
unfolding has_prefix
strip_one [] s = none
strip_one (w ∷ ws) s = if has_prefix s w then some (drop (length w) s) else strip_one ws s

-- Each round takes off a byte at least, so the length is fuel enough.
unfoldable pub strip : List Bytes → ℕ → Bytes → Bytes
strip ws zero s = s
strip ws (suc fuel) s = elim (strip_one ws s) [ none ↦ s | some r ↦ strip ws fuel r ]

trim_left : Bytes → Bytes
unfolding strip strip_one
trim_left s = strip spaces (length s) s

trim_right : Bytes → Bytes
unfolding strip strip_one
trim_right s = reverse (strip (map reverse spaces) (length s) (reverse s))

-- An encoding ends in no other one, so the side that is trimmed first makes no difference.
unfoldable pub trim_space : Bytes → Bytes
unfolding trim_left trim_right
trim_space s = trim_left (trim_right s)

-- TrimRight(s, "\n")
drop_newlines : Bytes → Bytes
drop_newlines [] = []
drop_newlines (c ∷ s) = let rest = drop_newlines s in if c == newline then rest else c ∷ s

unfoldable pub trim_newlines : Bytes → Bytes
unfolding drop_newlines
trim_newlines s = reverse (drop_newlines (reverse s))

unfoldable pub trim_prefix : Bytes → Bytes → Bytes
unfolding has_prefix
trim_prefix s p = if has_prefix s p then drop (length p) s else s

strip-newline :
    (n : ℕ) (r : Bytes)
    → strip (map reverse spaces) (suc n) (newline ∷ r) ≡ strip (map reverse spaces) n r
unfolding strip strip_one
strip-newline n r = refl

trim_right-newline : (s : Bytes) → trim_right (s ++ newline ∷ []) ≡ trim_right s
unfolding trim_right
trim_right-newline s =
    let e : length (s ++ newline ∷ []) ≡ suc (length s) =
      omega (arith, length-append s (newline ∷ [])) in
    rw (e, reverse-append s (newline ∷ [])) (ap reverse (strip-newline (length s) (reverse s)))

-- A final newline makes no difference to `TrimSpace`.
pub trim_space-newline : (s : Bytes) → trim_space (s ++ newline ∷ []) ≡ trim_space s
trim_space-newline s = unfold trim_space in rw (trim_right-newline s)

trims : trim_space (32 ∷ 9 ∷ b'a' ∷ 32 ∷ b'b' ∷ 0xc2 ∷ 0xa0 ∷ 10 ∷ []) ≡ b'a' ∷ 32 ∷ b'b' ∷ []
unfolding trim_space
trims = refl
