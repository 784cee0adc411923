-- ===== src/Text/Utf8.antt =====
-- The decoding of one character by package `unicode/utf8`.
use mcp_ssh_workspace.Common.{
  ℕ, zero, suc, ◌+◌, ◌*◌, ◌%◌, ◌<◌, ◌≡◌, arith, Bool, true, false, ◌&&◌, ◌||◌, [], ◌∷◌, Bytes, ◌==◌,
  leb, if◌then◌else◌,
}

abbrev between : ℕ → ℕ → ℕ → Bool
between lo hi c = leb lo c && leb c hi

continues : ℕ → Bytes → Bool
continues zero s = true
continues (suc n) [] = false
continues (suc n) (c ∷ s) = between 0x80 0xbf c && continues n s

-- The second byte lies between `lo` and `hi`, and `n` more bytes follow it.
unfoldable pub follows : ℕ → ℕ → ℕ → Bytes → Bool
unfolding continues
follows lo hi n [] = false
follows lo hi n (c ∷ s) = between lo hi c && continues n s

-- The width that `utf8.DecodeRune` gives to the character in front; an invalid byte counts as one.
unfoldable pub rune_width : ℕ → Bytes → ℕ
rune_width c s =
    if between 0xc2 0xdf c && follows 0x80 0xbf 0 s
    then 2
    else if c == 0xe0 && follows 0xa0 0xbf 1 s
        || between 0xe1 0xec c && follows 0x80 0xbf 1 s
        || c == 0xed && follows 0x80 0x9f 1 s
        || between 0xee 0xef c && follows 0x80 0xbf 1 s
    then 3
    else if c == 0xf0 && follows 0x90 0xbf 2 s
        || between 0xf1 0xf3 c && follows 0x80 0xbf 2 s
        || c == 0xf4 && follows 0x80 0x8f 2 s
    then 4
    else 1

-- The character that `n` continuation bytes give behind the value `v` of the bits before them.
gather : ℕ → ℕ → Bytes → ℕ
gather zero v s = v
gather (suc n) v [] = v
gather (suc n) v (c ∷ s) = gather n (v * 64 + c % 64) s

-- The character in front, of the width that `rune_width` gives, if that is more than one.
unfoldable pub rune_value : ℕ → ℕ → Bytes → ℕ
unfolding gather
rune_value w c s =
    if w == 2
    then gather 1 (c % 32) s
    else if w == 3
    then gather 2 (c % 16) s
    else gather 3 (c % 8) s

-- A byte below 0x80 is a character by itself.
pub rune_width_ascii : (c : ℕ) (s : Bytes) → c < 0x80 → rune_width c s ≡ 1
unfolding rune_width
rune_width_ascii c s h = ground arith
