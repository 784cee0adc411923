-- ===== src/Text/Base64/RoundTrip.antt =====
-- Base64 text holds letters, digits, `+`, `/` and `=` only, and decodes to what was encoded.
use mcp_ssh_workspace.Common.{
  ℕ, ◌+◌, ◌*◌, ◌/◌, ◌%◌, ◌≤◌, ◌<◌, ◌≡◌, refl, Option, some, [], ◌∷◌, Bytes, IsByte, arith, All, ◌⊎◌,
}
use mcp_ssh_workspace.Text.Base64.{letter, pad, encode, number, group, decode}

number-letter : (n : ℕ) → n < 64 → number (letter n) ≡ n
unfolding number letter
number-letter n h = ground arith

group_full :
    (w x y z : ℕ) (s d : Bytes)
    → w < 64
    → x < 64
    → y < 64
    → z < 64
    → group w x y z s (some d)
      ≡ some ((w * 4 + x / 16) ∷ (x % 16 * 16 + y / 4) ∷ (y % 4 * 64 + z) ∷ d)
unfolding group
group_full w x y z s d hw hx hy hz = ground arith

group_two :
    (w x y : ℕ) (d : Option Bytes)
    → w < 64
    → x < 64
    → y < 64
    → group w x y 64 [] d ≡ some ((w * 4 + x / 16) ∷ (x % 16 * 16 + y / 4) ∷ [])
unfolding group
group_two w x y d hw hx hy = ground arith

group_one :
    (w x : ℕ) (d : Option Bytes)
    → w < 64
    → x < 64
    → group w x 64 64 [] d ≡ some ((w * 4 + x / 16) ∷ [])
unfolding group
group_one w x d hw hx = ground arith

number-pad : number pad ≡ 64
unfolding number
number-pad = refl

-- What is encoded is decoded to itself.
pub decode-encode : (s : Bytes) → All IsByte s → decode (encode s) ≡ some s
unfolding decode encode
decode-encode [] _ = refl
decode-encode (a ∷ []) (ha, _) =
    rw
      (
        number-letter (a / 4) (omega arith),
        number-letter (a % 4 * 16) (omega arith),
        number-pad,
        group_one (a / 4) (a % 4 * 16) (some []) (omega arith) (omega arith),
      )
      (ground arith)
decode-encode (a ∷ b ∷ []) (ha, (hb, _)) =
    rw
      (
        number-letter (a / 4) (omega arith),
        number-letter (a % 4 * 16 + b / 16) (omega arith),
        number-letter (b % 16 * 4) (omega arith),
        number-pad,
        group_two (a / 4) (a % 4 * 16 + b / 16) (b % 16 * 4) (some []) (omega arith) (omega arith)
            (omega arith),
      )
      (ground arith)
decode-encode (a ∷ b ∷ c ∷ s) (ha, (hb, (hc, hs))) =
    rw
      (
        number-letter (a / 4) (omega arith),
        number-letter (a % 4 * 16 + b / 16) (omega arith),
        number-letter (b % 16 * 4 + c / 64) (omega arith),
        number-letter (c % 64) (omega arith),
        decode-encode s hs,
        group_full (a / 4) (a % 4 * 16 + b / 16) (b % 16 * 4 + c / 64) (c % 64) (encode s) s
            (omega arith) (omega arith) (omega arith) (omega arith),
      )
      (ground arith)

-- A letter, a digit, `+`, `/` or `=`.
abbrev pub IsBase64 : ℕ → Type 0
IsBase64 c =
    ((b'A' ≤ c) × (c ≤ b'Z'))
    ⊎ ((b'a' ≤ c) × (c ≤ b'z'))
    ⊎ ((b'0' ≤ c) × (c ≤ b'9'))
    ⊎ (c ≡ b'+')
    ⊎ (c ≡ b'/')
    ⊎ (c ≡ pad)

letter-IsBase64 : (n : ℕ) → n < 64 → IsBase64 (letter n)
unfolding letter
letter-IsBase64 n h = ground arith

pub encode-IsBase64 : (s : Bytes) → All IsByte s → All IsBase64 (encode s)
unfolding encode
encode-IsBase64 [] _ = tt
encode-IsBase64 (a ∷ []) (ha, _) =
    let l = letter-IsBase64 (a / 4) (omega arith) in
    let m = letter-IsBase64 (a % 4 * 16) (omega arith) in (l, (m, (omega arith, (omega arith, tt))))
encode-IsBase64 (a ∷ b ∷ []) (ha, (hb, _)) =
    let l = letter-IsBase64 (a / 4) (omega arith) in
    let m = letter-IsBase64 (a % 4 * 16 + b / 16) (omega arith) in
    let n = letter-IsBase64 (b % 16 * 4) (omega arith) in (l, (m, (n, (omega arith, tt))))
encode-IsBase64 (a ∷ b ∷ c ∷ s) (ha, (hb, (hc, hs))) =
    let l = letter-IsBase64 (a / 4) (omega arith) in
    let m = letter-IsBase64 (a % 4 * 16 + b / 16) (omega arith) in
    let n = letter-IsBase64 (b % 16 * 4 + c / 64) (omega arith) in
    let o = letter-IsBase64 (c % 64) (omega arith) in (l, (m, (n, (o, encode-IsBase64 s hs))))
