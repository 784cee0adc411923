-- ===== src/Text/Base64.antt =====
-- `base64.StdEncoding.EncodeToString`, and the decoder of RFC 4648 that undoes it.
pub mod RoundTrip
use mcp_ssh_workspace.Common.{
  ℕ, ◌+◌, ◌-◌, ◌*◌, ◌/◌, ◌%◌, ◌≡◌, refl, Option, none, some, List, [], ◌∷◌, ◌++◌, Bytes, codes,
  ◌==◌, ltb, leb, ◌&&◌, if◌then◌else◌,
}

unfoldable pub letter : ℕ → ℕ
letter n =
    if ltb n 26
    then b'A' + n
    else if ltb n 52
    then b'a' + (n - 26)
    else if ltb n 62
    then b'0' + (n - 52)
    else if n == 62
    then b'+'
    else b'/'

abbrev pub pad : ℕ
pad = b'='

unfoldable pub encode : Bytes → Bytes
encode [] = []
encode (a ∷ []) = letter (a / 4) ∷ letter (a % 4 * 16) ∷ pad ∷ pad ∷ []
encode (a ∷ b ∷ []) = letter (a / 4) ∷ letter (a % 4 * 16 + b / 16) ∷ letter (b % 16 * 4) ∷ pad ∷ []
encode (a ∷ b ∷ c ∷ s) =
    letter (a / 4)
    ∷ letter (a % 4 * 16 + b / 16)
    ∷ letter (b % 16 * 4 + c / 64)
    ∷ letter (c % 64)
    ∷ encode s

-- The number of a letter, 64 for the padding, and 65 for any other byte.
unfoldable pub number : ℕ → ℕ
number c =
    if leb b'A' c && leb c b'Z'
    then c - b'A'
    else if leb b'a' c && leb c b'z'
    then c - b'a' + 26
    else if leb b'0' c && leb c b'9'
    then c - b'0' + 52
    else if c == b'+'
    then 62
    else if c == b'/'
    then 63
    else if c == pad
    then 64
    else 65

abbrev pub prepend : Bytes → Option Bytes → Option Bytes
prepend p none = none
prepend p (some s) = some (p ++ s)

-- Four letters, of which the last two may be padding at the end.
unfoldable pub group : ℕ → ℕ → ℕ → ℕ → Bytes → Option Bytes → Option Bytes
group w x y z rest decoded =
    if ltb w 64 && ltb x 64 && ltb y 64 && ltb z 64
    then prepend ((w * 4 + x / 16) ∷ (x % 16 * 16 + y / 4) ∷ (y % 4 * 64 + z) ∷ []) decoded
    else elim rest [
      | [] ↦
          if ltb w 64 && ltb x 64 && ltb y 64 && z == 64
          then some ((w * 4 + x / 16) ∷ (x % 16 * 16 + y / 4) ∷ [])
          else if ltb w 64 && ltb x 64 && y == 64 && z == 64
          then some ((w * 4 + x / 16) ∷ [])
          else none
      | c ∷ s ↦ none
    ]

unfoldable pub decode : Bytes → Option Bytes
decode [] = some []
decode (a ∷ b ∷ c ∷ d ∷ s) = group (number a) (number b) (number c) (number d) s (decode s)
decode _ = none

encode_runs : encode (codes "hello") ≡ codes "aGVsbG8="
unfolding encode letter
encode_runs = refl

decode_runs : decode (codes "aGVsbG8=") ≡ some (codes "hello")
unfolding decode number group
decode_runs = refl
