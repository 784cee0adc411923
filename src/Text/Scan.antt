-- ===== src/Text/Scan.antt =====
-- `fmt.Sscanf(s, "%d", &v)` and `strconv.Atoi`.
use mathlib.Core.Option.{get_or}
use mathlib.Core.Path.{subst}
use mcp_ssh_workspace.Common.{
  ℕ, ◌^◌, ◌<◌, ◌≡◌, ◌≢◌, refl, sym, ap, ◌∙◌, Bool, true, false, ◌&&◌, ◌||◌, Option, none, some,
  List, [], ◌∷◌, arith, Bytes, ◌==◌, ltb, leb, lt→ltb, if◌then◌else◌, length, All,
}
use mcp_ssh_workspace.Common.Int.{ℤ, pos, negate}
use mcp_ssh_workspace.Text.Decimal.{
  format, IsDigit, is_digit, value, value-format, format-IsDigit, format-cons,
}
use mcp_ssh_workspace.Text.Trim.{strip, strip_one, blanks}

-- `fmt.Sscanf` passes over blanks; a line end is an error, which the next byte then shows.
skip_blanks : Bytes → Bytes
skip_blanks s = strip blanks (length s) s

only_digits : Bytes → Bool
only_digits [] = true
only_digits (c ∷ s) = is_digit c && only_digits s

drop_sign : Bytes → Bytes
drop_sign [] = []
drop_sign (c ∷ s) = if c == b'-' || c == b'+' then s else c ∷ s

-- The digits in front.
digits_in_front : Bytes → Bytes
digits_in_front [] = []
digits_in_front (c ∷ s) = if is_digit c then c ∷ digits_in_front s else []

-- The number, if there are digits and it fits an `int64`.
number_of : Bool → Bytes → Option ℤ
unfolding value
number_of negative [] = none
number_of true (c ∷ ds) =
    if leb (value 0 (c ∷ ds)) (2 ^ 63) then some (negate (value 0 (c ∷ ds))) else none
number_of false (c ∷ ds) =
    if ltb (value 0 (c ∷ ds)) (2 ^ 63) then some (pos (value 0 (c ∷ ds))) else none

read_number : Bool → Bytes → Option ℤ
unfolding digits_in_front number_of
read_number negative s = number_of negative (digits_in_front s)

read_signed : Bytes → Option ℤ
read_signed [] = none
read_signed (c ∷ s) =
    if c == b'-'
    then read_number true s
    else if c == b'+'
    then read_number false s
    else read_number false (c ∷ s)

-- Sscanf(s, "%d", &v): blanks in front are passed over, and a failure leaves `v` alone.
unfoldable pub sscanf_d : Bytes → ℤ → ℤ
unfolding read_signed read_number skip_blanks strip strip_one
sscanf_d s v = get_or (read_signed (skip_blanks s)) v

-- strconv.Atoi(s): the whole text is a number.
unfoldable pub atoi : Bytes → Option ℤ
unfolding read_signed read_number only_digits drop_sign
atoi s = if only_digits (drop_sign s) then read_signed s else none

digits_in_front-All : (s : Bytes) → All IsDigit s → digits_in_front s ≡ s
unfolding digits_in_front
digits_in_front-All [] _ = refl
digits_in_front-All (c ∷ s) (hc, hs) = ground (arith, digits_in_front-All s hs)

abbrev BeginsNot : ℕ → Bytes → Type 0
BeginsNot c [] = ⊥
BeginsNot c (d ∷ w) = c ≢ d

strip_one-none :
    (ws : List Bytes) (c : ℕ) (s : Bytes) → All (BeginsNot c) ws → strip_one ws (c ∷ s) ≡ none
unfolding strip_one
strip_one-none [] c s _ = refl
strip_one-none ([] ∷ ws) c s (h, _) = absurd h
strip_one-none ((d ∷ w) ∷ ws) c s (h, hs) = ground (arith, strip_one-none ws c s hs)

skip_blanks_digit : (c : ℕ) (s : Bytes) → IsDigit c → skip_blanks (c ∷ s) ≡ c ∷ s
unfolding skip_blanks
skip_blanks_digit c s h = unfold strip in rw (strip_one-none blanks c s (omega arith), strip)

read-All :
    (c : ℕ) (s : Bytes) (n : ℕ)
    → All IsDigit (c ∷ s)
    → value 0 (c ∷ s) ≡ n
    → n < 2 ^ 63
    → read_number false (c ∷ s) ≡ some (pos n)
read-All c s n h v fits =
    unfold read_number in ap (number_of false) (digits_in_front-All (c ∷ s) h) ∙ number
  where
    number : number_of false (c ∷ s) ≡ some (pos n)
    number = unfold number_of in rw (v, lt→ltb n (2 ^ 63) fits)

read_digits :
    (c : ℕ) (s : Bytes) (n : ℕ)
    → All IsDigit (c ∷ s)
    → value 0 (c ∷ s) ≡ n
    → n < 2 ^ 63
    → read_signed (c ∷ s) ≡ some (pos n)
read_digits c s n h v fits =
    let number = read-All c s n h v fits in unfold read_signed in ground (arith, number)

-- What `%d` printed is read back.
pub sscanf-format : (n : ℕ) (v : ℤ) → n < 2 ^ 63 → sscanf_d (format n) v ≡ pos n
sscanf-format n v h =
    let (c, s, e) = format-cons n in
    let digits = subst (All IsDigit) e (format-IsDigit n) in
    let spelled = ap (value 0) (sym e) ∙ value-format n in
    rw e
      (unfold sscanf_d in rw (skip_blanks_digit c s digits.0, read_digits c s n digits spelled h))
