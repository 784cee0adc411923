-- ===== src/Text/Decimal.antt =====
-- `%d`, and the reading of digits by `fmt.Sscanf` and `strconv.Atoi`.
use mcp_ssh_workspace.Common.{
  ℕ, zero, suc, ◌+◌, ◌-◌, ◌*◌, ◌/◌, ◌%◌, ◌≤◌, ◌<◌, ◌≡◌, refl, sym, ◌∙◌, Bool, true, false, ◌&&◌, [],
  ◌∷◌, arith, Bytes, ◌^◌, ltb, leb, lt→ltb, ◌^◌, ◌<◌, if◌then◌else◌, All,
}
use mcp_ssh_workspace.Common.Int.{ℤ, pos, negsuc}

digits : ℕ → ℕ → Bytes → Bytes
digits zero n acc = (b'0' + n % 10) ∷ acc
digits (suc fuel) n acc =
    let rest = digits fuel (n / 10) ((b'0' + n % 10) ∷ acc) in
    if ltb n 10 then (b'0' + n) ∷ acc else rest

-- `%d` of a number that is not negative. A number is never shorter than its quotient by ten, so
-- the number itself is fuel enough.
unfoldable pub format : ℕ → Bytes
unfolding digits
format n = digits n n []

-- `%d` of an `int64`, which is given by its bit pattern.
unfoldable pub format_int64 : ℕ → Bytes
unfolding format
format_int64 bits =
    if ltb bits (2 ^ 63) then format bits else b'-' ∷ format (2 ^ 64 - bits % 2 ^ 64)

-- `%d` of an `int`
unfoldable pub format_int : ℤ → Bytes
format_int (pos n) = format n
format_int (negsuc n) = b'-' ∷ format (n + 1)

pub format_int64_pos : (n : ℕ) → n < 2 ^ 63 → format_int64 n ≡ format n
format_int64_pos n h = unfold format_int64 in rw (lt→ltb n (2 ^ 63) h)

abbrev pub IsDigit : ℕ → Type 0
IsDigit c = (b'0' ≤ c) × (c ≤ b'9')

abbrev pub is_digit : ℕ → Bool
is_digit c = leb b'0' c && leb c b'9'

-- The number that digits spell behind `n`.
unfoldable pub value : ℕ → Bytes → ℕ
value n [] = n
value n (c ∷ s) = value (n * 10 + (c - b'0')) s

digits-value : (fuel n : ℕ) (acc : Bytes) → n ≤ fuel → value 0 (digits fuel n acc) ≡ value n acc
unfolding digits value
digits-value zero n acc h = ground arith
digits-value (suc fuel) n acc h = ground (arith, digits-value fuel (n / 10) ((b'0' + n % 10) ∷ acc))

pub value-format : (n : ℕ) → value 0 (format n) ≡ n
unfolding format
value-format n = unfold value in digits-value n n [] (omega arith)

digits-IsDigit : (fuel n : ℕ) (acc : Bytes) → All IsDigit acc → All IsDigit (digits fuel n acc)
unfolding digits
digits-IsDigit zero n acc h = ground arith
digits-IsDigit (suc fuel) n acc h =
    ground (arith, digits-IsDigit fuel (n / 10) ((b'0' + n % 10) ∷ acc))

pub format-IsDigit : (n : ℕ) → All IsDigit (format n)
unfolding format
format-IsDigit n = digits-IsDigit n n [] tt

digits-cons : (fuel n : ℕ) (acc : Bytes) → (c : ℕ) × (s : Bytes) × (digits fuel n acc ≡ c ∷ s)
unfolding digits
digits-cons zero n acc = (_, _, refl)
digits-cons (suc fuel) n acc =
    elim (ltb n 10)
      as (λ b.
        (c : ℕ) × (s : Bytes) × ((if b
            then (b'0' + n) ∷ acc
            else digits fuel (n / 10) ((b'0' + n % 10) ∷ acc))
          ≡ c ∷ s)) [
            | true ↦ (_, _, refl)
            | false ↦ digits-cons fuel (n / 10) ((b'0' + n % 10) ∷ acc)
          ]

-- A number has at least one digit.
pub format-cons : (n : ℕ) → (c : ℕ) × (s : Bytes) × (format n ≡ c ∷ s)
unfolding format
format-cons n = digits-cons n n []

-- Two numbers that print alike are equal.
pub format-injective : (m n : ℕ) → format m ≡ format n → m ≡ n
format-injective m n h = cc (value-format m, value-format n)

format_runs : format 1024 ≡ b'1' ∷ b'0' ∷ b'2' ∷ b'4' ∷ []
unfolding format
format_runs = refl

-- Below 2^63 no two counters print alike.
pub format_int64-injective :
    (m n : ℕ) → m < 2 ^ 63 → n < 2 ^ 63 → format_int64 m ≡ format_int64 n → m ≡ n
format_int64-injective m n hm hn e =
    format-injective m n (sym (format_int64_pos m hm) ∙ e ∙ format_int64_pos n hn)
