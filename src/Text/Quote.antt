-- ===== src/Text/Quote.antt =====
-- `%q` of package `fmt`, which is `strconv.Quote`.
use mcp_ssh_workspace.Common.{
  ℕ, zero, suc, ◌+◌, ◌-◌, ◌/◌, ◌%◌, ◌≤◌, ◌<◌, ◌≡◌, ◌≢◌, refl, ap, ◌∙◌, Bool, ◌&&◌, ◌||◌, [], ◌∷◌,
  ◌++◌, arith, Bytes, codes, ◌==◌, ltb, leb, if◌then◌else◌, take, All, All-append, All-take, IsByte,
  Bool-cases, inl, inr,
}
use mcp_ssh_workspace.Text.Utf8.{rune_width, follows, rune_value, rune_width_ascii}

abbrev hex_digit : ℕ → ℕ
hex_digit n = if ltb n 10 then b'0' + n else b'a' + (n - 10)

-- `n` digits of `v` in base 16
abbrev hex : ℕ → ℕ → Bytes
hex zero v = []
hex (suc n) v = hex n (v / 16) ++ hex_digit (v % 16) ∷ []

quote_ascii : ℕ → Bytes
quote_ascii c =
    if c == b'"' || c == b'\\'
    then b'\\' ∷ c ∷ []
    else if leb 0x20 c && ltb c 0x7f
    then c ∷ []
    else if c == 7
    then codes "\\a"
    else if c == 8
    then codes "\\b"
    else if c == 12
    then codes "\\f"
    else if c == 10
    then codes "\\n"
    else if c == 13
    then codes "\\r"
    else if c == 9
    then codes "\\t"
    else if c == 11
    then codes "\\v"
    else codes "\\x" ++ hex 2 c

-- `unicode.IsPrint`, a table of the standard library, is a parameter beyond ASCII.
module _ (is_print : ℕ → Bool) where
  quote_rune : ℕ → ℕ → Bytes → Bytes
  quote_rune w c s =
      if w == 1
      then quote_ascii c
      else if is_print (rune_value w c s)
      then take w (c ∷ s)
      else if ltb 0xffff (rune_value w c s)
      then codes "\\U" ++ hex 8 (rune_value w c s)
      else codes "\\u" ++ hex 4 (rune_value w c s)

  -- The first argument is how many bytes of the current character are still to pass.
  quote_from : ℕ → Bytes → Bytes
  quote_from k [] = []
  quote_from (suc k) (c ∷ s) = quote_from k s
  quote_from zero (c ∷ s) = let w = rune_width c s in quote_rune w c s ++ quote_from (w - 1) s

  unfoldable pub quote : Bytes → Bytes
  unfolding quote_from quote_rune quote_ascii rune_width follows rune_value
  quote s = b'"' ∷ quote_from 0 s ++ b'"' ∷ []

-- Printable ASCII but for the quote and the backslash. The dollar sign and the backtick are such.
abbrev pub IsPlain : ℕ → Type 0
IsPlain c = (0x20 ≤ c) × (c < 0x7f) × (c ≢ b'"') × (c ≢ b'\\')

quote_ascii_plain : (c : ℕ) → IsPlain c → quote_ascii c ≡ c ∷ []
unfolding quote_ascii
quote_ascii_plain c h = ground arith

module _ (is_print : ℕ → Bool) where
  quote_from_plain : (s : Bytes) → All IsPlain s → quote_from is_print 0 s ≡ s
  quote_from_plain [] _ = unfold quote_from in refl
  quote_from_plain (c ∷ s) (hc, hs) =
      quote_step c s (rune_width_ascii c s (omega arith)) (quote_ascii_plain c hc)
      ∙ ap (λ r. c ∷ r) (quote_from_plain s hs)
    where
      quote_step :
          (c : ℕ) (s : Bytes)
          → rune_width c s ≡ 1
          → quote_ascii c ≡ c ∷ []
          → quote_from is_print 0 (c ∷ s) ≡ c ∷ quote_from is_print 0 s
      quote_step c s e q = unfold quote_from in unfold quote_rune in rw (e, q)

  -- Plain text is put between quotes as it is.
  pub quote_plain : (s : Bytes) → All IsPlain s → quote is_print s ≡ b'"' ∷ s ++ b'"' ∷ []
  quote_plain s h = unfold quote in ap (λ r. b'"' ∷ r ++ b'"' ∷ []) (quote_from_plain s h)

hex-IsByte : (n v : ℕ) → All IsByte (hex n v)
hex-IsByte zero v = tt
hex-IsByte (suc n) v =
    All-append IsByte (hex n (v / 16)) (hex_digit (v % 16) ∷ []) (hex-IsByte n (v / 16))
      (ground arith)

quote_ascii-IsByte : (c : ℕ) → IsByte c → All IsByte (quote_ascii c)
unfolding quote_ascii
quote_ascii-IsByte c h = ground arith

module _ (is_print : ℕ → Bool) where
  quote_rune-IsByte :
      (w c : ℕ) (s : Bytes) → All IsByte (c ∷ s) → All IsByte (quote_rune is_print w c s)
  unfolding quote_rune
  quote_rune-IsByte w c s h = elim (Bool-cases (w == 1)) [
    | inl e ↦ rw e (quote_ascii-IsByte c h.0)
    | inr e ↦ rw e (elim (Bool-cases (is_print (rune_value w c s))) [
      | inl p ↦ rw p (All-take IsByte w (c ∷ s) h)
      | inr p ↦ rw p (elim (Bool-cases (ltb 0xffff (rune_value w c s))) [
        | inl q ↦ rw q (omega arith, (omega arith, hex-IsByte 8 (rune_value w c s)))
        | inr q ↦ rw q (omega arith, (omega arith, hex-IsByte 4 (rune_value w c s)))
      ])
    ])
  ]

  quote_from-IsByte : (k : ℕ) (s : Bytes) → All IsByte s → All IsByte (quote_from is_print k s)
  unfolding quote_from
  quote_from-IsByte k [] h = tt
  quote_from-IsByte (suc k) (c ∷ s) h = quote_from-IsByte k s h.1
  quote_from-IsByte zero (c ∷ s) h =
      All-append IsByte (quote_rune is_print (rune_width c s) c s) _
        (quote_rune-IsByte (rune_width c s) c s h) (quote_from-IsByte (rune_width c s - 1) s h.1)

  -- Quoting makes bytes out of bytes.
  pub quote-IsByte : (s : Bytes) → All IsByte s → All IsByte (quote is_print s)
  quote-IsByte s h =
      unfold quote in
      (
        omega arith,
        All-append IsByte (quote_from is_print 0 s) (b'"' ∷ []) (quote_from-IsByte 0 s h)
            (omega arith),
      )
