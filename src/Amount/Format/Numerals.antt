-- ===== src/Amount/Format/Numerals.antt =====
-- The characters of a printed amount.
use libbtcwallet.Base.{
  ℕ, ◌≤◌, ◌≡◌, refl, arith, [], ◌∷◌, Bytes, All, All-map, All-append, to_ascii_uppercase, to_upper,
  Bool-cases, inl, inr, ◌==◌, ◌/◌, ◌%◌,
}
use libbtcwallet.Amount.{Amount, sats_rounding_up}
use libbtcwallet.Amount.Format.{decimal, sats_per_btc, btc_decimal_rounding_up_to_sats}
use libbtcwallet.Amount.Format.Loop.{IsDigit, decimal_digits}
use libbtcwallet.Amount.Format.RoundTrip.{fraction_lem}

-- A digit or a decimal point.
abbrev pub IsNumeral : ℕ → Type 0
IsNumeral c = (46 ≤ c) × (c ≤ 57)

IsDigit-IsNumeral : (s : Bytes) → All IsDigit s → All IsNumeral s
IsDigit-IsNumeral = All-map (λ c h. omega arith)

pub btc_decimal_numerals : (a : Amount) → All IsNumeral (btc_decimal_rounding_up_to_sats a)
unfolding btc_decimal_rounding_up_to_sats
btc_decimal_numerals a =
    let n = sats_rounding_up a in
    let whole =
      IsDigit-IsNumeral (decimal (n / sats_per_btc)) (decimal_digits (n / sats_per_btc)) in
    elim (Bool-cases (n % sats_per_btc == 0)) [
      | inl e ↦ rw e (All-append IsNumeral (decimal (n / sats_per_btc)) [] whole tt)
      | inr e ↦
          let (part, is_part, f) = fraction_lem (n % sats_per_btc) (ground arith) (omega arith) in
          rw (e, is_part)
            (All-append IsNumeral (decimal (n / sats_per_btc)) (b'.' ∷ part) whole
              ((omega arith, omega arith), IsDigit-IsNumeral part f.digits))
    ]

pub to_ascii_uppercase-IsNumeral : (s : Bytes) → All IsNumeral s → to_ascii_uppercase s ≡ s
unfolding to_ascii_uppercase to_upper
to_ascii_uppercase-IsNumeral [] h = refl
to_ascii_uppercase-IsNumeral (c ∷ s) (hc, hs) = ground (arith, to_ascii_uppercase-IsNumeral s hs)
