-- ===== src/Amount/Format/RoundTrip.antt =====
-- The printed amount, read as a decimal number of bitcoin, is the amount in satoshis.
use libbtcwallet.Base.{
  ℕ, ap, ◌+◌, ◌-◌, ◌*◌, ◌/◌, ◌%◌, ◌≤◌, ◌<◌, ◌≡◌, ◌≢◌, refl, arith, [], ◌∷◌, ◌++◌, Bytes, Bool,
  length, All, ◌==◌, leb, inl, inr, Bool-cases, if◌then◌else◌, All-map, Lacks, find_split, ◌&&◌,
  true, find_split-append, find_split-Lacks, Option, none, some, append-nil,
}
use libbtcwallet.Amount.{Amount, sats_rounding_up, max_msats}
use libbtcwallet.Amount.Format.{
  decimal, strip_loop, zero_padded, fraction, sats_per_btc, btc_decimal_rounding_up_to_sats,
}
use libbtcwallet.Amount.Format.Loop.{
  IsDigit, value_from, scale, decimal_value, decimal_digits, zero_padded_lem, strip_loop_lem,
  Stripped,
}

abbrev all_digits : Bytes → Bool
all_digits [] = true
all_digits (c ∷ s) = leb b'0' c && leb c b'9' && all_digits s

abbrev read_fraction : Option (Bytes × Bytes) → Bytes → Option ℕ
read_fraction none s = if all_digits s then some (value_from 0 s * sats_per_btc) else none
read_fraction (some (whole, part)) s =
    if all_digits whole && all_digits part && leb (length part) 8
    then some (value_from 0 whole * sats_per_btc + scale (8 - length part) (value_from 0 part))
    else none

-- A decimal number of bitcoin, with up to eight digits behind the point, in satoshis.
unfoldable pub read_btc : Bytes → Option ℕ
unfolding find_split
read_btc s = read_fraction (find_split b'.' s) s

all_digits_lem : (s : Bytes) → All IsDigit s → all_digits s ≡ true
all_digits_lem [] h = refl
all_digits_lem (c ∷ s) h = ground (arith, all_digits_lem s)

IsDigit-Lacks : (s : Bytes) → All IsDigit s → Lacks b'.' s
IsDigit-Lacks = All-map (λ c h. omega arith)

read_btc-decimal : (n : ℕ) → read_btc (decimal n) ≡ some (n * sats_per_btc)
unfolding read_btc
read_btc-decimal n =
    let digits = decimal_digits n in
    rw (
      find_split-Lacks b'.' (decimal n) (IsDigit-Lacks (decimal n) digits),
      all_digits_lem (decimal n) digits,
      decimal_value n,
    )

read_btc_parts :
    (n : ℕ) (part : Bytes)
    → All IsDigit part
    → length part ≤ 8
    → read_btc (decimal n ++ b'.' ∷ part)
      ≡ some (n * sats_per_btc + scale (8 - length part) (value_from 0 part))
unfolding read_btc
read_btc_parts n part h le =
    let digits = decimal_digits n in
    rw (find_split-append b'.' (decimal n) part (IsDigit-Lacks (decimal n) digits))
      (ground (arith, all_digits_lem (decimal n) digits, all_digits_lem part h, decimal_value n))

-- A fraction that is not 0 is written with one to eight digits, the last of them not 0.
pub record IsFraction (sats : ℕ) (part : Bytes) : Type 0 where
  pub digits : All IsDigit part
  pub short : length part ≤ 8
  pub exact : scale (8 - length part) (value_from 0 part) ≡ sats
  pub last_digit : value_from 0 part % 10 ≢ 0

IsFraction-zero_padded :
    (sats : ℕ) (r : ℕ × ℕ) → Stripped 8 sats r → IsFraction sats (zero_padded r.0 r.1)
IsFraction-zero_padded sats r h =
    let (digits, value, len) = zero_padded_lem r.0 r.1 (omega (arith, h.last_digit)) h.fits in
    record {
      digits = digits;
      short = omega (arith, h.fewer);
      exact = rw (len, value) h.exact;
      last_digit = rw value h.last_digit;
    }

pub fraction_lem :
    (sats : ℕ)
    → 0 < sats
    → sats < sats_per_btc
    → (part : Bytes) × (fraction sats ≡ b'.' ∷ part) × IsFraction sats part
unfolding fraction
fraction_lem sats pos h =
    let r = strip_loop 8 8 sats in
    (
      zero_padded r.0 r.1,
      refl,
      IsFraction-zero_padded sats r (strip_loop_lem 8 8 sats (omega arith) pos h),
    )

-- The amount that is printed is read back as `sats_rounding_up` has it.
pub read_btc-btc_decimal_rounding_up_to_sats :
    (a : Amount) → read_btc (btc_decimal_rounding_up_to_sats a) ≡ some (sats_rounding_up a)
unfolding btc_decimal_rounding_up_to_sats
read_btc-btc_decimal_rounding_up_to_sats a =
    let n = sats_rounding_up a in
    elim (Bool-cases (n % sats_per_btc == 0)) [
      | inl e ↦ rw (e, append-nil, read_btc-decimal) (ap some (ground arith))
      | inr e ↦
          let (part, is_part, f) = fraction_lem (n % sats_per_btc) (ground arith) (omega arith) in
          rw (e, is_part, read_btc_parts (n / sats_per_btc) part f.digits f.short, f.exact)
            (ap some (omega arith))
    ]

-- For every amount of at most 2^64 - 1000 milli-satoshis, the decimal bitcoin text that is printed is
-- read back, by an independent reader, as the least number of satoshis that is not below the amount.
pub read_btc_rounds_up :
    (a : Amount)
    → a + 999 < 18_446_744_073_709_551_616
    → (n : ℕ) × (read_btc (btc_decimal_rounding_up_to_sats a) ≡ some n)
      × (a ≤ n * 1000)
      × (n * 1000 < a + 1000)
unfolding sats_rounding_up
read_btc_rounds_up a h =
    (sats_rounding_up a, read_btc-btc_decimal_rounding_up_to_sats a, omega arith, omega arith)

-- A parser of decimal numbers of bitcoin, in satoshis: a whole number without leading zeros, alone or
-- with a point and up to eight digits behind it, of at most the bitcoin that there are.
pub record ReadsBtc (read : Bytes → Option ℕ) : Type 0 where
  pub whole :
      (n : ℕ) → n * sats_per_btc * 1000 ≤ max_msats → read (decimal n) ≡ some (n * sats_per_btc)
  pub parts :
      (n : ℕ) (part : Bytes)
      → All IsDigit part
      → part ≢ []
      → length part ≤ 8
      → (n * sats_per_btc + scale (8 - length part) (value_from 0 part)) * 1000 ≤ max_msats
      → read (decimal n ++ b'.' ∷ part)
        ≡ some (n * sats_per_btc + scale (8 - length part) (value_from 0 part))

IsFraction-ne : (sats : ℕ) (part : Bytes) → IsFraction sats part → part ≢ []
IsFraction-ne sats part f e =
    let zero_value : value_from 0 part % 10 ≡ 0 = rw e refl in f.last_digit zero_value

pub ReadsBtc-btc_decimal :
    (read : Bytes → Option ℕ) (laws : ReadsBtc read) (a : Amount)
    → sats_rounding_up a * 1000 ≤ max_msats
    → read (btc_decimal_rounding_up_to_sats a) ≡ some (sats_rounding_up a)
unfolding btc_decimal_rounding_up_to_sats
ReadsBtc-btc_decimal read laws a le =
    let n = sats_rounding_up a in
    elim (Bool-cases (n % sats_per_btc == 0)) [
      | inl e ↦
          rw (e, append-nil, laws.whole (n / sats_per_btc) (omega arith)) (ap some (ground arith))
      | inr e ↦
          let (part, is_part, f) = fraction_lem (n % sats_per_btc) (ground arith) (omega arith) in
          let ne = IsFraction-ne (n % sats_per_btc) part f in
          let fits : (n / sats_per_btc * sats_per_btc + scale (8 - length part) (value_from 0 part))
                * 1000
              ≤ max_msats =
            rw f.exact (omega (arith, le)) in
          rw (e, is_part, laws.parts (n / sats_per_btc) part f.digits ne f.short fits, f.exact)
            (ap some (omega arith))
    ]

-- The reader above is one.
pub read_btc-ReadsBtc : ReadsBtc read_btc
read_btc-ReadsBtc = record {
  whole = λ n le. read_btc-decimal n;
  parts = λ n part digits ne short le. read_btc_parts n part digits short;
}
