-- ===== src/Amount/Format/Loop.antt =====
-- The two loops of the formatter: the digits of a number, and the zeros taken off a fraction.
use native.Mathlib.Nat.{pow-suc}
use native.Mathlib.Numerals.{sub-one}
use libbtcwallet.Base.{
  ℕ, zero, suc, ◌+◌, ◌-◌, ◌*◌, ◌/◌, ◌%◌, ◌^◌, ◌≤◌, ◌<◌, ◌≡◌, ◌≢◌, ◌∙◌, refl, arith, [], ◌∷◌, ◌++◌,
  Bytes, length, replicate, All, ◌==◌, inl, inr, Bool-cases, length-append, All-append,
}
use libbtcwallet.Amount.Format.{decimal_loop, decimal, strip_loop, zero_padded}

abbrev pub IsDigit : ℕ → Type 0
IsDigit c = (b'0' ≤ c) × (c ≤ b'9')

-- The number that digits spell behind `n`.
abbrev pub value_from : ℕ → Bytes → ℕ
value_from n [] = n
value_from n (c ∷ s) = value_from (n * 10 + (c - b'0')) s

-- `n` with `k` zeros behind it.
abbrev pub scale : ℕ → ℕ → ℕ
scale zero n = n
scale (suc k) n = scale k (n * 10)

decimal_loop_value :
    (fuel n : ℕ) (out : Bytes)
    → n ≤ fuel
    → value_from 0 (decimal_loop fuel n out) ≡ value_from n out
unfolding decimal_loop
decimal_loop_value zero n out h = ground arith
decimal_loop_value (suc fuel) n out h =
    ground (arith, decimal_loop_value fuel (n / 10) ((b'0' + n % 10) ∷ out))

decimal_loop_digits :
    (fuel n : ℕ) (out : Bytes) → All IsDigit out → All IsDigit (decimal_loop fuel n out)
unfolding decimal_loop
decimal_loop_digits zero n out h = h
decimal_loop_digits (suc fuel) n out h =
    ground (arith, decimal_loop_digits fuel (n / 10) ((b'0' + n % 10) ∷ out))

length-decimal_loop :
    (fuel k n : ℕ) (out : Bytes) → n < 10 ^ k → length (decimal_loop fuel n out) ≤ k + length out
unfolding decimal_loop
length-decimal_loop zero k n out h = omega arith
length-decimal_loop (suc fuel) zero n out h = ground arith
length-decimal_loop (suc fuel) (suc k) n out h =
    ground (arith, pow-suc 10 k, length-decimal_loop fuel k (n / 10) ((b'0' + n % 10) ∷ out))

pub decimal_value : (n : ℕ) → value_from 0 (decimal n) ≡ n
unfolding decimal
decimal_value n = ground (arith, decimal_loop_value n n [])

pub decimal_digits : (n : ℕ) → All IsDigit (decimal n)
unfolding decimal
decimal_digits n = ground (arith, decimal_loop_digits n n [])

pub length-decimal-le : (k n : ℕ) → 0 < n → n < 10 ^ k → length (decimal n) ≤ k
unfolding decimal
length-decimal-le k n pos h = ground (arith, length-decimal_loop n k n [])

replicate_digits : (k : ℕ) → All IsDigit (replicate k b'0')
replicate_digits zero = tt
replicate_digits (suc k) = (omega arith, replicate_digits k)

value_from-replicate : (k : ℕ) (s : Bytes) → value_from 0 (replicate k b'0' ++ s) ≡ value_from 0 s
value_from-replicate zero s = refl
value_from-replicate (suc k) s = value_from-replicate k s

length-replicate : (k c : ℕ) → length (replicate k c) ≡ k
length-replicate zero c = refl
length-replicate (suc k) c = omega (arith, length-replicate k c)

-- A number that fits in `width` digits is written with exactly that many.
pub zero_padded_lem :
    (width n : ℕ)
    → 0 < n
    → n < 10 ^ width
    → All IsDigit (zero_padded width n)
      × (value_from 0 (zero_padded width n) ≡ n)
      × (length (zero_padded width n) ≡ width)
unfolding zero_padded
zero_padded_lem width n pos h =
    let zeros = replicate (width - length (decimal n)) b'0' in
    (
      All-append IsDigit zeros (decimal n) (replicate_digits _) (decimal_digits n),
      value_from-replicate (width - length (decimal n)) (decimal n) ∙ decimal_value n,
      omega (
        arith,
        length-append zeros (decimal n),
        length-replicate (width - length (decimal n)) b'0',
        length-decimal-le width n pos h,
      ),
    )

-- A zero more behind a number makes it ten times as large.
scale-mul : (k n : ℕ) → scale k (n * 10) ≡ scale k n * 10
scale-mul zero n = refl
scale-mul (suc k) n = scale-mul k (n * 10)

-- The loop ends by its test within as many rounds as there are digits, on a number that fits in the
-- digits left, whose last digit is not 0 and which is the old one without its zeros.
pub record Stripped (digits sats : ℕ) (r : ℕ × ℕ) : Type 0 where
  pub fits : r.1 < 10 ^ r.0
  pub last_digit : r.1 % 10 ≢ 0
  pub fewer : r.0 ≤ digits
  pub exact : scale (digits - r.0) r.1 ≡ sats

Stripped-suc :
    (digits sats : ℕ) (r : ℕ × ℕ)
    → sats % 10 ≡ 0
    → Stripped digits (sats / 10) r
    → Stripped (suc digits) sats r
Stripped-suc digits sats r zero_digit h = record {
  fits = h.fits;
  last_digit = h.last_digit;
  fewer = omega (arith, h.fewer);
  exact =
      let e : suc digits - r.0 ≡ suc (digits - r.0) = omega (arith, h.fewer) in
      rw e (scale-mul (digits - r.0) r.1 ∙ omega (arith, h.exact));
}

pub strip_loop_lem :
    (fuel digits sats : ℕ)
    → digits ≤ fuel
    → 0 < sats
    → sats < 10 ^ digits
    → Stripped digits sats (strip_loop fuel digits sats)
unfolding strip_loop
strip_loop_lem fuel zero sats le pos h = absurd (omega arith)
strip_loop_lem zero (suc digits) sats le pos h = absurd (omega arith)
strip_loop_lem (suc fuel) (suc digits) sats le pos h = elim (Bool-cases (sats % 10 == 0)) [
  | inl more ↦
      rw (more, sub-one)
        (Stripped-suc digits sats _ (ground arith) (
          strip_loop_lem fuel digits (sats / 10) (omega arith) (ground arith)
            (omega (arith, pow-suc 10 digits))))
  | inr over ↦ rw over (record {
    fits = h;
    last_digit = ground arith;
    fewer = omega arith;
    exact = let e : suc digits - suc digits ≡ 0 = omega arith in rw e;
  })
]
