-- ===== src/Amount/Format.antt =====
-- `FormattedAmount` of amount.rs: an amount in bitcoin, rounded up to the next satoshi.
pub mod Loop
pub mod RoundTrip
pub mod Numerals
use libbtcwallet.Base.{
  ℕ, zero, suc, ◌-◌, ◌/◌, ◌%◌, ◌+◌, [], ◌∷◌, ◌++◌, Bytes, codes, length, replicate, ◌==◌,
  if◌then◌else◌, ◌≡◌, refl,
}
use libbtcwallet.Amount.{Amount, sats_rounding_up}

-- Rust's `{}` of a `u64`. Each round takes a digit off, so as many rounds as the number are enough.
decimal_loop : ℕ → ℕ → Bytes → Bytes
decimal_loop zero n out = out
decimal_loop (suc fuel) n out =
    let rest = decimal_loop fuel (n / 10) ((b'0' + n % 10) ∷ out) in if n == 0 then out else rest

unfoldable pub decimal : ℕ → Bytes
unfolding decimal_loop
decimal n = if n == 0 then b'0' ∷ [] else decimal_loop n n []

-- Rust's `{:0width$}` of a `u64`.
unfoldable pub zero_padded : ℕ → ℕ → Bytes
unfolding decimal
zero_padded width n = replicate (width - length (decimal n)) b'0' ++ decimal n

-- `while sats % 10 == 0 { digits -= 1; sats /= 10; }` over `(digits, sats)`.
unfoldable pub strip_loop : ℕ → ℕ → ℕ → ℕ × ℕ
strip_loop zero digits sats = (digits, sats)
strip_loop (suc fuel) digits sats =
    let rest = strip_loop fuel (digits - 1) (sats / 10) in
    if sats % 10 == 0 then rest else (digits, sats)

-- The fraction of a bitcoin, which is not 0 here; eight digits make at most eight rounds.
unfoldable pub fraction : ℕ → Bytes
unfolding strip_loop zero_padded
fraction sats = let (digits, rest) = strip_loop 8 8 sats in b'.' ∷ zero_padded digits rest

abbrev sats_per_btc : ℕ
sats_per_btc = 1_0000_0000

unfoldable pub btc_decimal_rounding_up_to_sats : Amount → Bytes
unfolding fraction decimal sats_rounding_up
btc_decimal_rounding_up_to_sats a =
    let total_sats = sats_rounding_up a in
    let sats = total_sats % sats_per_btc in
    decimal (total_sats / sats_per_btc) ++ (if sats == 0 then [] else fraction sats)

-- The source's own tests.
display_small : btc_decimal_rounding_up_to_sats 1 ≡ codes "0.00000001"
unfolding btc_decimal_rounding_up_to_sats
display_small = refl

display_stripped : btc_decimal_rounding_up_to_sats 10_000 ≡ codes "0.0000001"
unfolding btc_decimal_rounding_up_to_sats
display_stripped = refl

display_full : btc_decimal_rounding_up_to_sats 123_456_789_000 ≡ codes "1.23456789"
unfolding btc_decimal_rounding_up_to_sats
display_full = refl

display_whole : btc_decimal_rounding_up_to_sats 500_000_000_000 ≡ codes "5"
unfolding btc_decimal_rounding_up_to_sats
display_whole = refl
