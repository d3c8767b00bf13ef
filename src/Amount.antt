-- ===== src/Amount.antt =====
-- bitcoin-payment-instructions/src/amount.rs: an amount of bitcoin in milli-satoshis. The newtype
-- over `u64` is kept as the number inside; that it fits in 64 bits is a hypothesis where it matters.
-- Arithmetic that Rust does not check wraps, as in a release build.
pub mod Bounds
pub mod Format
use libbtcwallet.Base.{
  ℕ, ◌+◌, ◌-◌, ◌*◌, ◌/◌, ◌%◌, ◌^◌, ◌<◌, Option, none, some, Result, ok, err, ltb, leb, ◌==◌,
  if◌then◌else◌,
}

abbrev pub Amount : Type 0
Amount = ℕ

abbrev pub u64_mod : ℕ
u64_mod = 2 ^ 64

abbrev pub IsU64 : ℕ → Type 0
IsU64 n = n < u64_mod

-- 21 million bitcoin, in milli-satoshis.
abbrev pub max_msats : ℕ
max_msats = 21_000_000_0000_0000_000

unfoldable pub msats : Amount → ℕ
msats a = a

unfoldable pub sats : Amount → Result (Unit {0}) ℕ
sats a = if a % 1000 == 0 then ok (a / 1000) else err tt

unfoldable pub sats_rounding_up : Amount → ℕ
sats_rounding_up a = ((a + 999) % u64_mod) / 1000

unfoldable pub from_milli_sats : ℕ → Amount
from_milli_sats msats = msats

unfoldable pub from_sats : ℕ → Amount
from_sats sats = (sats * 1000) % u64_mod

-- `u64::checked_add`
unfoldable pub checked_add : ℕ → ℕ → Option ℕ
checked_add a b = if ltb (a + b) u64_mod then some (a + b) else none

unfoldable pub cap_sum : Option ℕ → Amount
cap_sum none = max_msats
cap_sum (some amt) = if leb amt max_msats then amt else max_msats

unfoldable pub saturating_add : Amount → Amount → Amount
unfolding checked_add cap_sum
saturating_add a b = cap_sum (checked_add a b)

-- `u64::saturating_sub`: the subtraction of natural numbers stops at 0 as well.
unfoldable pub saturating_sub : Amount → Amount → Amount
saturating_sub a b = a - b
