-- ===== src/Amount/Bounds.antt =====
-- Bounds and rounding of the operations on amounts.
use libbtcwallet.Base.{ℕ, ◌+◌, ◌*◌, ◌≤◌, ◌<◌, ◌≡◌, ok, ◌↔◌, arith}
use libbtcwallet.Amount.{
  Amount, u64_mod, max_msats, sats, sats_rounding_up, from_sats, saturating_add,
}

saturating_add_mono : (a b c : Amount) → b ≤ c → saturating_add a b ≤ saturating_add a c
unfolding saturating_add
saturating_add_mono a b c h = ground arith

-- For an amount below 2 ^ 64 - 999, rounding up to satoshis adds less than a satoshi, and `sats`
-- returns a number exactly if the amount is that many satoshis.
sats_exact :
    (a : Amount)
    → a + 999 < u64_mod
    → (a ≤ sats_rounding_up a * 1000)
      × (sats_rounding_up a * 1000 < a + 1000)
      × ((s : ℕ) → (sats a ≡ ok s) ↔ (a ≡ s * 1000))
unfolding sats sats_rounding_up
sats_exact a h = (omega arith, omega arith, λ s. (λ e. ground arith, λ e. ground arith))

from_sats_exact : (s : ℕ) → s * 1000 < u64_mod → from_sats s ≡ s * 1000
unfolding from_sats
from_sats_exact s h = omega arith

from_sats-sats_rounding_up :
    (a : Amount)
    → a ≤ max_msats
    → (a ≤ from_sats (sats_rounding_up a)) × (from_sats (sats_rounding_up a) < a + 1000)
unfolding from_sats sats_rounding_up
from_sats-sats_rounding_up a h = omega arith
