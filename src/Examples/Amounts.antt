-- ===== src/Examples/Amounts.antt =====
-- The theorems on amounts, at concrete ones.
use libbtcwallet.Base.{arith, ◌*◌, refl, ℕ, ◌≡◌, ◌≤◌, ◌+◌, ◌⊎◌, ◌<◌, ◌-◌, some}
use libbtcwallet.Amount.Format.{btc_decimal_rounding_up_to_sats}
use libbtcwallet.Amount.Format.RoundTrip.{read_btc, read_btc_rounds_up}
use libbtcwallet.Wallet.Balance.{default, transfer_amount, transfer_amount_sound}

read_btc_rounds_up_example :
    (n : ℕ) × (read_btc (btc_decimal_rounding_up_to_sats 123_456_000_001) ≡ some n)
    × (123_456_000_001 ≤ n * 1000)
    × (n * 1000 < 123_456_000_001 + 1000)
read_btc_rounds_up_example = read_btc_rounds_up 123_456_000_001 (omega arith)

-- 150_000 satoshis in custody, and room for 120_000 in the channels: 115_000 move.
moves_room : transfer_amount default 120_000_000 150_000_000 ≡ some 115_000_000
unfolding transfer_amount default
moves_room = refl

transfer_amount_sound_example :
    (default.rebalance_min < 115_000_000)
    × (115_000_000 ≤ 150_000_000)
    × (150_000_000 - 115_000_000 ≤ default.custodial_balance_limit)
    × ((115_000_000 + default.rebalance_min ≡ 120_000_000) ⊎ (◌≡◌ {A = ℕ} 115_000_000 150_000_000))
transfer_amount_sound_example =
    transfer_amount_sound default 120_000_000 150_000_000 115_000_000 moves_room
