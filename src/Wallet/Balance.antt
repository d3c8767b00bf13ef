-- ===== src/Wallet/Balance.antt =====
-- How much moves from the custodial to the self-custodial side, and what the wallet's balance is
-- (libbtcwallet/src/lib.rs).
use libbtcwallet.Base.{
  true, ◌↔◌, ◌+◌, ◌-◌, ◌≤◌, ◌<◌, ◌≡◌, ◌⊎◌, arith, Bool, Option, none, some, leb, ltb, if◌then◌else◌,
}
use libbtcwallet.Amount.{Amount, from_sats, saturating_add, saturating_sub}
use libbtcwallet.Instructions.External.{Externals}
use libbtcwallet.Store.{IdExternals}
use libbtcwallet.Wallet.Services.{Services}
use libbtcwallet.Wallet.Lightning
use libbtcwallet.Wallet.Custodial

pub record Tunables : Type 0 where
  pub custodial_balance_limit : Amount
  pub rebalance_min : Amount
  pub onchain_receive_threshold : Amount
  pub enable_amountless_receive_on_chain : Bool

-- `Tunables::default()`
unfoldable pub default : Tunables
unfolding from_sats
default = record {
  custodial_balance_limit = from_sats 100_000;
  rebalance_min = from_sats 5_000;
  onchain_receive_threshold = from_sats 10_000;
  enable_amountless_receive_on_chain = true;
}

-- `get_balance_amt`, over the two balances that it reads.
unfoldable pub transfer_amount : Tunables → Amount → Amount → Option Amount
unfolding saturating_sub
transfer_amount t receivable custodial_balance =
    let lightning_receivable = saturating_sub receivable t.rebalance_min in
    let smaller =
      if leb lightning_receivable custodial_balance
      then lightning_receivable
      else custodial_balance in
    let transfer_amt =
      if ltb t.custodial_balance_limit (saturating_sub custodial_balance smaller)
      then custodial_balance
      else smaller in
    if ltb t.rebalance_min transfer_amt then some transfer_amt else none

pub record Balances : Type 0 where
  pub available_balance : Amount
  pub pending_balance : Amount

module _ {x : Externals} {ids : IdExternals} (s : Services x ids) where
  unfoldable pub get_balance_amt : Tunables → s.World → Option Amount
  unfolding transfer_amount
  get_balance_amt t w =
      transfer_amount t (Lightning.estimate_receivable_balance s w) (Custodial.get_balance s w)

  unfoldable pub get_balance : s.World → Balances
  get_balance w =
      let (available_ln, pending_balance) = Lightning.get_balance s w in
      record {
        available_balance = saturating_add available_ln (Custodial.get_balance s w);
        pending_balance = pending_balance;
      }

-- What is transferred is within the custodial balance and above the rebalancing threshold, and leaves
-- at most the limit in custody; it is exactly what the channels can take less the threshold, or the
-- whole custodial balance.
pub transfer_amount_sound :
    (t : Tunables) (receivable balance a : Amount)
    → transfer_amount t receivable balance ≡ some a
    → (t.rebalance_min < a)
      × (a ≤ balance)
      × (balance - a ≤ t.custodial_balance_limit)
      × ((a + t.rebalance_min ≡ receivable) ⊎ (a ≡ balance))
unfolding transfer_amount
transfer_amount_sound t receivable balance a h = ground arith

-- Nothing is transferred just where the custodial balance is at most the threshold, or it is within
-- the limit above what the channels can take, and that is at most the threshold.
pub transfer_amount-none :
    (t : Tunables) (receivable balance : Amount)
    → (transfer_amount t receivable balance ≡ none) ↔ (
        (balance ≤ t.rebalance_min)
        ⊎ ((receivable ≤ t.rebalance_min + t.rebalance_min)
            × (balance ≤ t.custodial_balance_limit + (receivable - t.rebalance_min))))
unfolding transfer_amount
transfer_amount-none t receivable balance = (λ h. ground arith, λ h. ground arith)
