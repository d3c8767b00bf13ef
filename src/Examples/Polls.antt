-- ===== src/Examples/Polls.antt =====
-- The theorems on the polling task, with one payment received in custody.
use libbtcwallet.Base.{◌≡◌, inr, refl, false, some, [], ◌∷◌, panic, ok, get}
use libbtcwallet.Store.{
  custodial, completed, incoming_lightning, payment_triggering_transfer_to_non_custodial,
}
use libbtcwallet.Store.Metadata.{TxMetadataStore}
use libbtcwallet.Wallet.Custodial
use libbtcwallet.Wallet.Custodial.{Payment, list_payments}
use libbtcwallet.Wallet.Lightning.{estimate_receivable_balance}
use libbtcwallet.Wallet.Balance.{default, get_balance_amt}
use libbtcwallet.Wallet.Pay.Recorded.{Writes}
use libbtcwallet.Wallet.Polling.{poll}
use libbtcwallet.Wallet.Polling.Exhausted.{Spent, poll_panics}
use libbtcwallet.Examples.Toys.{parsers, ids, memory, services}
use libbtcwallet.Wallet.Services.{Services, Transfer, transfer_completed}
use libbtcwallet.Amount.{from_sats}
use libbtcwallet.Examples.Coding.{coding}

abbrev incoming : Payment ids
incoming = record { id = 7 ∷ []; amount = 1000; fee = 0; status = completed; outbound = false }

abbrev none_stored : TxMetadataStore ids memory
none_stored = record { tx_metadata = []; store = [] }

takes_writes : Writes memory
takes_writes st k v = (_, refl)

abbrev transfer : Transfer ids
transfer = record {
  id = 7 ∷ [];
  status = transfer_completed;
  total_value_sats = 1;
  from_us = false;
}

abbrev one_transfer : Services parsers ids
one_transfer = record services { get_all_transfers = λ w. (ok (transfer ∷ []), w) }

abbrev charged : TxMetadataStore ids memory
charged = record {
  tx_metadata =
      (
        custodial (7 ∷ []),
        record { time = 3; ty = payment_triggering_transfer_to_non_custodial incoming_lightning },
      )
      ∷ [];
  store = [];
}

lists_incoming : list_payments one_transfer 150_000 ≡ (ok (incoming ∷ []), 150_000)
unfolding list_payments from_sats
lists_incoming = refl

incoming-Spent : Spent coding memory charged incoming
unfolding get
incoming-Spent = inr (refl, 3, incoming_lightning, refl)

has_balance : get_balance_amt one_transfer default 150_000 ≡ some 150_000_000
unfolding get_balance_amt default Custodial.get_balance estimate_receivable_balance
has_balance = refl

poll_panics_example : poll coding memory one_transfer 1 default 150_000 charged ≡ panic
poll_panics_example =
    poll_panics coding memory charged one_transfer 1 default 150_000 150_000 (incoming ∷ [])
      150_000_000 lists_incoming (incoming-Spent, tt) has_balance
