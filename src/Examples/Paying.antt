-- ===== src/Examples/Paying.antt =====
-- The theorems on `Wallet::pay`, for an invoice and 1_000 satoshis in custody.
use libbtcwallet.Base.{◌≡◌, refl, none, [], ◌∷◌, codes, Returns, is_ok, Bool}
use libbtcwallet.Instructions.{lightning_bolt11}
use libbtcwallet.Store.Metadata.{TxMetadataStore}
use libbtcwallet.Wallet.Lightning
use libbtcwallet.Wallet.Custodial
use libbtcwallet.Wallet.Info.{PaymentInfo}
use libbtcwallet.Wallet.Pay.{pay, before}
use libbtcwallet.Wallet.Pay.Order.{until_paid, plan, concluded, pay-until_paid}
use libbtcwallet.Wallet.Pay.Recorded.{Writes}
use libbtcwallet.Wallet.Pay.Traced.{Tried, IsTold, pay-Tried}
use libbtcwallet.Wallet.Pay.Funds.{Calls, pay-Calls}
use libbtcwallet.Examples.Toys.{parsers, ids, memory, services}
use libbtcwallet.Examples.Coding.{coding}

abbrev no_entries : TxMetadataStore ids memory
no_entries = record { tx_metadata = []; store = [] }

abbrev info : PaymentInfo parsers
info = record {
  instructions = record {
    recipient_description = none;
    methods = lightning_bolt11 (codes "l") ∷ [];
    pop_callback = none;
    hrn = none;
    hrn_proof = none;
  };
  amount = 99_000;
}

memory-Writes : Writes memory
memory-Writes st k v = (_, refl)

pay-Tried_example :
    Returns
      (λ r.
        (is_paid : Bool) × Tried services coding memory info.amount
          (before services coding memory 1000 no_entries)
          is_paid
          r.1
        × IsTold services coding memory r.1 is_paid r.0)
      (pay services coding memory info 1000 no_entries)
pay-Tried_example = pay-Tried services coding memory memory-Writes info 1000 no_entries

pay-Calls_example :
    Returns
      (λ r.
        Calls services info.amount
          (Custodial.get_balance services 1000)
          (Lightning.get_balance services 1000).0
          1000
          (is_ok r.0)
          r.1.world)
      (pay services coding memory info 1000 no_entries)
pay-Calls_example = pay-Calls services coding memory memory-Writes info 1000 no_entries

pay-until_paid_example :
    pay services coding memory info 1000 no_entries
    ≡ concluded services coding memory (
        until_paid services coding memory info.amount
          (Custodial.get_balance services 1000)
          (Lightning.get_balance services 1000).0
          (plan services coding memory info.instructions.methods)
          (before services coding memory 1000 no_entries))
pay-until_paid_example = pay-until_paid services coding memory info 1000 no_entries
