-- ===== src/Examples/Rebalancing.antt =====
-- The theorems on `do_custodial_rebalance`, with 150_000 satoshis in custody and no channels.
use libbtcwallet.Base.{
  inl, ◌++◌, inl, ◌++◌, ℕ, ◌≡◌, ◌≢◌, refl, none, some, List, [], ◌∷◌, codes, Returns, ok, done,
  fail, get, All, arith,
}
use libbtcwallet.Instructions.{lightning_bolt11}
use libbtcwallet.Store.{id_key, PaymentId, custodial, incoming_lightning, payment}
use libbtcwallet.Store.Metadata.{TxMetadataStore, set_tx_caused_rebalance, mark_found}
use libbtcwallet.Wallet.Services.{PaymentDetails, Services, bolt11, bolt11_jit}
use libbtcwallet.Wallet.Lightning
use libbtcwallet.Wallet.Custodial
use libbtcwallet.Wallet.Lightning.{estimate_receivable_balance, status_of}
use libbtcwallet.Wallet.Balance.{default, get_balance_amt}
use libbtcwallet.Wallet.Pay.Recorded.{Writes}
use libbtcwallet.Wallet.Rebalance.{
  not_yet, received, await_receipt, waiting, do_custodial_rebalance,
}
use libbtcwallet.Wallet.Rebalance.Waiting.{
  IsElsewhere, after, await_receipt_ends, do_custodial_rebalance_waits,
}
use libbtcwallet.Wallet.Rebalance.Moved.{Moved, do_custodial_rebalance-Moved}
use libbtcwallet.Examples.Toys.{parsers, ids, memory, with_payments, arrived}
use libbtcwallet.Examples.Coding.{coding}

abbrev by_channel : Services parsers ids
by_channel = with_payments (arrived (bolt11 (codes "l") none) ∷ [])

abbrev just_in_time : Services parsers ids
just_in_time = with_payments (arrived (bolt11_jit (codes "l") none) ∷ [])

abbrev trigger : PaymentId ids
trigger = custodial (7 ∷ [])

abbrev nothing_stored : TxMetadataStore ids memory
nothing_stored = record { tx_metadata = []; store = [] }

abbrev trigger_stored : TxMetadataStore ids memory
trigger_stored = record {
  tx_metadata = (trigger, record { time = 3; ty = payment incoming_lightning }) ∷ [];
  store = [];
}

writes : Writes memory
writes st k v = (_, refl)

lists_it :
    by_channel.list_payments (after by_channel 0 149_900)
    ≡ [] ++ arrived (bolt11 (codes "l") none) ∷ []
unfolding after
lists_it = refl

await_receipt_ends_example : (await_receipt by_channel 1 (codes "l") 149_900).0 ≢ not_yet
await_receipt_ends_example =
    await_receipt_ends by_channel 0 1 (codes "l") none 149_900 [] []
      (arrived (bolt11 (codes "l") none)) (omega arith) lists_it tt refl (inl refl)

whole_balance :
    (ps : List PaymentDetails)
    → get_balance_amt (with_payments ps) default 150_000 ≡ some 150_000_000
unfolding get_balance_amt default Custodial.get_balance estimate_receivable_balance
whole_balance ps = refl

our_invoice :
    (ps : List PaymentDetails)
    → Lightning.get_bolt11_invoice (with_payments ps) 150_000 (some 150_000_000)
      ≡ (ok (codes "l"), 150_000)
unfolding Lightning.get_bolt11_invoice
our_invoice ps = refl

custody_pays :
    (ps : List PaymentDetails)
    → Custodial.pay (with_payments ps) 150_000 (lightning_bolt11 (codes "l")) 150_000_000
      ≡ (ok (1 ∷ []), 149_900)
unfolding Custodial.pay
custody_pays ps = refl

never_bolt11 :
    (n : ℕ)
    → All (IsElsewhere (codes "l")) (just_in_time.list_payments (after just_in_time n 149_900))
never_bolt11 n = (λ h pre e. cc, tt)

do_custodial_rebalance_waits_example :
    (v : ℕ) × (do_custodial_rebalance just_in_time coding memory trigger 9 default 150_000
        nothing_stored
      ≡ done (waiting, v, nothing_stored))
do_custodial_rebalance_waits_example =
    do_custodial_rebalance_waits just_in_time coding memory trigger default 150_000 150_000 149_900
      nothing_stored 150_000_000 (codes "l") (1 ∷ []) (whole_balance _) (our_invoice _)
      (custody_pays _) never_bolt11 9

receives : await_receipt by_channel 1 (codes "l") 149_900 ≡ (received (5 ∷ []), 149_900)
unfolding await_receipt status_of
receives = refl

unmarked : set_tx_caused_rebalance coding memory nothing_stored trigger ≡ fail tt
unfolding set_tx_caused_rebalance get mark_found
unmarked = refl

plain_trigger :
    get (id_key ids) trigger_stored.tx_metadata trigger
    ≡ some (record { time = 3; ty = payment incoming_lightning })
unfolding get
plain_trigger = refl

do_custodial_rebalance-Moved_example :
    Returns
      (Moved by_channel coding memory trigger 3 incoming_lightning default 150_000 trigger_stored)
      (do_custodial_rebalance by_channel coding memory trigger 1 default 150_000 trigger_stored)
do_custodial_rebalance-Moved_example =
    do_custodial_rebalance-Moved by_channel coding memory trigger 3 incoming_lightning default
      150_000 trigger_stored writes plain_trigger 1
