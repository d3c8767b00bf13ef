-- ===== src/Wallet/Rebalance.antt =====
-- `Wallet::do_custodial_rebalance` (libbtcwallet/src/lib.rs): the custodial balance pays an invoice of
-- our own channels, and the fees go to the transaction that triggered it. The code returns nothing;
-- where it ended is kept here. The wait for the payment runs on fuel, one unit for each look at the
-- payments; out of fuel it is still waiting.
pub mod Waiting
pub mod Recording
pub mod Moved
pub mod Twice
use libbtcwallet.Base.{
  ℕ, zero, suc, Bool, false, Option, none, some, List, [], ◌∷◌, beq, if◌then◌else◌, Result, ok, err,
  Outcome, done, ◌>>=◌,
}
use libbtcwallet.Amount.{Amount}
use libbtcwallet.Instructions.External.{Externals}
use libbtcwallet.Instructions.{lightning_bolt11}
use libbtcwallet.Store.{
  IdExternals, Bytes32, PaymentId, lightning, custodial, TxStatus, pending, completed, failed,
  TxMetadata, transfer_to_non_custodial,
}
use libbtcwallet.Store.Kv.{KvStore, Codec}
use libbtcwallet.Store.Metadata.{TxMetadataStore, insert, set_tx_caused_rebalance, expect_done}
use libbtcwallet.Wallet.Services.{Services, PaymentKind, bolt11, PaymentDetails}
use libbtcwallet.Wallet.Lightning
use libbtcwallet.Wallet.Custodial
use libbtcwallet.Wallet.Lightning.{status_of}
use libbtcwallet.Wallet.Balance.{Tunables, get_balance_amt}

-- What a look at the payments shows, and how the wait ends: `not_yet` is `received_payment_id` still
-- `None`, and `lost` is the early `return` for a failed payment.
pub data Receipt : Type 0 where
  not_yet : Receipt
  lost : Receipt
  received : Bytes32 → Receipt

unfoldable pub has_hash : Bytes32 → PaymentKind → Bool
has_hash expected_hash (bolt11 hash preimage) = beq hash expected_hash
has_hash expected_hash kind = false

unfoldable pub receipt_of : Bytes32 → TxStatus → Receipt
receipt_of id completed = received id
receipt_of id pending = not_yet
receipt_of id failed = lost

-- The `for` loop, which leaves at the first payment with the hash.
unfoldable pub find_receipt : Bytes32 → List PaymentDetails → Receipt
unfolding has_hash receipt_of
find_receipt expected_hash [] = not_yet
find_receipt expected_hash (payment ∷ payments) =
    let rest = find_receipt expected_hash payments in
    if has_hash expected_hash payment.kind
    then receipt_of payment.id (status_of payment.status)
    else rest

pub data RebalanceEnd (ids : IdExternals) : Type 0 where
  not_needed no_invoice unpaid receipt_lost waiting : RebalanceEnd ids
  rebalanced : ids.CustodialPaymentId → Bytes32 → RebalanceEnd ids

unfoldable pub keep_waiting {ℓ} : {W : Type ℓ} → Receipt → W → Receipt × W → Receipt × W
keep_waiting not_yet w later = later
keep_waiting lost w later = (lost, w)
keep_waiting (received id) w later = (received id, w)

module _ {x : Externals} {ids : IdExternals} (s : Services x ids) where
  -- The `while` loop.
  unfoldable pub await_receipt : ℕ → Bytes32 → s.World → Receipt × s.World
  unfolding find_receipt keep_waiting
  await_receipt zero expected_hash w = (not_yet, w)
  await_receipt (suc fuel) expected_hash w =
      let later = await_receipt fuel expected_hash (s.next_receipt w) in
      keep_waiting (find_receipt expected_hash (s.list_payments w)) w later

  module _ (codec : Codec ids) (kv : KvStore) where
    abbrev pub Ended : Type 0
    Ended = RebalanceEnd ids × s.World × TxMetadataStore ids kv

    abbrev pub transfer_metadata :
        s.World → ids.CustodialPaymentId → Bytes32 → PaymentId ids → TxMetadata ids
    transfer_metadata w rebalance_id lightning_id trigger = record {
      time = s.now w;
      ty = transfer_to_non_custodial rebalance_id lightning_id trigger;
    }

    module _ (trigger : PaymentId ids) where
      -- what follows a payment that arrived
      unfoldable pub assign_fees :
          ids.CustodialPaymentId
          → Bytes32
          → s.World
          → TxMetadataStore ids kv
          → Outcome (Unit {0}) Ended
      assign_fees rebalance_id lightning_id w m = do
        marked ← expect_done (set_tx_caused_rebalance codec kv m trigger)
        let metadata = transfer_metadata w rebalance_id lightning_id trigger
        m1 ← insert codec kv marked (custodial rebalance_id) metadata
        m2 ← insert codec kv m1 (lightning lightning_id) metadata
        done (rebalanced rebalance_id lightning_id, w, m2)

      unfoldable pub after_wait :
          ids.CustodialPaymentId
          → TxMetadataStore ids kv
          → Receipt × s.World
          → Outcome (Unit {0}) Ended
      after_wait rebalance_id m (not_yet, w) = done (waiting, w, m)
      after_wait rebalance_id m (lost, w) = done (receipt_lost, w, m)
      after_wait rebalance_id m (received lightning_id, w) =
          assign_fees rebalance_id lightning_id w m

      unfoldable pub after_payment :
          ℕ
          → Bytes32
          → TxMetadataStore ids kv
          → Result s.CustodialError ids.CustodialPaymentId × s.World
          → Outcome (Unit {0}) Ended
      unfolding await_receipt
      after_payment fuel expected_hash m (err e, w) = done (unpaid, w, m)
      after_payment fuel expected_hash m (ok rebalance_id, w) =
          after_wait rebalance_id m (await_receipt fuel expected_hash w)

      unfoldable pub pay_invoice :
          ℕ
          → Amount
          → TxMetadataStore ids kv
          → Result s.NodeError x.Bolt11Invoice × s.World
          → Outcome (Unit {0}) Ended
      pay_invoice fuel transfer_amt m (err e, w) = done (no_invoice, w, m)
      pay_invoice fuel transfer_amt m (ok inv, w) =
          after_payment fuel (s.payment_hash inv) m
            (Custodial.pay s w (lightning_bolt11 inv) transfer_amt)

      unfoldable pub move_amount :
          ℕ → s.World → TxMetadataStore ids kv → Option Amount → Outcome (Unit {0}) Ended
      move_amount fuel w m none = done (not_needed, w, m)
      move_amount fuel w m (some transfer_amt) =
          pay_invoice fuel transfer_amt m (Lightning.get_bolt11_invoice s w (some transfer_amt))

      unfoldable pub do_custodial_rebalance :
          ℕ → Tunables → s.World → TxMetadataStore ids kv → Outcome (Unit {0}) Ended
      unfolding get_balance_amt
      do_custodial_rebalance fuel tunables w m = move_amount fuel w m (get_balance_amt s tunables w)
