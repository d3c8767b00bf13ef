-- ===== src/Wallet/Polling.antt =====
-- One round of the task that `Wallet::new` (libbtcwallet/src/lib.rs) spawns: it records the payments
-- that custody received, and starts a rebalance that one of them is charged for.
pub mod Victims
pub mod Exhausted
use libbtcwallet.Base.{
  ℕ, ◌&&◌, ◌||◌, Option, none, some, List, [], ◌∷◌, ◌++◌, ltb, ◌==◌, if◌then◌else◌, Result, ok, err,
  Outcome, done, ◌>>=◌, get,
}
use libbtcwallet.Amount.{Amount}
use libbtcwallet.Instructions.External.{Externals}
use libbtcwallet.Store.{
  IdExternals, custodial, incoming_lightning, payment, payment_triggering_transfer_to_non_custodial,
  transfer_to_non_custodial, TxType, TxMetadata, id_key,
}
use libbtcwallet.Store.Kv.{KvStore, Codec}
use libbtcwallet.Store.Metadata.{TxMetadataStore, insert, expect}
use libbtcwallet.Wallet.Services.{Services}
use libbtcwallet.Wallet.Custodial.{Payment, list_payments}
use libbtcwallet.Wallet.Balance.{Tunables, get_balance_amt}
use libbtcwallet.Wallet.Rebalance.{do_custodial_rebalance}

module _ {ids : IdExternals} (codec : Codec ids) (kv : KvStore) where
  pub record PollState : Type 0 where
    pub new_txn : List (Amount × ids.CustodialPaymentId)
    pub latest_tx : Option (ℕ × ids.CustodialPaymentId)
    pub tx_metadata : TxMetadataStore ids kv

  -- `if latest_tx.is_none() || latest_tx.unwrap().0 < metadata.time { … }`
  unfoldable pub newer :
      Option (ℕ × ids.CustodialPaymentId)
      → ℕ
      → ids.CustodialPaymentId
      → Option (ℕ × ids.CustodialPaymentId)
  newer none time id = some (time, id)
  newer (some (t, i)) time id = if ltb t time then some (time, id) else some (t, i)

  unfoldable pub see_known : TxType ids → ℕ → ids.CustodialPaymentId → PollState → PollState
  unfolding newer
  see_known (payment ty) time id st = record st { latest_tx = newer st.latest_tx time id }
  see_known (payment_triggering_transfer_to_non_custodial ty) time id st = st
  see_known (transfer_to_non_custodial a b c) time id st = st

  -- `now` is the time that a new payment is recorded with.
  unfoldable pub see_inbound :
      ℕ → Payment ids → Option (TxMetadata ids) → PollState → Outcome (Unit {0}) PollState
  see_inbound now p none st = do
    m ←
        insert codec kv st.tx_metadata (custodial p.id)
          (record { time = now; ty = payment incoming_lightning })
    done (record st { new_txn = st.new_txn ++ (p.amount, p.id) ∷ []; tx_metadata = m })
  see_inbound now p (some md) st = done (see_known md.ty md.time p.id st)

  unfoldable pub see_payments : ℕ → List (Payment ids) → PollState → Outcome (Unit {0}) PollState
  see_payments now [] st = done st
  see_payments now (p ∷ ps) st =
      let looked =
        see_inbound now p (get (id_key ids) st.tx_metadata.tx_metadata (custodial p.id)) st in
      (if p.outbound then done st else looked) >>= see_payments now ps

  -- `new_txn.sort_unstable()` and its first element: the least amount, and the least id for it.
  unfoldable pub smaller_txn :
      Amount × ids.CustodialPaymentId
      → Option (Amount × ids.CustodialPaymentId)
      → Amount × ids.CustodialPaymentId
  smaller_txn t none = t
  smaller_txn (a, i) (some (b, j)) =
      if ltb b a || ((b == a) && ids.uuid_lt j i) then (b, j) else (a, i)

  unfoldable pub smallest :
      List (Amount × ids.CustodialPaymentId) → Option (Amount × ids.CustodialPaymentId)
  unfolding smaller_txn
  smallest [] = none
  smallest (t ∷ ts) = some (smaller_txn t (smallest ts))

  unfoldable pub pick :
      Option (Amount × ids.CustodialPaymentId)
      → Option (ℕ × ids.CustodialPaymentId)
      → Option ids.CustodialPaymentId
  pick (some (_, id)) latest_tx = some id
  pick none (some (_, id)) = some id
  pick none none = none

  -- `None` is the `expect` that panics.
  unfoldable pub victim : PollState → Option ids.CustodialPaymentId
  unfolding smallest pick
  victim st = pick (smallest st.new_txn) st.latest_tx

  module _ {x : Externals} (s : Services x ids) where
    unfoldable pub charge :
        ℕ
        → Tunables
        → s.World
        → PollState
        → Option Amount
        → Outcome (Unit {0}) (s.World × TxMetadataStore ids kv)
    charge fuel tunables w st none = done (w, st.tx_metadata)
    charge fuel tunables w st (some transfer_amt) = do
      victim_id ← expect (victim st)
      (_, w', m) ←
          do_custodial_rebalance s codec kv (custodial victim_id) fuel tunables w st.tx_metadata
      done (w', m)

    unfoldable pub poll_listed :
        ℕ
        → Tunables
        → TxMetadataStore ids kv
        → Result s.CustodialError (List (Payment ids)) × s.World
        → Outcome (Unit {0}) (s.World × TxMetadataStore ids kv)
    poll_listed fuel tunables m (ok payments, w) = do
      st ←
          see_payments (s.now w) payments
            (record { new_txn = []; latest_tx = none; tx_metadata = m })
      charge fuel tunables w st (get_balance_amt s tunables w)
    poll_listed fuel tunables m (err e, w) = done (w, m)

    unfoldable pub poll :
        ℕ
        → Tunables
        → s.World
        → TxMetadataStore ids kv
        → Outcome (Unit {0}) (s.World × TxMetadataStore ids kv)
    poll fuel tunables w m = poll_listed fuel tunables m (list_payments s w)
