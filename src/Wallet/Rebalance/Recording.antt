-- ===== src/Wallet/Rebalance/Recording.antt =====
-- What `do_custodial_rebalance` leaves in the metadata store.
use libbtcwallet.Base.{
  ℕ, ◌≡◌, refl, Option, none, some, Result, ok, err, ◌>>=◌, Returns, returns, Returns-bind, get,
  put,
}
use libbtcwallet.Amount.{Amount}
use libbtcwallet.Instructions.External.{Externals}
use libbtcwallet.Store.{
  IdExternals, Bytes32, PaymentId, lightning, custodial, PaymentType, payment,
  payment_triggering_transfer_to_non_custodial, id_key,
}
use libbtcwallet.Store.Kv.{KvStore, Codec}
use libbtcwallet.Store.Metadata.{
  TxMetadataStore, set_tx_caused_rebalance, mark_found, mark, triggering, expect_done,
}
use libbtcwallet.Wallet.Services.{Services}
use libbtcwallet.Wallet.Balance.{Tunables, get_balance_amt}
use libbtcwallet.Wallet.Pay.Recorded.{Writes, insert-Returns}
use libbtcwallet.Wallet.Rebalance.{
  Receipt, not_yet, lost, received, rebalanced, waiting, not_needed, no_invoice, unpaid,
  receipt_lost, Ended, transfer_metadata, await_receipt, assign_fees, after_wait, after_payment,
  pay_invoice, move_amount, do_custodial_rebalance,
}

module _ {x : Externals} {ids : IdExternals} (s : Services x ids) (codec : Codec ids) (kv : KvStore)
    (trigger : PaymentId ids) (time : ℕ) (ty : PaymentType) (m : TxMetadataStore ids kv) where
  -- Where the rebalance ends without moving anything, the store is as before. Where it moved, three
  -- entries are set in this order: the marked trigger's, with its type and time, and one for each half
  -- of the transfer, which names both and the trigger.
  pub data Accounted : Ended s codec kv → Type 0 where
    skipped : {v : s.World} → Accounted (not_needed, v, m)
    no_invoice_made : {v : s.World} → Accounted (no_invoice, v, m)
    payment_refused : {v : s.World} → Accounted (unpaid, v, m)
    receipt_failed : {v : s.World} → Accounted (receipt_lost, v, m)
    still_waiting : {v : s.World} → Accounted (waiting, v, m)
    accounted :
        {v : s.World} {m' : TxMetadataStore ids kv} (a : ids.CustodialPaymentId) (b : Bytes32)
        → m'.tx_metadata
          ≡ put
              (id_key ids)
              (put
                (id_key ids)
                (put
                  (id_key ids)
                  m.tx_metadata
                  trigger
                  (record { time = time; ty = payment_triggering_transfer_to_non_custodial ty }))
                (custodial a)
                (transfer_metadata s codec kv v a b trigger))
              (lightning b)
              (transfer_metadata s codec kv v a b trigger)
        → Accounted (rebalanced a b, v, m')

  module _ (writes : Writes kv)
      (plain : get (id_key ids) m.tx_metadata trigger
        ≡ some (record { time = time; ty = payment ty })) where
    pub mark-Returns :
        Returns {E = Unit {0}}
          (λ (m' : TxMetadataStore ids kv).
            m'.tx_metadata
            ≡ put
                (id_key ids)
                m.tx_metadata
                trigger
                (record { time = time; ty = payment_triggering_transfer_to_non_custodial ty }))
          (expect_done (set_tx_caused_rebalance codec kv m trigger))
    unfolding set_tx_caused_rebalance mark_found mark triggering ◌>>=◌
    mark-Returns = rw (plain, (writes m.store _ _).1) (returns refl)

    pub assign_fees-Accounted :
        (a : ids.CustodialPaymentId) (b : Bytes32) (w : s.World)
        → Returns Accounted (assign_fees s codec kv trigger a b w m)
    unfolding assign_fees
    assign_fees-Accounted a b w = Returns-bind mark-Returns λ marked e.
        Returns-bind (insert-Returns codec kv writes marked (custodial a) _) λ m1 e1.
          Returns-bind (insert-Returns codec kv writes m1 (lightning b) _)
            λ m2 e2. returns (accounted a b (rw (e2, e1, e)))

    after_wait-Accounted :
        (a : ids.CustodialPaymentId) (r : Receipt × s.World)
        → Returns Accounted (after_wait s codec kv trigger a m r)
    unfolding after_wait
    after_wait-Accounted a (not_yet, w) = returns still_waiting
    after_wait-Accounted a (lost, w) = returns receipt_failed
    after_wait-Accounted a (received b, w) = assign_fees-Accounted a b w

    after_payment-Accounted :
        (fuel : ℕ) (hash : Bytes32) (r : Result s.CustodialError ids.CustodialPaymentId × s.World)
        → Returns Accounted (after_payment s codec kv trigger fuel hash m r)
    unfolding after_payment
    after_payment-Accounted fuel hash (err e, w) = returns payment_refused
    after_payment-Accounted fuel hash (ok a, w) =
        after_wait-Accounted a (await_receipt s fuel hash w)

    pay_invoice-Accounted :
        (fuel : ℕ) (amt : Amount) (r : Result s.NodeError x.Bolt11Invoice × s.World)
        → Returns Accounted (pay_invoice s codec kv trigger fuel amt m r)
    unfolding pay_invoice
    pay_invoice-Accounted fuel amt (err e, w) = returns no_invoice_made
    pay_invoice-Accounted fuel amt (ok inv, w) = after_payment-Accounted fuel (s.payment_hash inv) _

    move_amount-Accounted :
        (fuel : ℕ) (w : s.World) (o : Option Amount)
        → Returns Accounted (move_amount s codec kv trigger fuel w m o)
    unfolding move_amount
    move_amount-Accounted fuel w none = returns skipped
    move_amount-Accounted fuel w (some amt) = pay_invoice-Accounted fuel amt _

    pub do_custodial_rebalance-Accounted :
        (fuel : ℕ) (tunables : Tunables) (w : s.World)
        → Returns Accounted (do_custodial_rebalance s codec kv trigger fuel tunables w m)
    unfolding do_custodial_rebalance
    do_custodial_rebalance-Accounted fuel tunables w =
        move_amount-Accounted fuel w (get_balance_amt s tunables w)
