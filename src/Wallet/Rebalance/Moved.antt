-- ===== src/Wallet/Rebalance/Moved.antt =====
-- What `do_custodial_rebalance` records, by the calls that it made and the payments that it saw.
use mathlib.Core.List.{Mem, mem-cons_self, mem-cons_of_mem}
use libbtcwallet.Base.{
  true, ℕ, zero, suc, ◌≡◌, refl, ap, Option, none, some, List, [], ◌∷◌, Bool-cases, inl, inr,
  Result, ok, err, Returns, returns, Returns-bind, get, put, beq_eq,
}
use libbtcwallet.Amount.{Amount}
use libbtcwallet.Instructions.External.{Externals}
use libbtcwallet.Instructions.{lightning_bolt11}
use libbtcwallet.Store.{
  IdExternals, Bytes32, PaymentId, lightning, custodial, PaymentType, payment, TxMetadata,
  payment_triggering_transfer_to_non_custodial, transfer_to_non_custodial, id_key,
}
use libbtcwallet.Store.Kv.{KvStore, Codec}
use libbtcwallet.Store.Metadata.{TxMetadataStore}
use libbtcwallet.Wallet.Services.{
  Services, PaymentDetails, PaymentKind, bolt11, bolt11_jit, bolt12_offer, bolt12_refund, onchain,
  spontaneous, PaymentStatus, status_pending, status_succeeded, status_failed,
}
use libbtcwallet.Wallet.Lightning
use libbtcwallet.Wallet.Lightning.{status_of}
use libbtcwallet.Wallet.Custodial
use libbtcwallet.Wallet.Balance.{Tunables, get_balance_amt}
use libbtcwallet.Wallet.Pay.Recorded.{Writes, insert-Returns}
use libbtcwallet.Wallet.Rebalance.{
  Receipt, not_yet, lost, received, has_hash, receipt_of, find_receipt, keep_waiting, rebalanced,
  waiting, not_needed, no_invoice, unpaid, receipt_lost, Ended, await_receipt, assign_fees,
  after_wait, after_payment, pay_invoice, move_amount, do_custodial_rebalance,
}
use libbtcwallet.Wallet.Rebalance.Recording.{mark-Returns}

-- A payment of the kind `Bolt11` with the hash, in a list of payments.
pub record IsListed (hash : Bytes32) (ps : List PaymentDetails) (p : PaymentDetails) : Type 0 where
  pub listed : Mem p ps
  pub preimage : Option Bytes32
  pub same_hash : p.kind ≡ bolt11 hash preimage

-- What a look that ends the wait has seen.
abbrev Sees : Bytes32 → List PaymentDetails → Receipt → Type 0
Sees hash ps not_yet = Unit
Sees hash ps lost = (p : PaymentDetails) × IsListed hash ps p × (p.status ≡ status_failed)
Sees hash ps (received id) =
    (p : PaymentDetails) × IsListed hash ps p × (p.status ≡ status_succeeded) × (id ≡ p.id)

bolt11_hash :
    (hash : Bytes32) (k : PaymentKind)
    → has_hash hash k ≡ true
    → (preimage : Option Bytes32) × (k ≡ bolt11 hash preimage)
unfolding has_hash
bolt11_hash hash (bolt11 h preimage) e = (preimage, ap (λ b. bolt11 b preimage) (beq_eq h hash e))
bolt11_hash hash (bolt11_jit h preimage) e = cc
bolt11_hash hash (bolt12_offer preimage) e = cc
bolt11_hash hash (bolt12_refund preimage) e = cc
bolt11_hash hash (spontaneous preimage) e = cc
bolt11_hash hash onchain e = cc

seen_status :
    (hash : Bytes32) (ps : List PaymentDetails) (p : PaymentDetails) (status : PaymentStatus)
    → p.status ≡ status
    → IsListed hash ps p
    → Sees hash ps (receipt_of p.id (status_of status))
unfolding receipt_of status_of
seen_status hash ps p status_pending e l = tt
seen_status hash ps p status_succeeded e l = (p, l, e, refl)
seen_status hash ps p status_failed e l = (p, l, e)

seen_later :
    (hash : Bytes32) (q : PaymentDetails) (ps : List PaymentDetails) (r : Receipt)
    → Sees hash ps r
    → Sees hash (q ∷ ps) r
seen_later hash q ps not_yet s = tt
seen_later hash q ps lost (p, l, e) = (
  p,
  record { listed = mem-cons_of_mem q l.listed; preimage = l.preimage; same_hash = l.same_hash },
  e,
)
seen_later hash q ps (received id) (p, l, e, f) = (
  p,
  record { listed = mem-cons_of_mem q l.listed; preimage = l.preimage; same_hash = l.same_hash },
  e,
  f,
)

find_receipt-Sees :
    (hash : Bytes32) (ps : List PaymentDetails) → Sees hash ps (find_receipt hash ps)
unfolding find_receipt
find_receipt-Sees hash [] = tt
find_receipt-Sees hash (p ∷ ps) = elim (Bool-cases (has_hash hash p.kind)) [
  | inl e ↦
      let (preimage, same) = bolt11_hash hash p.kind e in
      rw e (
        seen_status hash (p ∷ ps) p p.status refl
          (record { listed = mem-cons_self; preimage = preimage; same_hash = same }))
  | inr e ↦ rw e (seen_later hash p ps (find_receipt hash ps) (find_receipt-Sees hash ps))
]

module _ {x : Externals} {ids : IdExternals} (s : Services x ids) where
  keep_waiting-Sees :
      (hash : Bytes32) (r : Receipt) (w : s.World) (later : Receipt × s.World)
      → Sees hash (s.list_payments w) r
      → Sees hash (s.list_payments later.1) later.0
      → Sees hash (s.list_payments (keep_waiting r w later).1) (keep_waiting r w later).0
  unfolding keep_waiting
  keep_waiting-Sees hash not_yet w later h k = k
  keep_waiting-Sees hash lost w later h k = h
  keep_waiting-Sees hash (received id) w later h k = h

  await_receipt-Sees :
      (fuel : ℕ) (hash : Bytes32) (w : s.World)
      → Sees hash (s.list_payments (await_receipt s fuel hash w).1) (await_receipt s fuel hash w).0
  unfolding await_receipt
  await_receipt-Sees zero hash w = tt
  await_receipt-Sees (suc fuel) hash w =
      keep_waiting-Sees hash _ w _ (find_receipt-Sees hash (s.list_payments w))
        (await_receipt-Sees fuel hash (s.next_receipt w))

module _ {x : Externals} {ids : IdExternals} (s : Services x ids) (codec : Codec ids) (kv : KvStore)
    (trigger : PaymentId ids) (time : ℕ) (ty : PaymentType) (tunables : Tunables) (w : s.World)
    (m : TxMetadataStore ids kv) where
  abbrev Marked : TxMetadata ids
  Marked = record { time = time; ty = payment_triggering_transfer_to_non_custodial ty }

  -- An amount moves, and our channels made an invoice for it.
  pub record Invoiced (inv : x.Bolt11Invoice) (w1 : s.World) : Type 0 where
    pub amt : Amount
    pub is_needed : get_balance_amt s tunables w ≡ some amt
    pub invoiced : Lightning.get_bolt11_invoice s w (some amt) ≡ (ok inv, w1)

  -- Custody paid the invoice, under the id.
  pub record Paid (inv : x.Bolt11Invoice) (a : ids.CustodialPaymentId) (w2 : s.World) : Type 0 where
    pub w1 : s.World
    pub invoice : Invoiced inv w1
    pub paid : Custodial.pay s w1 (lightning_bolt11 inv) invoice.amt ≡ (ok a, w2)

  pub data Moved : Ended s codec kv → Type 0 where
    nothing_to_move : get_balance_amt s tunables w ≡ none → Moved (not_needed, w, m)
    invoice_failed :
        {w1 : s.World} (amt : Amount) (e : s.NodeError)
        → get_balance_amt s tunables w ≡ some amt
        → Lightning.get_bolt11_invoice s w (some amt) ≡ (err e, w1)
        → Moved (no_invoice, w1, m)
    payment_failed :
        {w2 : s.World} (inv : x.Bolt11Invoice) (w1 : s.World) (i : Invoiced inv w1)
        (e : s.CustodialError)
        → Custodial.pay s w1 (lightning_bolt11 inv) i.amt ≡ (err e, w2)
        → Moved (unpaid, w2, m)
    still_waiting :
        {v w2 : s.World} (inv : x.Bolt11Invoice) (a : ids.CustodialPaymentId)
        → Paid inv a w2
        → Moved (waiting, v, m)
    receipt_failed :
        {v w2 : s.World} (inv : x.Bolt11Invoice) (a : ids.CustodialPaymentId) (p : PaymentDetails)
        → Paid inv a w2
        → IsListed (s.payment_hash inv) (s.list_payments v) p
        → p.status ≡ status_failed
        → Moved (receipt_lost, v, m)
    arrived :
        {v w2 : s.World} {m' : TxMetadataStore ids kv} (inv : x.Bolt11Invoice)
        (a : ids.CustodialPaymentId) (p : PaymentDetails)
        → Paid inv a w2
        → IsListed (s.payment_hash inv) (s.list_payments v) p
        → p.status ≡ status_succeeded
        → m'.tx_metadata
          ≡ put
              (id_key ids)
              (put
                (id_key ids)
                (put (id_key ids) m.tx_metadata trigger Marked)
                (custodial a)
                (record { time = s.now v; ty = transfer_to_non_custodial a p.id trigger }))
              (lightning p.id)
              (record { time = s.now v; ty = transfer_to_non_custodial a p.id trigger })
        → Moved (rebalanced a p.id, v, m')

  module _ (writes : Writes kv)
      (plain : get (id_key ids) m.tx_metadata trigger
        ≡ some (record { time = time; ty = payment ty })) where
    assign_fees-Moved :
        (inv : x.Bolt11Invoice) (a : ids.CustodialPaymentId) (w2 v : s.World) (p : PaymentDetails)
        → Paid inv a w2
        → IsListed (s.payment_hash inv) (s.list_payments v) p
        → p.status ≡ status_succeeded
        → Returns Moved (assign_fees s codec kv trigger a p.id v m)
    unfolding assign_fees
    assign_fees-Moved inv a w2 v p paid l e =
        Returns-bind (mark-Returns s codec kv trigger time ty m writes plain) λ marked e0.
          Returns-bind (insert-Returns codec kv writes marked (custodial a) _) λ m1 e1.
            Returns-bind (insert-Returns codec kv writes m1 (lightning p.id) _)
              λ m2 e2. returns (arrived inv a p paid l e (rw (e2, e1, e0)))

    after_wait-Moved :
        (inv : x.Bolt11Invoice) (a : ids.CustodialPaymentId) (w2 : s.World) (r : Receipt × s.World)
        → Paid inv a w2
        → Sees (s.payment_hash inv) (s.list_payments r.1) r.0
        → Returns Moved (after_wait s codec kv trigger a m r)
    unfolding after_wait
    after_wait-Moved inv a w2 (not_yet, v) paid h = returns (still_waiting inv a paid)
    after_wait-Moved inv a w2 (lost, v) paid (p, l, e) = returns (receipt_failed inv a p paid l e)
    after_wait-Moved inv a w2 (received b, v) paid (p, l, e, f) =
        rw f (assign_fees-Moved inv a w2 v p paid l e)

    after_payment-Moved :
        (fuel : ℕ) (inv : x.Bolt11Invoice) (w1 : s.World) (i : Invoiced inv w1)
        (r : Result s.CustodialError ids.CustodialPaymentId × s.World)
        → Custodial.pay s w1 (lightning_bolt11 inv) i.amt ≡ r
        → Returns Moved (after_payment s codec kv trigger fuel (s.payment_hash inv) m r)
    unfolding after_payment
    after_payment-Moved fuel inv w1 i (err e, w2) f = returns (payment_failed inv w1 i e f)
    after_payment-Moved fuel inv w1 i (ok a, w2) f =
        after_wait-Moved inv a w2 (await_receipt s fuel (s.payment_hash inv) w2)
          (record { w1 = w1; invoice = i; paid = f })
          (await_receipt-Sees s fuel (s.payment_hash inv) w2)

    pay_invoice-Moved :
        (fuel : ℕ) (amt : Amount) (r : Result s.NodeError x.Bolt11Invoice × s.World)
        → get_balance_amt s tunables w ≡ some amt
        → Lightning.get_bolt11_invoice s w (some amt) ≡ r
        → Returns Moved (pay_invoice s codec kv trigger fuel amt m r)
    unfolding pay_invoice
    pay_invoice-Moved fuel amt (err e, w1) n f = returns (invoice_failed amt e n f)
    pay_invoice-Moved fuel amt (ok inv, w1) n f =
        after_payment-Moved fuel inv w1 (record { amt = amt; is_needed = n; invoiced = f }) _ refl

    move_amount-Moved :
        (fuel : ℕ) (o : Option Amount)
        → get_balance_amt s tunables w ≡ o
        → Returns Moved (move_amount s codec kv trigger fuel w m o)
    unfolding move_amount
    move_amount-Moved fuel none n = returns (nothing_to_move n)
    move_amount-Moved fuel (some amt) n = pay_invoice-Moved fuel amt _ n refl

    -- For a trigger that is a plain payment, and a key-value store that takes every write, the
    -- rebalance does not panic, for any number of looks at the payments. Where there is nothing to
    -- move, our channels make no invoice, custody does not pay it, its payment shows as failed, or
    -- the rebalance waits, the store is as before. Else custody paid the invoice of our channels, a
    -- payment of the kind `Bolt11` with its hash is listed as succeeded, and three entries are set in
    -- this order: the trigger's, which is marked and keeps its type and time, and one for each of the
    -- ids of these two payments, both with both ids, the trigger and the time of the last look.
    pub do_custodial_rebalance-Moved :
        (fuel : ℕ) → Returns Moved (do_custodial_rebalance s codec kv trigger fuel tunables w m)
    unfolding do_custodial_rebalance
    do_custodial_rebalance-Moved fuel = move_amount-Moved fuel (get_balance_amt s tunables w) refl
