-- ===== src/Wallet/Rebalance/Waiting.antt =====
-- How long a rebalance waits for its payment.
use libbtcwallet.Wallet.Lightning.{status_of}
use libbtcwallet.Base.{
  beq_eq, beq_refl, inr, inl, ◌⊎◌, beq, Bool-cases, ◌++◌, Option, ℕ, zero, suc, ◌<◌, ◌≡◌, ◌≢◌, refl,
  arith, false, some, List, [], ◌∷◌, All, ok, done, panic, fail, ◌>>=◌,
}
use libbtcwallet.Amount.{Amount}
use libbtcwallet.Instructions.External.{Externals}
use libbtcwallet.Instructions.{lightning_bolt11}
use libbtcwallet.Store.{IdExternals, Bytes32, PaymentId}
use libbtcwallet.Store.Kv.{KvStore, Codec}
use libbtcwallet.Store.Metadata.{TxMetadataStore, set_tx_caused_rebalance}
use libbtcwallet.Wallet.Services.{
  status_failed, bolt11_jit, bolt12_offer, bolt12_refund, spontaneous, onchain, status_failed,
  status_succeeded, Services, PaymentDetails,
}
use libbtcwallet.Wallet.Lightning
use libbtcwallet.Wallet.Custodial
use libbtcwallet.Wallet.Balance.{Tunables, get_balance_amt}
use libbtcwallet.Wallet.Rebalance.{
  bolt11, PaymentKind, receipt_of, Receipt, not_yet, lost, received, has_hash, find_receipt,
  keep_waiting, await_receipt, waiting, assign_fees, after_wait, after_payment, pay_invoice,
  move_amount, do_custodial_rebalance,
}

shown :
    {W : Type 0} (r : Receipt) (w : W) (later : Receipt × W)
    → r ≢ not_yet
    → (keep_waiting r w later).0 ≢ not_yet
unfolding keep_waiting
shown not_yet w later h k = h refl
shown lost w later h k = cc
shown (received id) w later h k = cc

shown_later :
    {W : Type 0} (r : Receipt) (w : W) (later : Receipt × W)
    → later.0 ≢ not_yet
    → (keep_waiting r w later).0 ≢ not_yet
unfolding keep_waiting
shown_later not_yet w later h k = h k
shown_later lost w later h k = cc
shown_later (received id) w later h k = cc

-- The payment is of another kind than `Bolt11`, or has another hash.
abbrev pub IsElsewhere : Bytes32 → PaymentDetails → Type 0
IsElsewhere hash p = (h : Bytes32) (pre : Option Bytes32) → p.kind ≡ bolt11 h pre → h ≢ hash

no_hash :
    (hash : Bytes32) (k : PaymentKind)
    → ((h : Bytes32) (pre : Option Bytes32) → k ≡ bolt11 h pre → h ≢ hash)
    → has_hash hash k ≡ false
unfolding has_hash
no_hash hash (bolt11 h pre) ne = elim (Bool-cases (beq h hash)) [
  | inl e ↦ absurd (ne h pre refl (beq_eq h hash e))
  | inr e ↦ e
]
no_hash hash (bolt11_jit h pre) ne = refl
no_hash hash (bolt12_offer pre) ne = refl
no_hash hash (bolt12_refund pre) ne = refl
no_hash hash (spontaneous pre) ne = refl
no_hash hash onchain ne = refl

module _ {x : Externals} {ids : IdExternals} (s : Services x ids) where
  -- The world after so many received payments.
  unfoldable pub after : ℕ → s.World → s.World
  after zero w = w
  after (suc n) w = after n (s.next_receipt w)

  ends_once_found :
      (n fuel : ℕ) (hash : Bytes32) (w : s.World)
      → n < fuel
      → find_receipt hash (s.list_payments (after n w)) ≢ not_yet
      → (await_receipt s fuel hash w).0 ≢ not_yet
  unfolding await_receipt after keep_waiting
  ends_once_found n zero hash w h shows = absurd (omega arith)
  ends_once_found zero (suc fuel) hash w h shows =
      shown (find_receipt hash (s.list_payments w)) w _ shows
  ends_once_found (suc n) (suc fuel) hash w h shows =
      shown_later (find_receipt hash (s.list_payments w)) w _
        (ends_once_found n fuel hash (s.next_receipt w) (omega arith) shows)

  IsElsewhere-has_hash :
      (hash : Bytes32) (p : PaymentDetails) → IsElsewhere hash p → has_hash hash p.kind ≡ false
  IsElsewhere-has_hash hash p h = no_hash hash p.kind h

  pub found :
      (hash : Bytes32) (pre : Option Bytes32) (before later : List PaymentDetails)
      (p : PaymentDetails)
      → All (IsElsewhere hash) before
      → p.kind ≡ bolt11 hash pre
      → (p.status ≡ status_succeeded) ⊎ (p.status ≡ status_failed)
      → find_receipt hash (before ++ p ∷ later) ≢ not_yet
  unfolding find_receipt receipt_of status_of has_hash
  found hash pre [] later p h k (inl e) = rw (k, beq_refl hash, e) λ f. cc
  found hash pre [] later p h k (inr e) = rw (k, beq_refl hash, e) λ f. cc
  found hash pre (q ∷ before) later p (f, h) k over =
      rw (IsElsewhere-has_hash hash q f) (found hash pre before later p h k over)

  -- If after n received payments the payments that the node lists hold one of the kind `Bolt11` with
  -- the hash that completed or failed, and none of that kind with the hash before it, the wait ends
  -- for any fuel above n.
  pub await_receipt_ends :
      (n fuel : ℕ) (hash : Bytes32) (pre : Option Bytes32) (w : s.World)
      (before later : List PaymentDetails) (p : PaymentDetails)
      → n < fuel
      → s.list_payments (after n w) ≡ before ++ p ∷ later
      → All (IsElsewhere hash) before
      → p.kind ≡ bolt11 hash pre
      → (p.status ≡ status_succeeded) ⊎ (p.status ≡ status_failed)
      → (await_receipt s fuel hash w).0 ≢ not_yet
  await_receipt_ends n fuel hash pre w before later p h e elsewhere k over =
      ends_once_found n fuel hash w h (rw e (found hash pre before later p elsewhere k over))

  no_receipt :
      (hash : Bytes32) (ps : List PaymentDetails)
      → All (IsElsewhere hash) ps
      → find_receipt hash ps ≡ not_yet
  unfolding find_receipt
  no_receipt hash [] h = refl
  no_receipt hash (p ∷ ps) (e, h) = rw (IsElsewhere-has_hash hash p e) (no_receipt hash ps h)

  never_shows :
      (fuel : ℕ) (hash : Bytes32) (w : s.World)
      → ((n : ℕ) → All (IsElsewhere hash) (s.list_payments (after n w)))
      → (await_receipt s fuel hash w).0 ≡ not_yet
  unfolding await_receipt after keep_waiting
  never_shows zero hash w h = refl
  never_shows (suc fuel) hash w h =
      rw (no_receipt hash (s.list_payments w) (h 0))
        (never_shows fuel hash (s.next_receipt w) (λ n. h (suc n)))

  module _ (codec : Codec ids) (kv : KvStore) (trigger : PaymentId ids) where
    waits :
        (id : ids.CustodialPaymentId) (m : TxMetadataStore ids kv) (r : Receipt × s.World)
        → r.0 ≡ not_yet
        → (v : s.World) × (after_wait s codec kv trigger id m r ≡ done (waiting, v, m))
    unfolding after_wait
    waits id m (not_yet, w) h = (w, refl)
    waits id m (lost, w) h = cc
    waits id m (received b, w) h = cc

    -- If custody paid the invoice, and no payment that the node lists is ever of the kind `Bolt11` with
    -- its hash, whatever payments of other kinds there are, also with the hash, as one that arrived
    -- through a channel opened just in time (`Bolt11Jit`), the rebalance is still waiting after any
    -- number of looks, and has recorded nothing.
    pub do_custodial_rebalance_waits :
        (tunables : Tunables) (w w1 w2 : s.World) (m : TxMetadataStore ids kv) (amt : Amount)
        (inv : x.Bolt11Invoice) (id : ids.CustodialPaymentId)
        → get_balance_amt s tunables w ≡ some amt
        → Lightning.get_bolt11_invoice s w (some amt) ≡ (ok inv, w1)
        → Custodial.pay s w1 (lightning_bolt11 inv) amt ≡ (ok id, w2)
        → ((n : ℕ) → All (IsElsewhere (s.payment_hash inv)) (s.list_payments (after n w2)))
        → (fuel : ℕ)
        → (v : s.World) × (do_custodial_rebalance s codec kv trigger fuel tunables w m
            ≡ done (waiting, v, m))
    unfolding do_custodial_rebalance move_amount pay_invoice after_payment
    do_custodial_rebalance_waits tunables w w1 w2 m amt inv id e1 e2 e3 h fuel =
        rw (e1, e2, e3) (waits id m _ (never_shows fuel (s.payment_hash inv) w2 h))

    -- If custody paid the invoice and the payment arrived, but the triggering transaction cannot be
    -- marked, the rebalance panics.
    pub do_custodial_rebalance_panics :
        (tunables : Tunables) (fuel : ℕ) (w w1 w2 w3 : s.World) (m : TxMetadataStore ids kv)
        (amt : Amount) (inv : x.Bolt11Invoice) (id : ids.CustodialPaymentId) (b : Bytes32)
        → get_balance_amt s tunables w ≡ some amt
        → Lightning.get_bolt11_invoice s w (some amt) ≡ (ok inv, w1)
        → Custodial.pay s w1 (lightning_bolt11 inv) amt ≡ (ok id, w2)
        → await_receipt s fuel (s.payment_hash inv) w2 ≡ (received b, w3)
        → set_tx_caused_rebalance codec kv m trigger ≡ fail tt
        → do_custodial_rebalance s codec kv trigger fuel tunables w m ≡ panic
    unfolding do_custodial_rebalance move_amount pay_invoice after_payment after_wait assign_fees
        ◌>>=◌
    do_custodial_rebalance_panics tunables fuel w w1 w2 w3 m amt inv id b e1 e2 e3 e4 e5 =
        rw (e1, e2, e3, e4, e5)
