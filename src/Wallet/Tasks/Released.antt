-- ===== src/Wallet/Tasks/Released.antt =====
-- The lock of rebalances gets free once a received payment wakes the one that holds it.
use libbtcwallet.Base.{
  ◌≡◌, ◌≢◌, ◌⊎◌, refl, false, Option, List, ◌∷◌, ◌++◌, All, Bool-cases, inl, inr, Outcome, done,
  Returns, returns,
}
use libbtcwallet.Instructions.External.{Externals}
use libbtcwallet.Store.{IdExternals, Bytes32}
use libbtcwallet.Store.Kv.{KvStore, Codec}
use libbtcwallet.Store.Metadata.{TxMetadataStore}
use libbtcwallet.Wallet.Services.{Services, PaymentDetails, bolt11, status_succeeded, status_failed}
use libbtcwallet.Wallet.Balance.{Tunables}
use libbtcwallet.Wallet.Pay.Recorded.{Writes}
use libbtcwallet.Wallet.Rebalance.{Receipt, not_yet, lost, received, find_receipt}
use libbtcwallet.Wallet.Rebalance.Recording.{assign_fees-Accounted}
use libbtcwallet.Wallet.Rebalance.Waiting.{IsElsewhere, found}
use libbtcwallet.Wallet.Tasks.{
  Mover, Running, just_opened, release, awaiting, outside, wakes, loses, assigns, TaskSteps, stay,
  also,
}
use libbtcwallet.Wallet.Tasks.Chargeable.{CanMark}
use libbtcwallet.Wallet.Tasks.Chargeable.Moves.{HaveOwnIds, mover-CanMark}
use libbtcwallet.Wallet.Tasks.Chargeable.Marked.{steps-Chargeable}

returned {ℓ κ μ} :
    {E : Type ℓ} {A : Type κ} {P : A → Type μ} {o : Outcome E A}
    → Returns P o
    → (a : A) × (o ≡ done a)
returned (returns {a = a} h) = (a, refl)

module _ {x : Externals} {ids : IdExternals} (s : Services x ids) (codec : Codec ids) (kv : KvStore)
    (tunables : Tunables) where
  -- Steps lead to a state with the lock free, in which the same rebalances wait for it.
  abbrev pub IsReleased : Running s codec kv tunables → Type 0
  IsReleased r =
      (r' : Running s codec kv tunables) × TaskSteps s codec kv tunables r r'
      × (r'.balance_mutex ≡ false)
      × (r'.queued ≡ r.queued)

  -- The node lists a payment of the kind `Bolt11` with the hash that succeeded or failed, and none of
  -- that kind with the hash before it.
  pub record Shows (hash : Bytes32) (ps : List PaymentDetails) : Type 0 where
    pub before : List PaymentDetails
    pub payment : PaymentDetails
    pub later : List PaymentDetails
    pub listed : ps ≡ before ++ payment ∷ later
    pub elsewhere : All (IsElsewhere hash) before
    pub preimage : Option Bytes32
    pub same_hash : payment.kind ≡ bolt11 hash preimage
    pub is_over : (payment.status ≡ status_succeeded) ⊎ (payment.status ≡ status_failed)

  Shows-find_receipt :
      (hash : Bytes32) (ps : List PaymentDetails) → Shows hash ps → find_receipt hash ps ≢ not_yet
  Shows-find_receipt hash ps h =
      rw h.listed
        (found s hash h.preimage h.before h.later h.payment h.elsewhere h.same_hash h.is_over)

  module _ (writes : Writes kv) (r r0 : Running s codec kv tunables)
      (run : TaskSteps s codec kv tunables r r0) (same_queue : r0.queued ≡ r.queued)
      (before after : List (Mover ids)) (t : Mover ids) (q : r0.moving ≡ before ++ t ∷ after)
      (looking : t.is_awaiting ≡ false)
      (can : CanMark r0.tx_metadata.tx_metadata t.task.trigger) where
    looking-IsReleased :
        (rc : Receipt)
        → find_receipt t.expected_hash (s.list_payments r0.world) ≡ rc
        → rc ≢ not_yet
        → IsReleased r
    unfolding release
    looking-IsReleased not_yet shows over = absurd (over refl)
    looking-IsReleased lost shows over =
        (_, also run (loses before after t q looking shows), refl, same_queue)
    looking-IsReleased (received l) shows over =
        let ((e, v, m), assigned) = returned (
          assign_fees-Accounted s codec kv t.task.trigger can.0 can.1 r0.tx_metadata writes can.2
            t.rebalance_id l r0.world) in
        (_, also run (assigns before after t l e v m q looking shows assigned), refl, same_queue)

  -- From the start of the wallet, whatever its tasks did and in any order, if the key-value store takes
  -- every write and each payment and each rebalance got ids that no rebalance under way was charged
  -- to: if in some world a payment is received, and then the one that a rebalance past the lock waits
  -- for is listed with the kind `Bolt11` as succeeded or failed, steps are possible that free the lock
  -- for those that wait for it, also from within the wait for a receipt.
  pub steps-IsReleased :
      (writes : Writes kv) (w : s.World) (m : TxMetadataStore ids kv)
      (r : Running s codec kv tunables)
      (run : TaskSteps s codec kv tunables (just_opened s codec kv tunables w m) r)
      (before after : List (Mover ids)) (t : Mover ids) (v : s.World)
      → HaveOwnIds s codec kv tunables run
      → r.moving ≡ before ++ t ∷ after
      → Shows t.expected_hash (s.list_payments (s.next_receipt v))
      → IsReleased r
  steps-IsReleased writes w m r run before after t v own q shows =
      let can =
        mover-CanMark s codec kv tunables writes before after t r q
          (steps-Chargeable s codec kv tunables writes w m run own) in
      let over = Shows-find_receipt t.expected_hash _ shows in
      elim (Bool-cases t.is_awaiting) [
        | inl waits ↦
            looking-IsReleased writes r _
              (also (also stay (outside v)) (wakes before after t q waits)) refl before after
              (awaiting s codec kv tunables false t) refl refl can _ refl over
        | inr looks ↦
            looking-IsReleased writes r _ (also stay (outside (s.next_receipt v))) refl before after
              t q looks can _ refl over
      ]
