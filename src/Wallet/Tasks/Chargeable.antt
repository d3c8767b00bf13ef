-- ===== src/Wallet/Tasks/Chargeable.antt =====
-- The transaction that a rebalance under way is charged to can be marked.
pub mod Lists
pub mod Moves
pub mod Marked
use libbtcwallet.Base.{
  ℕ, ◌≡◌, false, Option, none, some, List, [], ◌∷◌, HashMap, get, put, get-put, Bool-cases, inl,
  inr, Returns, returns, Returns-bind, Returns-either,
}
use libbtcwallet.Instructions.External.{Externals}
use libbtcwallet.Store.{
  IdExternals, PaymentId, lightning, custodial, PaymentType, TxMetadata, TxType, payment, id_key,
  same_id, same_id_self, transfer_to_non_custodial, Bytes32,
  payment_triggering_transfer_to_non_custodial,
}
use libbtcwallet.Store.Kv.{KvStore, Codec}
use libbtcwallet.Store.Metadata.{TxMetadataStore}
use libbtcwallet.Wallet.Services.{Services}
use libbtcwallet.Wallet.Custodial.{Payment}
use libbtcwallet.Wallet.Pay.Recorded.{
  Writes, insert-Returns, Settled, settled_unpaid, settled_by_custody, settled_by_channels,
}
use libbtcwallet.Wallet.Polling.{see_known, PollState, see_inbound, see_payments}
use libbtcwallet.Wallet.Rebalance.{assign_fees}
use libbtcwallet.Wallet.Rebalance.Recording.{mark-Returns}

-- The transaction is recorded as a plain payment, so it can be marked.
abbrev pub CanMark :
    {ids : IdExternals} → HashMap (PaymentId ids) (TxMetadata ids) → PaymentId ids → Type 0
CanMark {ids = ids} m id =
    (time : ℕ) × (ty : PaymentType) × (get (id_key ids) m id
      ≡ some (record { time = time; ty = payment ty }))

module _ {ids : IdExternals} where
  put-CanMark :
      (m : HashMap (PaymentId ids) (TxMetadata ids)) (id j : PaymentId ids) (time : ℕ)
      (ty : PaymentType)
      → CanMark m j
      → CanMark (put (id_key ids) m id (record { time = time; ty = payment ty })) j
  put-CanMark m id j time ty (t, u, h) = elim (Bool-cases (same_id ids id j)) [
    | inl same ↦ (time, ty, rw (get-put (id_key ids) m id j _, same))
    | inr other ↦ (t, u, rw (get-put (id_key ids) m id j _, other) h)
  ]

  pub put_self-CanMark :
      (m : HashMap (PaymentId ids) (TxMetadata ids)) (id : PaymentId ids) (time : ℕ)
      (ty : PaymentType)
      → CanMark (put (id_key ids) m id (record { time = time; ty = payment ty })) id
  put_self-CanMark m id time ty =
      (time, ty, rw (get-put (id_key ids) m id id _, same_id_self ids id))

  -- A write under another id leaves it.
  put_other-CanMark :
      (m : HashMap (PaymentId ids) (TxMetadata ids)) (id j : PaymentId ids) (v : TxMetadata ids)
      → same_id ids id j ≡ false
      → CanMark m j
      → CanMark (put (id_key ids) m id v) j
  put_other-CanMark m id j v other (t, u, h) = (t, u, rw (get-put (id_key ids) m id j _, other) h)

module _ {ids : IdExternals} (codec : Codec ids) (kv : KvStore) (writes : Writes kv)
    (j : PaymentId ids) where
  abbrev Stays : TxMetadataStore ids kv → TxMetadataStore ids kv → Type 0
  Stays m m' = CanMark m.tx_metadata j → CanMark m'.tx_metadata j

  see_known-CanMark :
      (ty : TxType ids) (time : ℕ) (id : ids.CustodialPaymentId) (st : PollState codec kv)
      → CanMark st.tx_metadata.tx_metadata j
      → CanMark (see_known codec kv ty time id st).tx_metadata.tx_metadata j
  unfolding see_known
  see_known-CanMark (payment ty) time id st h = h
  see_known-CanMark (payment_triggering_transfer_to_non_custodial ty) time id st h = h
  see_known-CanMark (transfer_to_non_custodial a b c) time id st h = h

  see_inbound-CanMark :
      (now : ℕ) (p : Payment ids) (o : Option (TxMetadata ids)) (st : PollState codec kv)
      → CanMark st.tx_metadata.tx_metadata j
      → Returns (λ st'. CanMark st'.tx_metadata.tx_metadata j) (see_inbound codec kv now p o st)
  unfolding see_inbound
  see_inbound-CanMark now p none st h =
      Returns-bind (insert-Returns codec kv writes st.tx_metadata (custodial p.id) _)
        λ m e. returns (rw e (put-CanMark st.tx_metadata.tx_metadata (custodial p.id) j now _ h))
  see_inbound-CanMark now p (some md) st h = returns (see_known-CanMark md.ty md.time p.id st h)

  pub see_payments-CanMark :
      (now : ℕ) (ps : List (Payment ids)) (st : PollState codec kv)
      → CanMark st.tx_metadata.tx_metadata j
      → Returns (λ st'. CanMark st'.tx_metadata.tx_metadata j) (see_payments codec kv now ps st)
  unfolding see_payments
  see_payments-CanMark now [] st h = returns h
  see_payments-CanMark now (p ∷ ps) st h =
      Returns-bind (Returns-either p.outbound (returns h) (see_inbound-CanMark now p _ st h))
        (see_payments-CanMark now ps)

module _ {x : Externals} {ids : IdExternals} (s : Services x ids) (codec : Codec ids)
    (kv : KvStore) where
  -- `pay` only records plain payments.
  pub Settled-CanMark :
      (m : TxMetadataStore ids kv) (r : _) (j : PaymentId ids)
      → Settled s codec kv m r
      → CanMark m.tx_metadata j
      → CanMark r.1.tx_metadata.tx_metadata j
  Settled-CanMark m r j (settled_unpaid e f) h = rw e h
  Settled-CanMark m r j (settled_by_custody id w ty e f) h =
      rw e (put-CanMark m.tx_metadata (custodial id) j _ _ h)
  Settled-CanMark m r j (settled_by_channels id w ty e f) h =
      rw e (put-CanMark m.tx_metadata (lightning id) j _ _ h)

  -- The end of a rebalance takes it from its own trigger only, if its halves have ids of their own.
  pub assign_fees-CanMark :
      (writes : Writes kv) (trigger : PaymentId ids) (a : ids.CustodialPaymentId) (b : Bytes32)
      (w : s.World) (m : TxMetadataStore ids kv) (j : PaymentId ids)
      → CanMark m.tx_metadata trigger
      → same_id ids trigger j ≡ false
      → same_id ids (custodial a) j ≡ false
      → same_id ids (lightning b) j ≡ false
      → CanMark m.tx_metadata j
      → Returns (λ r. CanMark r.2.tx_metadata j) (assign_fees s codec kv trigger a b w m)
  unfolding assign_fees
  assign_fees-CanMark writes trigger a b w m j (time, ty, plain) ne ne_a ne_b h =
      Returns-bind (mark-Returns s codec kv trigger time ty m writes plain) λ marked e.
        Returns-bind (insert-Returns codec kv writes marked (custodial a) _) λ m1 e1.
          Returns-bind (insert-Returns codec kv writes m1 (lightning b) _) λ m2 e2. returns (
            rw (e2, e1, e)
              (put_other-CanMark _ (lightning b) j _ ne_b (
                put_other-CanMark _ (custodial a) j _ ne_a
                  (put_other-CanMark m.tx_metadata trigger j _ ne h))))
