-- ===== src/Wallet/Polling/Victims.antt =====
-- The payment that a rebalance is charged to.
use libbtcwallet.Base.{
  IfSome, ℕ, ◌≡◌, refl, Option, none, some, List, [], ◌∷◌, All, All-map, All-append, Returns,
  returns, Returns-bind, Returns-either, Returns-map, get, put, get-put, Bool-cases, inl, inr, ltb,
  ◌==◌, ◌||◌, ◌&&◌,
}
use libbtcwallet.Amount.{Amount}
use libbtcwallet.Store.{
  IdExternals, custodial, PaymentType, incoming_lightning, payment,
  payment_triggering_transfer_to_non_custodial, transfer_to_non_custodial, TxType, TxMetadata,
  id_key, same_id, same_id_self,
}
use libbtcwallet.Store.Kv.{KvStore, Codec}
use libbtcwallet.Store.Metadata.{TxMetadataStore}
use libbtcwallet.Wallet.Custodial.{Payment}
use libbtcwallet.Wallet.Pay.Recorded.{Writes, insert-Returns}
use libbtcwallet.Wallet.Polling.{
  PollState, newer, see_known, see_inbound, see_payments, smaller_txn, smallest, pick, victim,
}

module _ {ids : IdExternals} (codec : Codec ids) (kv : KvStore) where
  -- The custodial payment is recorded as a plain payment, which a rebalance can be charged to.
  abbrev pub IsPlain : TxMetadataStore ids kv → ids.CustodialPaymentId → Type 0
  IsPlain m id =
      (time : ℕ) × (ty : PaymentType) × (get (id_key ids) m.tx_metadata (custodial id)
        ≡ some (record { time = time; ty = payment ty }))

  abbrev LatestIsPlain : TxMetadataStore ids kv → Option (ℕ × ids.CustodialPaymentId) → Type 0
  LatestIsPlain m none = Unit
  LatestIsPlain m (some (_, id)) = IsPlain m id

  record Candidates (st : PollState codec kv) : Type 0 where
    fresh : All (λ t. IsPlain st.tx_metadata t.1) st.new_txn
    latest : LatestIsPlain st.tx_metadata st.latest_tx

  put-IsPlain :
      (m m' : TxMetadataStore ids kv) (now : ℕ) (id j : ids.CustodialPaymentId)
      → m'.tx_metadata
        ≡ put
            (id_key ids)
            m.tx_metadata
            (custodial id)
            (record { time = now; ty = payment incoming_lightning })
      → IsPlain m j
      → IsPlain m' j
  put-IsPlain m m' now id j e (time, ty, h) =
      elim (Bool-cases (same_id ids (custodial id) (custodial j))) [
        | inl same ↦ (
          now,
          incoming_lightning,
          rw (e, get-put (id_key ids) m.tx_metadata (custodial id) (custodial j) _, same),
        )
        | inr other ↦ (
          time,
          ty,
          rw (e, get-put (id_key ids) m.tx_metadata (custodial id) (custodial j) _, other) h,
        )
      ]

  newer-IsPlain :
      (m : TxMetadataStore ids kv) (o : Option (ℕ × ids.CustodialPaymentId)) (time : ℕ)
      (id : ids.CustodialPaymentId)
      → LatestIsPlain m o
      → IsPlain m id
      → LatestIsPlain m (newer codec kv o time id)
  unfolding newer
  newer-IsPlain m none time id h k = k
  newer-IsPlain m (some (t, i)) time id h k = elim (Bool-cases (ltb t time)) [
    | inl e ↦ rw e k
    | inr e ↦ rw e h
  ]

  see_known-Candidates :
      (ty : TxType ids) (time : ℕ) (id : ids.CustodialPaymentId) (st : PollState codec kv)
      → get (id_key ids) st.tx_metadata.tx_metadata (custodial id)
        ≡ some (record { time = time; ty = ty })
      → Candidates st
      → Candidates (see_known codec kv ty time id st)
  unfolding see_known
  see_known-Candidates (payment ty) time id st e c = record {
    fresh = c.fresh;
    latest = newer-IsPlain st.tx_metadata st.latest_tx time id c.latest (time, ty, e);
  }
  see_known-Candidates (payment_triggering_transfer_to_non_custodial ty) time id st e c = c
  see_known-Candidates (transfer_to_non_custodial a b d) time id st e c = c

  put-LatestIsPlain :
      (m m' : TxMetadataStore ids kv) (now : ℕ) (id : ids.CustodialPaymentId)
      (o : Option (ℕ × ids.CustodialPaymentId))
      → m'.tx_metadata
        ≡ put
            (id_key ids)
            m.tx_metadata
            (custodial id)
            (record { time = now; ty = payment incoming_lightning })
      → LatestIsPlain m o
      → LatestIsPlain m' o
  put-LatestIsPlain m m' now id none e h = tt
  put-LatestIsPlain m m' now id (some (_, j)) e h = put-IsPlain m m' now id j e h

  put_self-IsPlain :
      (m m' : TxMetadataStore ids kv) (now : ℕ) (id : ids.CustodialPaymentId)
      → m'.tx_metadata
        ≡ put
            (id_key ids)
            m.tx_metadata
            (custodial id)
            (record { time = now; ty = payment incoming_lightning })
      → IsPlain m' id
  put_self-IsPlain m m' now id e = (
    now,
    incoming_lightning,
    rw (
      e,
      get-put (id_key ids) m.tx_metadata (custodial id) (custodial id) _,
      same_id_self ids (custodial id),
    ),
  )

  module _ (writes : Writes kv) (now : ℕ) where
    see_inbound-Candidates :
        (p : Payment ids) (o : Option (TxMetadata ids)) (st : PollState codec kv)
        → get (id_key ids) st.tx_metadata.tx_metadata (custodial p.id) ≡ o
        → Candidates st
        → Returns Candidates (see_inbound codec kv now p o st)
    unfolding see_inbound
    see_inbound-Candidates p none st e c =
        Returns-bind (insert-Returns codec kv writes st.tx_metadata (custodial p.id) _) λ m f.
          returns (record {
            fresh =
                All-append _ st.new_txn ((p.amount, p.id) ∷ [])
                  (All-map (λ t h. put-IsPlain st.tx_metadata m now p.id t.1 f h) st.new_txn
                    c.fresh)
                  (put_self-IsPlain st.tx_metadata m now p.id f, tt);
            latest = put-LatestIsPlain st.tx_metadata m now p.id st.latest_tx f c.latest;
          })
    see_inbound-Candidates p (some md) st e c =
        returns (see_known-Candidates md.ty md.time p.id st e c)

    see_payments-Candidates :
        (ps : List (Payment ids)) (st : PollState codec kv)
        → Candidates st
        → Returns Candidates (see_payments codec kv now ps st)
    unfolding see_payments
    see_payments-Candidates [] st c = returns c
    see_payments-Candidates (p ∷ ps) st c =
        Returns-bind (Returns-either p.outbound (returns c) (see_inbound-Candidates p _ st refl c))
          (see_payments-Candidates ps)

  module _ (P : Amount × ids.CustodialPaymentId → Type 0) where
    smaller-IfSome :
        (t : Amount × ids.CustodialPaymentId) (o : Option (Amount × ids.CustodialPaymentId))
        → P t
        → IfSome P o
        → P (smaller_txn codec kv t o)
    unfolding smaller_txn
    smaller-IfSome t none h k = h
    smaller-IfSome (a, i) (some (b, j)) h k =
        elim (Bool-cases (ltb b a || ((b == a) && ids.uuid_lt j i))) [
          | inl e ↦ rw e k
          | inr e ↦ rw e h
        ]

    smallest-IfSome :
        (ts : List (Amount × ids.CustodialPaymentId)) → All P ts → IfSome P (smallest codec kv ts)
    unfolding smallest
    smallest-IfSome [] h = tt
    smallest-IfSome (t ∷ ts) (h, hs) =
        smaller-IfSome t (smallest codec kv ts) h (smallest-IfSome ts hs)

  pick-IfSome :
      (m : TxMetadataStore ids kv) (o : Option (Amount × ids.CustodialPaymentId))
      (l : Option (ℕ × ids.CustodialPaymentId))
      → IfSome (λ t. IsPlain m t.1) o
      → LatestIsPlain m l
      → IfSome (IsPlain m) (pick codec kv o l)
  unfolding pick
  pick-IfSome m (some (_, id)) l h k = h
  pick-IfSome m none (some (_, id)) h k = k
  pick-IfSome m none none h k = tt

  abbrev pub at_start : TxMetadataStore ids kv → PollState codec kv
  at_start m = record { new_txn = []; latest_tx = none; tx_metadata = m }

  -- When the key-value store takes every write, looking through the payments of custody returns, and
  -- the payment that is then picked, if there is one, is recorded as a plain payment, so that a
  -- rebalance can be charged to it.
  pub see_payments-victim :
      (writes : Writes kv) (now : ℕ) (ps : List (Payment ids)) (m : TxMetadataStore ids kv)
      → Returns
          (λ st. IfSome (IsPlain st.tx_metadata) (victim codec kv st))
          (see_payments codec kv now ps (at_start m))
  unfolding victim
  see_payments-victim writes now ps m =
      Returns-map
        (λ st c.
          pick-IfSome st.tx_metadata _ st.latest_tx
            (smallest-IfSome (λ t. IsPlain st.tx_metadata t.1) st.new_txn c.fresh) c.latest)
        (see_payments-Candidates writes now ps (at_start m) (record { fresh = tt; latest = tt }))
