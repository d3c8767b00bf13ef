-- ===== src/Wallet/Pay/Recorded.antt =====
-- What `Wallet::pay` leaves in the metadata store, when the key-value store takes every write.
use libbtcwallet.Base.{
  ap, ◌∙◌, ◌≡◌, refl, Bool, true, false, some, [], ◌∷◌, Result, ok, err, done, Returns, returns,
  Returns-bind, Returns-guarded, if◌then◌else◌, leb, Bytes, put,
}
use libbtcwallet.Amount.{Amount, saturating_add}
use libbtcwallet.Instructions.External.{Externals}
use libbtcwallet.Instructions.{PaymentMethod}
use libbtcwallet.Store.{
  IdExternals, PaymentId, Bytes32, PaymentType, TxMetadata, id_key, lightning, custodial,
}
use libbtcwallet.Store.Kv.{KvStore, Codec}
use libbtcwallet.Store.Metadata.{TxMetadataStore, do_set, insert, upsert, expect}
use libbtcwallet.Wallet.Services.{Services}
use libbtcwallet.Wallet.Lightning
use libbtcwallet.Wallet.Custodial
use libbtcwallet.Wallet.Info.{PaymentInfo}
use libbtcwallet.Wallet.Errors.{WalletError}
use libbtcwallet.Wallet.Pay.{
  PayState, metadata_now, last_error, before, pay, pay_custodial, pay_lightning, custodial_paid,
  custodial_funded, lightning_paid, lightning_funded,
}
use libbtcwallet.Wallet.Pay.Chains.{Chain, try_all-Returns}

abbrev pub Writes : KvStore → Type 0
Writes kv = (st : kv.State) (k v : Bytes) → (st' : kv.State) × (kv.write st k v ≡ some st')

module _ {ids : IdExternals} (codec : Codec ids) (kv : KvStore) (writes : Writes kv) where
  expect-write :
      (st : kv.State) (k v : Bytes)
      → Returns {E = Unit {0}} (λ _. Unit {0}) (expect (kv.write st k v))
  expect-write st k v = rw (writes st k v).1 (returns tt)

  abbrev Put :
      TxMetadataStore ids kv → PaymentId ids → TxMetadata ids → TxMetadataStore ids kv → Type 0
  Put m id value m' = m'.tx_metadata ≡ put (id_key ids) m.tx_metadata id value

  do_set-Returns :
      (m : TxMetadataStore ids kv) (id : PaymentId ids) (value : TxMetadata ids)
      → Returns (λ r. Put m id value r.1) (do_set codec kv m id value)
  unfolding do_set
  do_set-Returns m id value = Returns-bind (expect-write m.store _ _) λ t _. returns refl

  pub insert-Returns :
      (m : TxMetadataStore ids kv) (id : PaymentId ids) (value : TxMetadata ids)
      → Returns (Put m id value) (insert codec kv m id value)
  unfolding insert
  insert-Returns m id value = Returns-bind (do_set-Returns m id value) λ r e. returns e

  pub upsert-Returns :
      (m : TxMetadataStore ids kv) (id : PaymentId ids) (value : TxMetadata ids)
      → Returns (Put m id value) (upsert codec kv m id value)
  unfolding upsert
  upsert-Returns m id value = Returns-bind (do_set-Returns m id value) λ r e. returns e

module _ {x : Externals} {ids : IdExternals} (s : Services x ids) (codec : Codec ids)
    (kv : KvStore) where
  -- A payment sets one entry, to a plain payment with a time, and starts a rebalancing task only if
  -- it left over our channels; a failed attempt changes nothing but the world and the last errors.
  pub data Recorded (st : PayState s codec kv) : Bool × PayState s codec kv → Type 0 where
    unpaid :
        {st' : PayState s codec kv}
        → st'.tx_metadata ≡ st.tx_metadata
        → st'.spawned ≡ st.spawned
        → Recorded st (false, st')
    by_custody :
        {st' : PayState s codec kv} (id : ids.CustodialPaymentId) (w : s.World) (ty : PaymentType)
        → st'.tx_metadata.tx_metadata
          ≡ put
              (id_key ids)
              st.tx_metadata.tx_metadata
              (custodial id)
              (metadata_now s codec kv w ty)
        → st'.spawned ≡ st.spawned
        → Recorded st (true, st')
    by_channels :
        {st' : PayState s codec kv} (id : Bytes32) (w : s.World) (ty : PaymentType)
        → st'.tx_metadata.tx_metadata
          ≡ put
              (id_key ids)
              st.tx_metadata.tx_metadata
              (lightning id)
              (metadata_now s codec kv w ty)
        → st'.spawned ≡ lightning id ∷ st.spawned
        → Recorded st (true, st')

  Recorded-after :
      (st st' : PayState s codec kv) (r : Bool × PayState s codec kv)
      → Recorded st (false, st')
      → Recorded st' r
      → Recorded st r
  Recorded-after st st' r (unpaid e f) (unpaid g h) = unpaid (g ∙ e) (h ∙ f)
  Recorded-after st st' r (unpaid e f) (by_custody id w ty g h) =
      by_custody id w ty
        (g
          ∙ ap
              (λ (m : TxMetadataStore ids kv).
                put (id_key ids) m.tx_metadata (custodial id) (metadata_now s codec kv w ty))
              e)
        (h ∙ f)
  Recorded-after st st' r (unpaid e f) (by_channels id w ty g h) =
      by_channels id w ty
        (g
          ∙ ap
              (λ (m : TxMetadataStore ids kv).
                put (id_key ids) m.tx_metadata (lightning id) (metadata_now s codec kv w ty))
              e)
        (h ∙ ap (λ l. lightning id ∷ l) f)

  Recorded-Chain : Chain s codec kv Recorded
  Recorded-Chain = record { idle = λ st. unpaid refl refl; after = Recorded-after }

  module _ (writes : Writes kv) (amount custodial_balance available_ln : Amount) where
    custodial_paid-Recorded :
        (ty : PaymentType) (st : PayState s codec kv)
        (r : Result s.CustodialError ids.CustodialPaymentId × s.World)
        → Returns
            (Recorded st)
            (custodial_paid s codec kv amount custodial_balance available_ln ty st r)
    unfolding custodial_paid
    custodial_paid-Recorded ty st (ok id, w) =
        Returns-bind (insert-Returns codec kv writes st.tx_metadata (custodial id) _)
          λ m e. returns (by_custody id w ty e refl)
    custodial_paid-Recorded ty st (err e, w) = returns (unpaid refl refl)

    lightning_paid-Recorded :
        (ty : PaymentType) (st : PayState s codec kv) (r : Result s.NodeError Bytes32 × s.World)
        → Returns
            (Recorded st)
            (lightning_paid s codec kv amount custodial_balance available_ln ty st r)
    unfolding lightning_paid
    lightning_paid-Recorded ty st (ok id, w) =
        Returns-bind (upsert-Returns codec kv writes st.tx_metadata (lightning id) _)
          λ m e. returns (by_channels id w ty e refl)
    lightning_paid-Recorded ty st (err e, w) = returns (unpaid refl refl)

    pay_custodial-Recorded :
        (m : PaymentMethod x) (ty : PaymentType) (st : PayState s codec kv)
        → Returns
            (Recorded st)
            (pay_custodial s codec kv amount custodial_balance available_ln m ty st)
    unfolding pay_custodial custodial_funded
    pay_custodial-Recorded m ty st =
        Returns-guarded (leb amount custodial_balance)
          (Custodial.estimate_fee s st.world m amount).0
          (λ fee. leb (saturating_add fee amount) custodial_balance)
          (λ fee _ _ _. custodial_paid-Recorded ty st _) (returns (unpaid refl refl))
          (returns (unpaid refl refl))

    pay_lightning-Recorded :
        (m : PaymentMethod x) (ty : PaymentType) (st : PayState s codec kv)
        → Returns
            (Recorded st)
            (pay_lightning s codec kv amount custodial_balance available_ln m ty st)
    unfolding pay_lightning lightning_funded
    pay_lightning-Recorded m ty st =
        Returns-guarded (leb amount available_ln) (Lightning.estimate_fee s st.world m amount).0
          (λ fee. leb (saturating_add fee amount) available_ln)
          (λ fee _ _ _. lightning_paid-Recorded ty st _) (returns (unpaid refl refl))
          (returns (unpaid refl refl))

  -- What `pay` returns, with the store it started from.
  pub data Settled (m : TxMetadataStore ids kv)
      : Result (WalletError s) (Unit {0}) × PayState s codec kv → Type 0 where
    settled_unpaid :
        {st : PayState s codec kv}
        → st.tx_metadata ≡ m
        → st.spawned ≡ []
        → Settled m (err (last_error s codec kv st), st)
    settled_by_custody :
        {st : PayState s codec kv} (id : ids.CustodialPaymentId) (w : s.World) (ty : PaymentType)
        → st.tx_metadata.tx_metadata
          ≡ put (id_key ids) m.tx_metadata (custodial id) (metadata_now s codec kv w ty)
        → st.spawned ≡ []
        → Settled m (ok tt, st)
    settled_by_channels :
        {st : PayState s codec kv} (id : Bytes32) (w : s.World) (ty : PaymentType)
        → st.tx_metadata.tx_metadata
          ≡ put (id_key ids) m.tx_metadata (lightning id) (metadata_now s codec kv w ty)
        → st.spawned ≡ lightning id ∷ []
        → Settled m (ok tt, st)

  settle :
      (w : s.World) (m : TxMetadataStore ids kv) (r : Bool × PayState s codec kv)
      → Recorded (before s codec kv w m) r
      → Returns {E = Unit {0}}
          (Settled m)
          (done (if r.0 then ok tt else err (last_error s codec kv r.1), r.1))
  settle w m r (unpaid e f) = returns (settled_unpaid e f)
  settle w m r (by_custody id v ty e f) = returns (settled_by_custody id v ty e f)
  settle w m r (by_channels id v ty e f) = returns (settled_by_channels id v ty e f)

  pub pay-Settled :
      (writes : Writes kv) (info : PaymentInfo x) (w : s.World) (m : TxMetadataStore ids kv)
      → Returns (Settled m) (pay s codec kv info w m)
  unfolding pay
  pay-Settled writes info w m =
      Returns-bind
        (try_all-Returns s codec kv Recorded Recorded-Chain info (before s codec kv w m)
          (λ m ty t. pay_custodial-Recorded writes _ _ _ m ty)
          (λ m ty t. pay_lightning-Recorded writes _ _ _ m ty))
        (settle w m)
