-- ===== src/Wallet/Keeps.antt =====
-- What every write to the metadata store keeps, the operations of the wallet keep (libbtcwallet/src/
-- lib.rs): `pay`, the end of a rebalance, and the records of a round of the polling task.
use libbtcwallet.Base.{
  ◌≡◌, refl, Bool, Result, ok, err, Outcome, done, Returns, returns, Returns-bind, Returns-guarded,
  Returns-map, leb,
}
use libbtcwallet.Amount.{Amount, saturating_add}
use libbtcwallet.Instructions.External.{Externals}
use libbtcwallet.Instructions.{PaymentMethod}
use libbtcwallet.Store.{IdExternals, PaymentId, Bytes32, PaymentType, TxMetadata}
use libbtcwallet.Store.Kv.{KvStore, Codec}
use libbtcwallet.Store.Metadata.{TxMetadataStore, insert, upsert, set_tx_caused_rebalance}
use libbtcwallet.Wallet.Services.{Services}
use libbtcwallet.Wallet.Lightning
use libbtcwallet.Wallet.Custodial
use libbtcwallet.Wallet.Info.{PaymentInfo}
use libbtcwallet.Wallet.Pay.{
  PayState, before, pay, pay_custodial, pay_lightning, custodial_paid, custodial_funded,
  lightning_paid, lightning_funded,
}
use libbtcwallet.Wallet.Pay.Recorded.{Writes, insert-Returns, upsert-Returns}
use libbtcwallet.Wallet.Pay.Chains.{Chain, try_all-Returns}

-- A property of stores that no write breaks.
pub record Kept {ids : IdExternals} (codec : Codec ids) (kv : KvStore)
    (P : TxMetadataStore ids kv → Type 0) : Type 0 where
  pub inserted :
      (m m' : TxMetadataStore ids kv) (id : PaymentId ids) (v : TxMetadata ids)
      → insert codec kv m id v ≡ done m'
      → P m
      → P m'
  pub upserted :
      (m m' : TxMetadataStore ids kv) (id : PaymentId ids) (v : TxMetadata ids)
      → upsert codec kv m id v ≡ done m'
      → P m
      → P m'
  pub marked :
      (m m' : TxMetadataStore ids kv) (id : PaymentId ids)
      → set_tx_caused_rebalance codec kv m id ≡ done m'
      → P m
      → P m'

Returns-eq {ℓ κ μ} :
    {E : Type ℓ} {A : Type κ} {Q : A → Type μ} {o : Outcome E A}
    → Returns Q o
    → Returns (λ a. o ≡ done a) o
Returns-eq (returns h) = returns refl

module _ {ids : IdExternals} (codec : Codec ids) (kv : KvStore) (writes : Writes kv)
    (P : TxMetadataStore ids kv → Type 0) (kept : Kept codec kv P) where
  pub insert-Kept :
      (m : TxMetadataStore ids kv) (id : PaymentId ids) (v : TxMetadata ids)
      → Returns (λ m'. P m → P m') (insert codec kv m id v)
  insert-Kept m id v =
      Returns-map (λ m' e. kept.inserted m m' id v e)
        (Returns-eq (insert-Returns codec kv writes m id v))

  upsert-Kept :
      (m : TxMetadataStore ids kv) (id : PaymentId ids) (v : TxMetadata ids)
      → Returns (λ m'. P m → P m') (upsert codec kv m id v)
  upsert-Kept m id v =
      Returns-map (λ m' e. kept.upserted m m' id v e)
        (Returns-eq (upsert-Returns codec kv writes m id v))

  module _ {x : Externals} (s : Services x ids) where
    abbrev KeptBy : PayState s codec kv → Bool × PayState s codec kv → Type 0
    KeptBy st r = P st.tx_metadata → P r.1.tx_metadata

    KeptBy-Chain : Chain s codec kv KeptBy
    KeptBy-Chain = record { idle = λ st h. h; after = λ st st' r f g h. g (f h) }

    module _ (amount balance available : Amount) where
      custodial_paid-Kept :
          (ty : PaymentType) (st : PayState s codec kv)
          (r : Result s.CustodialError ids.CustodialPaymentId × s.World)
          → Returns (KeptBy st) (custodial_paid s codec kv amount balance available ty st r)
      unfolding custodial_paid
      custodial_paid-Kept ty st (ok id, w) =
          Returns-bind (insert-Kept st.tx_metadata _ _) λ _ f. returns f
      custodial_paid-Kept ty st (err e, w) = returns (λ h. h)

      lightning_paid-Kept :
          (ty : PaymentType) (st : PayState s codec kv) (r : Result s.NodeError Bytes32 × s.World)
          → Returns (KeptBy st) (lightning_paid s codec kv amount balance available ty st r)
      unfolding lightning_paid
      lightning_paid-Kept ty st (ok id, w) =
          Returns-bind (upsert-Kept st.tx_metadata _ _) λ _ f. returns f
      lightning_paid-Kept ty st (err e, w) = returns (λ h. h)

      pay_custodial-Kept :
          (m : PaymentMethod x) (ty : PaymentType) (st : PayState s codec kv)
          → Returns (KeptBy st) (pay_custodial s codec kv amount balance available m ty st)
      unfolding pay_custodial custodial_funded
      pay_custodial-Kept m ty st =
          Returns-guarded (leb amount balance) (Custodial.estimate_fee s st.world m amount).0
            (λ fee. leb (saturating_add fee amount) balance)
            (λ fee _ _ _. custodial_paid-Kept ty st _) (returns λ h. h) (returns λ h. h)

      pay_lightning-Kept :
          (m : PaymentMethod x) (ty : PaymentType) (st : PayState s codec kv)
          → Returns (KeptBy st) (pay_lightning s codec kv amount balance available m ty st)
      unfolding pay_lightning lightning_funded
      pay_lightning-Kept m ty st =
          Returns-guarded (leb amount available) (Lightning.estimate_fee s st.world m amount).0
            (λ fee. leb (saturating_add fee amount) available)
            (λ fee _ _ _. lightning_paid-Kept ty st _) (returns λ h. h) (returns λ h. h)

    pub pay-Kept :
        (info : PaymentInfo x) (w : s.World) (m : TxMetadataStore ids kv)
        → Returns (λ r. P m → P r.1.tx_metadata) (pay s codec kv info w m)
    unfolding pay
    pay-Kept info w m =
        let cb = Custodial.get_balance s w in
        let l = (Lightning.get_balance s w).0 in
        Returns-bind
          (try_all-Returns s codec kv KeptBy KeptBy-Chain info (before s codec kv w m)
            (λ m ty t. pay_custodial-Kept info.amount cb l m ty)
            (λ m ty t. pay_lightning-Kept info.amount cb l m ty))
          λ r f. returns f
