-- ===== src/Store/Metadata.antt =====
-- `TxMetadataStore` of libbtcwallet/src/store.rs: the map of the transactions, mirrored in the
-- key-value store. A failed write panics. Debug assertions are off.
use libbtcwallet.Base.{
  Bool, Option, none, some, List, [], ◌∷◌, Bytes, HashMap, get, put, is_some, Outcome, done, fail,
  panic, ◌>>=◌,
}
use libbtcwallet.Store.{
  IdExternals, PaymentId, TxType, transfer_to_non_custodial,
  payment_triggering_transfer_to_non_custodial, payment, TxMetadata, id_key,
}
use libbtcwallet.Store.Ids.{to_string, from_str}
use libbtcwallet.Store.Kv.{KvStore, Codec}

pub record TxMetadataStore (x : IdExternals) (kv : KvStore) : Type 0 where
  pub tx_metadata : HashMap (PaymentId x) (TxMetadata x)
  pub store : kv.State

-- `r.expect(…)`
abbrev pub expect : {E A : Type 0} → Option A → Outcome E A
expect none = panic
expect (some a) = done a

abbrev pub expect_done : {E F A : Type 0} → Outcome F A → Outcome E A
expect_done (done a) = done a
expect_done (fail e) = panic
expect_done panic = panic

module _ {x : IdExternals} (codec : Codec x) (kv : KvStore) where
  -- the loop of `new` over the keys
  unfoldable pub load_keys :
      kv.State
      → List Bytes
      → HashMap (PaymentId x) (TxMetadata x)
      → Outcome (Unit {0}) (HashMap (PaymentId x) (TxMetadata x))
  load_keys store [] tx_metadata = done tx_metadata
  load_keys store (key ∷ keys) tx_metadata = do
    data_bytes ← expect (kv.read store key)
    id ← expect_done (from_str x key)
    value ← expect (codec.decode data_bytes)
    load_keys store keys (put (id_key x) tx_metadata id value)

  unfoldable pub new : kv.State → Outcome (Unit {0}) (TxMetadataStore x kv)
  new store = do
    keys ← expect (kv.list store)
    tx_metadata ← load_keys store keys []
    done (record { tx_metadata = tx_metadata; store = store })

  -- The result says whether the key was there.
  unfoldable pub do_set :
      TxMetadataStore x kv
      → PaymentId x
      → TxMetadata x
      → Outcome (Unit {0}) (Bool × TxMetadataStore x kv)
  do_set s key value = do
    store ← expect (kv.write s.store (to_string x key) (codec.encode value))
    let old = get (id_key x) s.tx_metadata key
    done (
      is_some old,
      record { tx_metadata = put (id_key x) s.tx_metadata key value; store = store },
    )

  unfoldable pub upsert :
      TxMetadataStore x kv → PaymentId x → TxMetadata x → Outcome (Unit {0}) (TxMetadataStore x kv)
  upsert s key value = do (_, s') ← do_set s key value; done s'

  -- The assertion that the key was not there is for debug builds only.
  unfoldable pub insert :
      TxMetadataStore x kv → PaymentId x → TxMetadata x → Outcome (Unit {0}) (TxMetadataStore x kv)
  insert s key value = do (had_old, s') ← do_set s key value; done s'

  -- The type that the trigger of a rebalance gets, if it is a plain payment.
  unfoldable pub triggering : TxType x → Option (TxType x)
  triggering (payment ty) = some (payment_triggering_transfer_to_non_custodial ty)
  triggering (payment_triggering_transfer_to_non_custodial ty) = none
  triggering (transfer_to_non_custodial _ _ _) = none

  unfoldable pub mark :
      TxMetadataStore x kv
      → PaymentId x
      → TxMetadata x
      → Option (TxType x)
      → Outcome (Unit {0}) (TxMetadataStore x kv)
  mark s payment_id metadata none = fail tt
  mark s payment_id metadata (some ty) = do
    let value = record metadata { ty = ty }
    store ← expect (kv.write s.store (to_string x payment_id) (codec.encode value))
    done (record { tx_metadata = put (id_key x) s.tx_metadata payment_id value; store = store })

  unfoldable pub mark_found :
      TxMetadataStore x kv
      → PaymentId x
      → Option (TxMetadata x)
      → Outcome (Unit {0}) (TxMetadataStore x kv)
  unfolding mark triggering
  mark_found s payment_id none = fail tt
  mark_found s payment_id (some metadata) = mark s payment_id metadata (triggering metadata.ty)

  -- `Err(())` leaves the store as it is.
  unfoldable pub set_tx_caused_rebalance :
      TxMetadataStore x kv → PaymentId x → Outcome (Unit {0}) (TxMetadataStore x kv)
  unfolding mark_found
  set_tx_caused_rebalance s payment_id =
      mark_found s payment_id (get (id_key x) s.tx_metadata payment_id)
