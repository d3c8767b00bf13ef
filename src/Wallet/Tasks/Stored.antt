-- ===== src/Wallet/Tasks/Stored.antt =====
-- The metadata store of a running wallet: it stays in step with the key-value store, and nothing that
-- it recorded is forgotten.
use libbtcwallet.Base.{◌≡◌, ◌≢◌, Bool-cases, inl, inr, none, get, put, get-put, done, Returns-at}
use libbtcwallet.Instructions.External.{Externals}
use libbtcwallet.Store.{
  incoming_lightning, payment, IdExternals, PaymentId, TxMetadata, id_key, same_id,
}
use libbtcwallet.Store.Ids.{IdLaws}
use libbtcwallet.Store.Kv.{KvStore, Codec, KvLaws}
use libbtcwallet.Store.Metadata.{TxMetadataStore, set_tx_caused_rebalance}
use libbtcwallet.Store.Synced.{IsSynced, writes-IsSynced}
use libbtcwallet.Store.Marks.{set_tx_caused_rebalance_lem}
use libbtcwallet.Wallet.Services.{Services}
use libbtcwallet.Wallet.Balance.{Tunables}
use libbtcwallet.Wallet.Pay.Recorded.{Writes, insert-Returns, upsert-Returns}
use libbtcwallet.Wallet.Keeps.{Kept}
use libbtcwallet.Wallet.Tasks.{Running, just_opened, TaskSteps}
use libbtcwallet.Wallet.Tasks.Kept.{steps-Kept}

module _ {ids : IdExternals} (codec : Codec ids) (kv : KvStore) (writes : Writes kv) where
  IsSynced-Kept : IdLaws ids → KvLaws kv → Kept codec kv (IsSynced codec kv)
  IsSynced-Kept laws kv_laws = record {
    inserted = λ m m' id v e h. writes-IsSynced codec kv laws kv_laws m h id v m' (inr (inl e));
    upserted = λ m m' id v e h. writes-IsSynced codec kv laws kv_laws m h id v m' (inl e);
    marked = λ m m' id e h.
        writes-IsSynced codec kv laws kv_laws m h id
          (record { time = 0; ty = payment incoming_lightning }) m' (inr (inr e));
  }

  module _ (j : PaymentId ids) where
    abbrev IsRecorded : TxMetadataStore ids kv → Type 0
    IsRecorded m = get (id_key ids) m.tx_metadata j ≢ none

    put-IsRecorded :
        (m m' : TxMetadataStore ids kv) (id : PaymentId ids) (v : TxMetadata ids)
        → m'.tx_metadata ≡ put (id_key ids) m.tx_metadata id v
        → IsRecorded m
        → IsRecorded m'
    put-IsRecorded m m' id v e h =
        rw (e, get-put (id_key ids) m.tx_metadata id j v)
          (elim (Bool-cases (same_id ids id j)) [ inl f ↦ rw f λ g. cc | inr f ↦ rw f h ])

    mark-IsRecorded :
        (m m' : TxMetadataStore ids kv) (id : PaymentId ids)
        → set_tx_caused_rebalance codec kv m id ≡ done m'
        → IsRecorded m
        → IsRecorded m'
    mark-IsRecorded m m' id e h =
        let marked = set_tx_caused_rebalance_lem codec kv m m' id e in
        rw (marked.entries j)
          (elim (Bool-cases (same_id ids id j)) [ inl f ↦ rw f λ g. cc | inr f ↦ rw f h ])

    IsRecorded-Kept : Kept codec kv IsRecorded
    IsRecorded-Kept = record {
      inserted = λ m m' id v e.
          put-IsRecorded m m' id v (Returns-at (insert-Returns codec kv writes m id v) e);
      upserted = λ m m' id v e.
          put-IsRecorded m m' id v (Returns-at (upsert-Returns codec kv writes m id v) e);
      marked = mark-IsRecorded;
    }

  -- From the start of the wallet over a synced metadata store, whatever its tasks do and in any order,
  -- the map and the key-value store stay in step, and no transaction that was recorded is forgotten;
  -- if the key-value store takes every write and answers reads by the last one, and ids are read back
  -- from their texts.
  pub steps_store :
      {x : Externals} (s : Services x ids) (tunables : Tunables) (laws : IdLaws ids)
      (kv_laws : KvLaws kv) (w : s.World) (m : TxMetadataStore ids kv)
      (r r' : Running s codec kv tunables)
      → IsSynced codec kv m
      → TaskSteps s codec kv tunables (just_opened s codec kv tunables w m) r
      → TaskSteps s codec kv tunables r r'
      → IsSynced codec kv r'.tx_metadata
        × ((id : PaymentId ids)
            → get (id_key ids) r.tx_metadata.tx_metadata id ≢ none
            → get (id_key ids) r'.tx_metadata.tx_metadata id ≢ none)
  steps_store s tunables laws kv_laws w m r r' synced run run' =
      let keep = IsSynced-Kept laws kv_laws in
      (
        steps-Kept codec kv writes (IsSynced codec kv) keep s tunables run'
            (steps-Kept codec kv writes (IsSynced codec kv) keep s tunables run synced),
        λ id. steps-Kept codec kv writes (IsRecorded id) (IsRecorded-Kept id) s tunables run',
      )
