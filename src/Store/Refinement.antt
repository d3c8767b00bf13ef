-- ===== src/Store/Refinement.antt =====
-- The store as what it promises: a table of records that outlives the object, on which a transaction
-- is marked at most once.
use libbtcwallet.Base.{
  ◌≡◌, refl, ap, ◌∙◌, Bool, true, false, Option, none, some, List, [], ◌∷◌, Bytes, get, put,
  get-put, if◌then◌else◌, Outcome, done, fail, panic, ◌>>=◌,
}
use mathlib.Core.Path.{fun_ext}
use libbtcwallet.Store.{
  payment, payment_triggering_transfer_to_non_custodial, transfer_to_non_custodial, IdExternals,
  PaymentId, TxType, TxMetadata, id_key, same_id,
}
use libbtcwallet.Store.Ids.{IdLaws, to_string}
use libbtcwallet.Store.Kv.{KvStore, Codec, KvLaws, CodecLaws}
use libbtcwallet.Store.Metadata.{
  TxMetadataStore, new, do_set, upsert, insert, triggering, mark, mark_found,
  set_tx_caused_rebalance,
}
use libbtcwallet.Store.Synced.{IsSynced, write-IsSynced}
use libbtcwallet.Store.Reload.{new_reloads}

-- What is done to the store: its operations, and a restart, which reads everything back.
pub data Command (x : IdExternals) : Type 0 where
  upserting inserting : PaymentId x → TxMetadata x → Command x
  marking : PaymentId x → Command x
  restarting : Command x

-- The promise: a function from ids to records.
abbrev pub Records : IdExternals → Type 0
Records x = PaymentId x → Option (TxMetadata x)

module _ {x : IdExternals} (codec : Codec x) (kv : KvStore) where
  -- The code, with the answer of a mark; an error of a mark leaves the store as it is.
  unfoldable pub answered :
      TxMetadataStore x kv
      → Outcome (Unit {0}) (TxMetadataStore x kv)
      → Outcome (Unit {0}) (Bool × TxMetadataStore x kv)
  answered s (done s') = done (true, s')
  answered s (fail e) = done (false, s)
  answered s panic = panic

  unfoldable pub execute :
      TxMetadataStore x kv → Command x → Outcome (Unit {0}) (Bool × TxMetadataStore x kv)
  unfolding answered upsert insert set_tx_caused_rebalance new
  execute s (upserting id m) = answered s (upsert codec kv s id m)
  execute s (inserting id m) = answered s (insert codec kv s id m)
  execute s (marking id) = answered s (set_tx_caused_rebalance codec kv s id)
  execute s restarting = answered s (new codec kv s.store)

  unfoldable pub execute_all :
      TxMetadataStore x kv
      → List (Command x)
      → Outcome (Unit {0}) (List Bool × TxMetadataStore x kv)
  unfolding execute
  execute_all s [] = done ([], s)
  execute_all s (c ∷ cs) = do
    (answer, s') ← execute s c
    (answers, s'') ← execute_all s' cs
    done (answer ∷ answers, s'')

  -- The promise, command by command.
  abbrev pub set : Records x → PaymentId x → TxMetadata x → Records x
  set r id m = λ j. if same_id x id j then some m else r j

  -- A mark turns a plain payment into the trigger of a rebalance, and does nothing else.
  abbrev pub mark_type : Records x → PaymentId x → TxMetadata x → TxType x → Bool × Records x
  mark_type r id m (payment ty) =
      (true, set r id (record m { ty = payment_triggering_transfer_to_non_custodial ty }))
  mark_type r id m (payment_triggering_transfer_to_non_custodial ty) = (false, r)
  mark_type r id m (transfer_to_non_custodial _ _ _) = (false, r)

  unfoldable pub mark_record : Records x → PaymentId x → Option (TxMetadata x) → Bool × Records x
  mark_record r id none = (false, r)
  mark_record r id (some m) = mark_type r id m m.ty

  unfoldable pub perform : Records x → Command x → Bool × Records x
  unfolding mark_record
  perform r (upserting id m) = (true, set r id m)
  perform r (inserting id m) = (true, set r id m)
  perform r (marking id) = mark_record r id (r id)
  perform r restarting = (true, r)

  unfoldable pub perform_all : Records x → List (Command x) → List Bool × Records x
  unfolding perform
  perform_all r [] = ([], r)
  perform_all r (c ∷ cs) =
      let (answer, r') = perform r c in
      let (answers, r'') = perform_all r' cs in (answer ∷ answers, r'')

  abbrev pub view : TxMetadataStore x kv → Records x
  view s = get (id_key x) s.tx_metadata

  -- One command: the code does not panic, gives the promised answer, and leaves the promised records.
  abbrev Follows : Outcome (Unit {0}) (Bool × TxMetadataStore x kv) → Bool × Records x → Type 0
  Follows o p =
      (s' : TxMetadataStore x kv) × (o ≡ done (p.0, s')) × IsSynced codec kv s' × (view s' ≡ p.1)

  module _ (laws : IdLaws x) (kv_laws : KvLaws kv) (codec_laws : CodecLaws codec)
      (writes : (st : kv.State) (k v : Bytes)
        → (st' : kv.State) × (kv.write st k v ≡ some st')) where
    -- What a write of a record leaves.
    written :
        (s : TxMetadataStore x kv) (id : PaymentId x) (m : TxMetadata x)
        → IsSynced codec kv s
        → (t : kv.State) × (kv.write s.store (to_string x id) (codec.encode m) ≡ some t)
          × IsSynced codec kv
              (record { tx_metadata = put (id_key x) s.tx_metadata id m; store = t })
          × (get (id_key x) (put (id_key x) s.tx_metadata id m) ≡ set (view s) id m)
    written s id m synced =
        let (t, w) = writes s.store (to_string x id) (codec.encode m) in
        (
          t,
          w,
          write-IsSynced codec kv laws kv_laws s synced id m t w,
          fun_ext (λ j. get-put (id_key x) s.tx_metadata id j m),
        )

    upsert-Follows :
        (s : TxMetadataStore x kv) (id : PaymentId x) (m : TxMetadata x)
        → IsSynced codec kv s
        → Follows (answered s (upsert codec kv s id m)) (true, set (view s) id m)
    unfolding answered upsert do_set ◌>>=◌
    upsert-Follows s id m synced =
        let (t, w, synced', entries) = written s id m synced in
        (
          record { tx_metadata = put (id_key x) s.tx_metadata id m; store = t },
          rw w refl,
          synced',
          entries,
        )

    mark-Follows :
        (s : TxMetadataStore x kv) (id : PaymentId x) (m : TxMetadata x) (ty : TxType x)
        → IsSynced codec kv s
        → Follows
            (answered s (mark codec kv s id m (triggering codec kv ty)))
            (mark_type (view s) id m ty)
    unfolding answered mark triggering ◌>>=◌
    mark-Follows s id m (payment_triggering_transfer_to_non_custodial ty) synced =
        (s, refl, synced, refl)
    mark-Follows s id m (transfer_to_non_custodial _ _ _) synced = (s, refl, synced, refl)
    mark-Follows s id m (payment ty) synced =
        let value = record m { ty = payment_triggering_transfer_to_non_custodial ty } in
        let (t, w, synced', entries) = written s id value synced in
        (
          record { tx_metadata = put (id_key x) s.tx_metadata id value; store = t },
          rw w refl,
          synced',
          entries,
        )

    mark_found-Follows :
        (s : TxMetadataStore x kv) (id : PaymentId x) (o : Option (TxMetadata x))
        → IsSynced codec kv s
        → Follows (answered s (mark_found codec kv s id o)) (mark_record (view s) id o)
    unfolding answered mark_found mark_record
    mark_found-Follows s id none synced = (s, refl, synced, refl)
    mark_found-Follows s id (some m) synced = mark-Follows s id m m.ty synced

    new-Follows :
        (s : TxMetadataStore x kv)
        → IsSynced codec kv s
        → Follows (answered s (new codec kv s.store)) (true, view s)
    unfolding answered
    new-Follows s synced =
        let (s', opened, same, entries) = new_reloads codec kv laws kv_laws codec_laws s synced in
        (
          s',
          rw opened refl,
          record {
            mirrored = λ id. rw (same, entries id) (synced.mirrored id);
            named = λ k v e. synced.named k v (rw (← same) e);
          },
          fun_ext entries,
        )

    execute-Follows :
        (s : TxMetadataStore x kv) (c : Command x)
        → IsSynced codec kv s
        → Follows (execute s c) (perform (view s) c)
    unfolding execute perform insert set_tx_caused_rebalance
    execute-Follows s (upserting id m) synced = upsert-Follows s id m synced
    execute-Follows s (inserting id m) synced = upsert-Follows s id m synced
    execute-Follows s (marking id) synced = mark_found-Follows s id (view s id) synced
    execute-Follows s restarting synced = new-Follows s synced

    -- Started on a synced metadata store whose writes succeed, any sequence of upserts, inserts,
    -- marks and restarts does not panic, answers what the abstract store answers, a function from
    -- ids to records that a restart keeps and on which a mark succeeds for plain payments only,
    -- and ends synced with exactly the abstract store's records; if ids and records are read back
    -- from their texts and encodings, and the key-value store answers reads by the last write and
    -- lists its keys.
    pub execute_all_refines :
        (s : TxMetadataStore x kv) (cs : List (Command x))
        → IsSynced codec kv s
        → (s' : TxMetadataStore x kv) × (execute_all s cs ≡ done ((perform_all (view s) cs).0, s'))
          × IsSynced codec kv s'
          × (view s' ≡ (perform_all (view s) cs).1)
    unfolding execute_all perform_all ◌>>=◌
    execute_all_refines s [] synced = (s, refl, synced, refl)
    execute_all_refines s (c ∷ cs) synced =
        let (s', e, synced', v) = execute-Follows s c synced in
        let (s'', e', synced'', v') = execute_all_refines s' cs synced' in
        (
          s'',
          rw (e, e') (ap (λ r. done ((perform (view s) c).0 ∷ (perform_all r cs).0, s'')) v),
          synced'',
          v' ∙ ap (λ r. (perform_all r cs).1) v,
        )
