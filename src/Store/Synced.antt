-- ===== src/Store/Synced.antt =====
-- The map and the key-value store agree, and every operation keeps it so.
use libbtcwallet.Base.{
  ◌≡◌, ◌⊎◌, inl, inr, sym, ap, ◌∙◌, arith, Option, none, some, Bytes, get, put, get-put, beq,
  beq_eq, beq_refl, done, Bool-cases, Ensures, on_done, on_fail, Ensures-bind, Ensures-at,
  done-injective,
}
use libbtcwallet.Store.{
  IdExternals, PaymentId, TxType, TxMetadata, id_key, same_id, same_id_sound, same_id_self,
}
use libbtcwallet.Store.Ids.{to_string, from_str, IdLaws, from_str-to_string}
use libbtcwallet.Store.Kv.{KvStore, Codec, KvLaws}
use libbtcwallet.Store.Metadata.{
  TxMetadataStore, do_set, upsert, insert, set_tx_caused_rebalance, mark, mark_found, expect,
}

module _ (x : IdExternals) (laws : IdLaws x) where
  pub to_string-injective : (a b : PaymentId x) → to_string x a ≡ to_string x b → a ≡ b
  to_string-injective a b h =
      done-injective a b
        (sym (from_str-to_string x laws a) ∙ ap (from_str x) h ∙ from_str-to_string x laws b)

  -- The texts of two ids are equal just if the ids are.
  pub beq-to_string : (a b : PaymentId x) → beq (to_string x a) (to_string x b) ≡ same_id x a b
  beq-to_string a b = elim (Bool-cases (same_id x a b)) [
    | inl e ↦ rw (e, same_id_sound x a b e) (beq_refl (to_string x b))
    | inr e ↦ elim (Bool-cases (beq (to_string x a) (to_string x b))) [
      | inl f ↦
          let same = to_string-injective a b (beq_eq _ _ f) in
          cc (ap (same_id x a) same, same_id_self x a)
      | inr f ↦ f ∙ sym e
    ]
  ]

expect-done : {E A : Type 0} (o : Option A) (a : A) → expect {E = E} o ≡ done a → o ≡ some a
expect-done none a h = cc
expect-done (some b) a h = ground arith

module _ {x : IdExternals} (codec : Codec x) (kv : KvStore) where
  abbrev pub encoded : Option (TxMetadata x) → Option Bytes
  encoded none = none
  encoded (some m) = some (codec.encode m)

  -- Each entry of the map is stored, encoded, under the text of its id, and nothing else is stored.
  pub record IsSynced (s : TxMetadataStore x kv) : Type 0 where
    pub mirrored :
        (id : PaymentId x)
        → kv.read s.store (to_string x id) ≡ encoded (get (id_key x) s.tx_metadata id)
    pub named :
        (k v : Bytes) → kv.read s.store k ≡ some v → (id : PaymentId x) × (to_string x id ≡ k)

  module _ (laws : IdLaws x) (kv_laws : KvLaws kv) (s : TxMetadataStore x kv)
      (synced : IsSynced s) where
    pub write-IsSynced :
        (id : PaymentId x) (m : TxMetadata x) (t : kv.State)
        → kv.write s.store (to_string x id) (codec.encode m) ≡ some t
        → IsSynced (record { tx_metadata = put (id_key x) s.tx_metadata id m; store = t })
    write-IsSynced id m t w = record {
      mirrored = λ j.
          rw
            (
              kv_laws.read-write s.store t (to_string x id) (to_string x j) (codec.encode m) w,
              get-put,
              beq-to_string x laws id j,
            )
            (elim (Bool-cases (same_id x id j)) [
              | inl e ↦ rw e
              | inr e ↦ rw e (synced.mirrored j)
            ]);
      named = λ k v e. elim (Bool-cases (beq (to_string x id) k)) [
        | inl f ↦ (id, beq_eq _ _ f)
        | inr f ↦
            synced.named k v
              (ground (arith, kv_laws.read-write s.store t (to_string x id) k (codec.encode m) w))
      ];
    }

    do_set-Synced :
        (id : PaymentId x) (m : TxMetadata x) → Ensures (λ r. IsSynced r.1) (do_set codec kv s id m)
    unfolding do_set
    do_set-Synced id m = Ensures-bind _ _ λ t e. on_done (write-IsSynced id m t (expect-done _ t e))

    upsert-Synced :
        (id : PaymentId x) (m : TxMetadata x) → Ensures IsSynced (upsert codec kv s id m)
    unfolding upsert
    upsert-Synced id m = Ensures-bind _ _ λ r e. on_done (Ensures-at (do_set-Synced id m) e)

    insert-Synced :
        (id : PaymentId x) (m : TxMetadata x) → Ensures IsSynced (insert codec kv s id m)
    unfolding insert
    insert-Synced id m = Ensures-bind _ _ λ r e. on_done (Ensures-at (do_set-Synced id m) e)

    mark-Synced :
        (id : PaymentId x) (m : TxMetadata x) (o : Option (TxType x))
        → Ensures IsSynced (mark codec kv s id m o)
    unfolding mark
    mark-Synced id m none = on_fail
    mark-Synced id m (some ty) =
        Ensures-bind _ _
          λ t e. on_done (write-IsSynced id (record m { ty = ty }) t (expect-done _ t e))

    mark_found-Synced :
        (id : PaymentId x) (o : Option (TxMetadata x))
        → Ensures IsSynced (mark_found codec kv s id o)
    unfolding mark_found
    mark_found-Synced id none = on_fail
    mark_found-Synced id (some m) = mark-Synced id m _

    -- An upsert, an insert and the mark on the trigger of a rebalance, when they return, keep the map
    -- and the key-value store in step, if ids are read back from their texts and the store answers
    -- reads by the last write.
    pub writes-IsSynced :
        (id : PaymentId x) (m : TxMetadata x) (s' : TxMetadataStore x kv)
        → (upsert codec kv s id m ≡ done s')
          ⊎ ((insert codec kv s id m ≡ done s') ⊎ (set_tx_caused_rebalance codec kv s id ≡ done s'))
        → IsSynced s'
    unfolding set_tx_caused_rebalance
    writes-IsSynced id m s' (inl h) = Ensures-at (upsert-Synced id m) h
    writes-IsSynced id m s' (inr (inl h)) = Ensures-at (insert-Synced id m) h
    writes-IsSynced id m s' (inr (inr h)) = Ensures-at (mark_found-Synced id _) h
