-- ===== src/Store/Reload.antt =====
-- A store that is opened again has the map that it had.
use libbtcwallet.Base.{
  ◌≡◌, ◌⊎◌, inl, inr, refl, sym, ap, ◌∙◌, true, Option, none, some, List, [], ◌∷◌, Bytes, HashMap,
  get, put, get-put, beq_refl, done, ◌>>=◌, Bool-cases, Option-cases,
}
use libbtcwallet.Store.{IdExternals, PaymentId, TxMetadata, id_key, same_id, same_id_sound}
use libbtcwallet.Store.Ids.{to_string, from_str, IdLaws, from_str-to_string}
use libbtcwallet.Store.Kv.{KvStore, Codec, KvLaws, CodecLaws, Occurs}
use libbtcwallet.Store.Metadata.{TxMetadataStore, new, load_keys}
use libbtcwallet.Store.Synced.{IsSynced, encoded, beq-to_string}

module _ {x : IdExternals} (codec : Codec x) (kv : KvStore) (laws : IdLaws x) (kv_laws : KvLaws kv)
    (codec_laws : CodecLaws codec) (s : TxMetadataStore x kv) (synced : IsSynced codec kv s) where
  abbrev pub entry : PaymentId x → Option (TxMetadata x)
  entry id = get (id_key x) s.tx_metadata id

  -- What the loop has loaded from `keys`, on top of `acc`.
  record Loaded (keys : List Bytes) (acc m : HashMap (PaymentId x) (TxMetadata x)) : Type 0 where
    kept : (id : PaymentId x) → get (id_key x) acc id ≡ entry id → get (id_key x) m id ≡ entry id
    found : (id : PaymentId x) → Occurs (to_string x id) keys → get (id_key x) m id ≡ entry id
    partial :
        ((id : PaymentId x) → (get (id_key x) acc id ≡ none) ⊎ (get (id_key x) acc id ≡ entry id))
        → (id : PaymentId x) → (get (id_key x) m id ≡ none) ⊎ (get (id_key x) m id ≡ entry id)

  -- A key that can be read is the text of an id, and holds the id's entry.
  stored_entry :
      (k v : Bytes)
      → kv.read s.store k ≡ some v
      → (id : PaymentId x) × (to_string x id ≡ k)
        × (m : TxMetadata x) × (entry id ≡ some m)
        × (codec.encode m ≡ v)
  stored_entry k v e =
      let (id, named) = synced.named k v e in
      let mirror : some v ≡ encoded codec kv (entry id) =
        sym e ∙ (ap (kv.read s.store) (sym named) ∙ synced.mirrored id) in
      elim (Option-cases (entry id)) [
        | inl f ↦ cc (mirror, ap (encoded codec kv) f)
        | inr (m, f) ↦ (id, named, m, f, cc (mirror, ap (encoded codec kv) f))
      ]

  module _ (acc : HashMap (PaymentId x) (TxMetadata x)) (id : PaymentId x) (m : TxMetadata x)
      (is_entry : entry id ≡ some m) where
    put_self :
        (j : PaymentId x)
        → same_id x id j ≡ true
        → get (id_key x) (put (id_key x) acc id m) j ≡ entry j
    put_self j e =
        rw (get-put (id_key x) acc id j m, e) (sym is_entry ∙ ap entry (same_id_sound x id j e))

    put_kept :
        (j : PaymentId x)
        → get (id_key x) acc j ≡ entry j
        → get (id_key x) (put (id_key x) acc id m) j ≡ entry j
    put_kept j h = elim (Bool-cases (same_id x id j)) [
      | inl e ↦ put_self j e
      | inr e ↦ rw (get-put (id_key x) acc id j m, e) h
    ]

    put_partial :
        (j : PaymentId x)
        → (get (id_key x) acc j ≡ none) ⊎ (get (id_key x) acc j ≡ entry j)
        → (get (id_key x) (put (id_key x) acc id m) j ≡ none)
          ⊎ (get (id_key x) (put (id_key x) acc id m) j ≡ entry j)
    put_partial j h = elim (Bool-cases (same_id x id j)) [
      | inl e ↦ inr (put_self j e)
      | inr e ↦ rw (get-put (id_key x) acc id j m, e) h
    ]

    Loaded-cons :
        (k : Bytes) (keys : List Bytes) (m' : HashMap (PaymentId x) (TxMetadata x))
        → to_string x id ≡ k
        → Loaded keys (put (id_key x) acc id m) m'
        → Loaded (k ∷ keys) acc m'
    Loaded-cons k keys m' named l = record {
      kept = λ j h. l.kept j (put_kept j h);
      found = λ j h. elim h [
        | inl e ↦
            l.kept j
              (put_self j (rw (← beq-to_string x laws id j, named, e) (beq_refl (to_string x j))))
        | inr h' ↦ l.found j h'
      ];
      partial = λ h. l.partial (λ j. put_partial j (h j));
    }

  load_keys_lem :
      (keys : List Bytes) (acc : HashMap (PaymentId x) (TxMetadata x))
      → ((k : Bytes) → Occurs k keys → (v : Bytes) × (kv.read s.store k ≡ some v))
      → (m : HashMap (PaymentId x) (TxMetadata x)) × (load_keys codec kv s.store keys acc ≡ done m)
        × Loaded keys acc m
  unfolding load_keys ◌>>=◌
  load_keys_lem [] acc readable =
      (acc, refl, record { kept = λ id h. h; found = λ id h. absurd h; partial = λ h. h })
  load_keys_lem (k ∷ keys) acc readable =
      let (v, read) = readable k (inl refl) in
      let (id, named, m, is_entry, enc) = stored_entry k v read in
      let (m', loaded, l) =
        load_keys_lem keys (put (id_key x) acc id m) (λ j h. readable j (inr h)) in
      let parsed : from_str x k ≡ done id =
        ap (from_str x) (sym named) ∙ from_str-to_string x laws id in
      let decoded : codec.decode v ≡ some m =
        ap codec.decode (sym enc) ∙ codec_laws.decode-encode m in
      (m', rw (read, parsed, decoded) loaded, Loaded-cons acc id m is_entry k keys m' named l)

  reloaded_entry :
      (keys : List Bytes) (m : HashMap (PaymentId x) (TxMetadata x)) (id : PaymentId x)
      → kv.list s.store ≡ some keys
      → Loaded keys [] m
      → get (id_key x) m id ≡ entry id
  unfolding get
  reloaded_entry keys m id listed l = elim (Option-cases (entry id)) [
    | inl f ↦ elim (l.partial (λ j. inl refl) id) [ inl g ↦ g ∙ sym f | inr g ↦ g ]
    | inr (v, f) ↦
        l.found id
          (kv_laws.listed s.store _ _ keys listed (synced.mirrored id ∙ ap (encoded codec kv) f))
  ]

  -- Opening the key-value store of a synced metadata store succeeds, and gives every id the entry
  -- that it had, if ids and records are read back from their texts and encodings, and the store
  -- lists the keys that it can read.
  pub new_reloads :
      (s' : TxMetadataStore x kv) × (new codec kv s.store ≡ done s')
      × (s'.store ≡ s.store)
      × ((id : PaymentId x) → get (id_key x) s'.tx_metadata id ≡ entry id)
  unfolding new ◌>>=◌
  new_reloads =
      let (keys, listed) = kv_laws.lists s.store in
      let (m, loaded, l) =
        load_keys_lem keys [] (λ k h. kv_laws.readable s.store k keys listed h) in
      (
        record { tx_metadata = m; store = s.store },
        rw (listed, loaded),
        refl,
        λ id. reloaded_entry keys m id listed l,
      )
