-- ===== src/Store/Marks.antt =====
-- What `set_tx_caused_rebalance` (store.rs) does to the map.
use libbtcwallet.Base.{
  ◌≡◌, refl, Option, none, some, get, put, get-put, done, fail, >>=-eq-done, done-injective,
  if◌then◌else◌, sym, ap,
}
use libbtcwallet.Store.{
  IdExternals, PaymentId, PaymentType, TxType, TxMetadata, id_key, same_id, same_id_self, payment,
  payment_triggering_transfer_to_non_custodial, transfer_to_non_custodial,
}
use libbtcwallet.Store.Kv.{KvStore, Codec}
use libbtcwallet.Store.Metadata.{
  TxMetadataStore, set_tx_caused_rebalance, mark, mark_found, triggering, expect,
}

module _ {x : IdExternals} (codec : Codec x) (kv : KvStore) (s s' : TxMetadataStore x kv)
    (id : PaymentId x) where
  -- The entry was a plain payment, and is now the trigger of a rebalance, with its type and time;
  -- every other entry is as before.
  pub record Marked : Type 0 where
    pub metadata : TxMetadata x
    pub ty : PaymentType
    pub found : get (id_key x) s.tx_metadata id ≡ some metadata
    pub was_payment : metadata.ty ≡ payment ty
    pub entries :
        (j : PaymentId x)
        → get (id_key x) s'.tx_metadata j ≡ (
            if same_id x id j
            then some (record metadata { ty = payment_triggering_transfer_to_non_custodial ty })
            else get (id_key x) s.tx_metadata j)

  mark-entries :
      (m : TxMetadata x) (ty : TxType x)
      → mark codec kv s id m (some ty) ≡ done s'
      → s'.tx_metadata ≡ put (id_key x) s.tx_metadata id (record m { ty = ty })
  unfolding mark
  mark-entries m ty h =
      let (t, _, e) = >>=-eq-done (expect (kv.write s.store _ _)) _ h in
      ap (λ (r : TxMetadataStore x kv). r.tx_metadata) (sym (done-injective _ s' e))

  mark_ty :
      (m : TxMetadata x) (ty : TxType x)
      → get (id_key x) s.tx_metadata id ≡ some m
      → m.ty ≡ ty
      → mark codec kv s id m (triggering codec kv ty) ≡ done s'
      → Marked
  unfolding triggering
  mark_ty m (payment ty) found e h = record {
    metadata = m;
    ty = ty;
    found = found;
    was_payment = e;
    entries = λ j.
        rw (mark-entries m (payment_triggering_transfer_to_non_custodial ty) h)
          (get-put (id_key x) s.tx_metadata id j _);
  }
  mark_ty m (payment_triggering_transfer_to_non_custodial ty) found e h = unfold mark in cc
  mark_ty m (transfer_to_non_custodial a b c) found e h = unfold mark in cc

  mark_opt :
      (o : Option (TxMetadata x))
      → get (id_key x) s.tx_metadata id ≡ o
      → mark_found codec kv s id o ≡ done s'
      → Marked
  unfolding mark_found
  mark_opt none found h = cc
  mark_opt (some m) found h = mark_ty m m.ty found refl h

  -- A successful mark finds a plain payment, and turns it into the trigger of a rebalance with its
  -- type and time; every other entry stays.
  pub set_tx_caused_rebalance_lem : set_tx_caused_rebalance codec kv s id ≡ done s' → Marked
  unfolding set_tx_caused_rebalance
  set_tx_caused_rebalance_lem h = mark_opt _ refl h

-- A transaction cannot be marked twice: the second mark is the error that the rebalance turns into a
-- panic.
pub marked_once :
    {x : IdExternals} (codec : Codec x) (kv : KvStore) (s s' : TxMetadataStore x kv)
    (id : PaymentId x)
    → set_tx_caused_rebalance codec kv s id ≡ done s'
    → set_tx_caused_rebalance codec kv s' id ≡ fail tt
unfolding set_tx_caused_rebalance mark_found triggering mark
marked_once {x} codec kv s s' id h =
    let marked = set_tx_caused_rebalance_lem codec kv s s' id h in
    rw (marked.entries id, same_id_self x id)
