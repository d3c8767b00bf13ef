-- ===== src/Wallet/Listing/Sound.antt =====
-- What the loops of `list_transactions` keep: what is listed so far, and the entry of each trigger, are
-- told by the payments.
use mathlib.Core.List.{Mem, mem-cons_self, mem-cons_of_mem}
use libbtcwallet.Wallet.Listing.Sources.{
  of_lightning_lem, told_by_node, IsRecordedAs, IsTrigger, custodial_trigger, lightning_trigger,
  send_fee, IsTransfer, IsShown, shown_custodial, shown_lightning, shown_untracked,
}
use mathlib.Core.Path.{subst, sym}
use libbtcwallet.Base.{
  get-All, put-All, IfSome, ℕ, ◌≡◌, refl, inl, inr, Bool-cases, Option, none, some, List, [], ◌∷◌,
  All, All-append, beq, HashMap, get, if◌then◌else◌,
}
use libbtcwallet.Amount.{from_milli_sats}
use libbtcwallet.Store.{
  IdExternals, PaymentId, lightning, custodial, pending, completed, failed, TxStatus, Transaction,
  TxType, TxMetadata, payment, payment_triggering_transfer_to_non_custodial,
  transfer_to_non_custodial, id_key,
}
use libbtcwallet.Wallet.Lightning.{status_of}
use libbtcwallet.Wallet.Services.{
  PaymentDetails, PaymentStatus, status_pending, status_succeeded, status_failed,
}
use libbtcwallet.Wallet.Custodial.{Payment}
use libbtcwallet.Wallet.Listing.{
  InternalTransfer, or_no_transfer, of_custodial, of_lightning, sort_by_time, ListState,
  update_entry, add_custodial_as, add_lightning_as, add_custodial, add_untracked, add_lightning,
  add_custodials, add_lightnings,
}
use libbtcwallet.Wallet.Listing.Sorted.{insert-All}

pub sort-All :
    (P : Transaction → Type 0) (ts : List Transaction) → All P ts → All P (sort_by_time ts)
unfolding sort_by_time
sort-All P [] h = tt
sort-All P (t ∷ ts) (h, hs) = insert-All P t (sort_by_time ts) h (sort-All P ts hs)

completed_lem : (status : PaymentStatus) → status_of status ≡ completed → status ≡ status_succeeded
unfolding status_of
completed_lem status_succeeded h = refl
completed_lem status_pending h = cc
completed_lem status_failed h = cc

module _ (ids : IdExternals) (tx_metadata : HashMap (PaymentId ids) (TxMetadata ids))
    (cs : List (Payment ids)) (ls : List PaymentDetails) where
  -- What the code makes of a payment of our channels is what the node tells.
  as_told :
      (P : Transaction → Type 0) (p : PaymentDetails) (time : ℕ)
      → P (told_by_node p time)
      → P (of_lightning p time)
  as_told P p time h = subst P (sym (of_lightning_lem p time)) h

  pub record IsSound (st : ListState ids) : Type 0 where
    pub listed : All (IsShown ids tx_metadata cs ls) st.res
    pub transfers : All (λ e. (IsTransfer ids tx_metadata cs ls) e.0 e.1) st.internal_transfers

  update-IsSound :
      (id : PaymentId ids) (f : InternalTransfer → InternalTransfer) (st : ListState ids)
      → ((t : InternalTransfer)
          → (IsTransfer ids tx_metadata cs ls) id t
          → (IsTransfer ids tx_metadata cs ls) id (f t))
      → IsSound st
      → IsSound (update_entry ids id f st)
  unfolding update_entry
  update-IsSound id f st keep h = record {
    listed = h.listed;
    transfers =
        put-All (id_key ids) (λ e. (IsTransfer ids tx_metadata cs ls) e.0 e.1) st.internal_transfers
          id _
          (keep _ (
            of_entry (get (id_key ids) st.internal_transfers id) (
              get-All (id_key ids) (λ e. (IsTransfer ids tx_metadata cs ls) e.0 e.1)
                st.internal_transfers id h.transfers)))
          h.transfers;
  }
    where
      of_entry :
          (o : Option InternalTransfer)
          → IfSome ((IsTransfer ids tx_metadata cs ls) id) o
          → (IsTransfer ids tx_metadata cs ls) id (or_no_transfer o)
      of_entry none k = record { transaction = tt; sending = tt; receive = tt }
      of_entry (some t) k = k

  custodial_as-IsSound :
      (p : Payment ids) (time : ℕ) (ty : TxType ids) (st : ListState ids)
      → Mem p cs
      → (IsRecordedAs ids tx_metadata) (custodial p.id) time ty
      → IsSound st
      → IsSound (add_custodial_as ids p time ty st)
  unfolding add_custodial_as
  custodial_as-IsSound p time (payment ty) st m e h = record {
    listed = All-append _ st.res (_ ∷ []) h.listed (shown_custodial p time ty m e, tt);
    transfers = h.transfers;
  }
  custodial_as-IsSound p time (payment_triggering_transfer_to_non_custodial ty) st m e h =
      update-IsSound (custodial p.id)
        (λ t. record t { transaction = some (of_custodial p ty time) }) st
        (λ t k. record {
          transaction = custodial_trigger p time ty m e;
          sending = k.sending;
          receive = k.receive;
        })
        h
  custodial_as-IsSound p time (transfer_to_non_custodial a b trigger) st m e h =
      update-IsSound trigger
        (λ t. if ids.uuid_key.same p.id a then record t { custodial_send_fee = some p.fee } else t)
        st
        (λ t k. elim (Bool-cases (ids.uuid_key.same p.id a)) [
          | inl f ↦
              let own =
                subst
                  (λ i.
                    (IsRecordedAs ids tx_metadata) (custodial p.id) time
                      (transfer_to_non_custodial i b trigger))
                  (sym ((ids.uuid_key.same_iff p.id a).0 f)) e in
              rw f (record {
                transaction = k.transaction;
                sending = send_fee p time b m own;
                receive = k.receive;
              })
          | inr f ↦ rw f k
        ])
        h

  custodial-IsSound :
      (p : Payment ids) (o : Option (TxMetadata ids)) (st : ListState ids)
      → Mem p cs
      → get (id_key ids) tx_metadata (custodial p.id) ≡ o
      → IsSound st
      → IsSound (add_custodial ids p o st)
  unfolding add_custodial
  custodial-IsSound p none st m e h = h
  custodial-IsSound p (some md) st m e h = custodial_as-IsSound p md.time md.ty st m e h

  lightning_as-IsSound :
      (p : PaymentDetails) (time : ℕ) (ty : TxType ids) (st : ListState ids)
      → Mem p ls
      → (IsRecordedAs ids tx_metadata) (lightning p.id) time ty
      → IsSound st
      → IsSound (add_lightning_as ids p time ty st)
  unfolding add_lightning_as from_milli_sats
  lightning_as-IsSound p time (payment ty) st m e h = record {
    listed =
        All-append _ st.res (_ ∷ []) h.listed
          (as_told (IsShown ids tx_metadata cs ls) p time (shown_lightning p time ty m e), tt);
    transfers = h.transfers;
  }
  lightning_as-IsSound p time (payment_triggering_transfer_to_non_custodial ty) st m e h =
      update-IsSound (lightning p.id) (λ t. record t { transaction = some (of_lightning p time) })
        st
        (λ t k. record {
          transaction =
              as_told (IsTrigger ids tx_metadata cs ls (lightning p.id)) p time
                (lightning_trigger p time ty m e);
          sending = k.sending;
          receive = k.receive;
        })
        h
  lightning_as-IsSound p time (transfer_to_non_custodial a b trigger) st m e h =
      update-IsSound trigger
        (λ t.
          if beq p.id b then record t { lightning_receive_fee = some (from_milli_sats 0) } else t)
        st
        (λ t k. elim (Bool-cases (beq p.id b)) [
          | inl f ↦
              rw f (record { transaction = k.transaction; sending = k.sending; receive = refl })
          | inr f ↦ rw f k
        ])
        h

  untracked-IsSound :
      (status : TxStatus) (p : PaymentDetails) (st : ListState ids)
      → Mem p ls
      → get (id_key ids) tx_metadata (lightning p.id) ≡ none
      → status_of p.status ≡ status
      → IsSound st
      → IsSound (add_untracked ids status p st)
  unfolding add_untracked
  untracked-IsSound completed p st m e done h = record {
    listed = All-append _ st.res (_ ∷ []) h.listed (
      as_told (IsShown ids tx_metadata cs ls) p p.latest_update_timestamp
          (shown_untracked p m e (completed_lem p.status done)),
      tt,
    );
    transfers = h.transfers;
  }
  untracked-IsSound pending p st m e done h = h
  untracked-IsSound failed p st m e done h = h

  lightning-IsSound :
      (p : PaymentDetails) (o : Option (TxMetadata ids)) (st : ListState ids)
      → Mem p ls
      → get (id_key ids) tx_metadata (lightning p.id) ≡ o
      → IsSound st
      → IsSound (add_lightning ids p o st)
  unfolding add_lightning
  lightning-IsSound p none st m e h = untracked-IsSound (status_of p.status) p st m e refl h
  lightning-IsSound p (some md) st m e h = lightning_as-IsSound p md.time md.ty st m e h

  pub custodials-IsSound :
      (ps : List (Payment ids)) (st : ListState ids)
      → ((p : Payment ids) → Mem p ps → Mem p cs)
      → IsSound st
      → IsSound (add_custodials ids tx_metadata ps st)
  unfolding add_custodials
  custodials-IsSound [] st sub h = h
  custodials-IsSound (p ∷ ps) st sub h =
      custodials-IsSound ps _ (λ q m. sub q (mem-cons_of_mem p m))
        (custodial-IsSound p _ st (sub p mem-cons_self) refl h)

  pub lightnings-IsSound :
      (ps : List PaymentDetails) (st : ListState ids)
      → ((p : PaymentDetails) → Mem p ps → Mem p ls)
      → IsSound st
      → IsSound (add_lightnings ids tx_metadata ps st)
  unfolding add_lightnings
  lightnings-IsSound [] st sub h = h
  lightnings-IsSound (p ∷ ps) st sub h =
      lightnings-IsSound ps _ (λ q m. sub q (mem-cons_of_mem p m))
        (lightning-IsSound p _ st (sub p mem-cons_self) refl h)
