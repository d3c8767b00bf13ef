-- ===== src/Wallet/Listing/Charged.antt =====
-- The fee of a half of a transfer in custody reaches the entry of its trigger, and stays there.
use mathlib.Core.List.{Mem, not-mem-nil, eq-or-mem_of_mem-cons}
use mathlib.Core.Logic.Or
use mathlib.Core.Path.{subst}
use libbtcwallet.Base.{
  IsKeyed, put-IsKeyed, is_some, ℕ, ◌≡◌, refl, Bool, true, false, Option, none, some, List, [], ◌∷◌,
  Bool-cases, inl, inr, HashMap, get, get-put, if◌then◌else◌, beq,
}
use libbtcwallet.Amount.{from_milli_sats}
use libbtcwallet.Store.{
  IdExternals, PaymentId, lightning, custodial, pending, completed, failed, TxStatus, TxType,
  TxMetadata, payment, payment_triggering_transfer_to_non_custodial, transfer_to_non_custodial,
  id_key,
}
use libbtcwallet.Wallet.Lightning.{status_of}
use libbtcwallet.Wallet.Services.{PaymentDetails}
use libbtcwallet.Wallet.Custodial.{Payment}
use libbtcwallet.Wallet.Listing.{
  InternalTransfer, or_no_transfer, of_custodial, of_lightning, ListState, update_entry,
  add_custodial_as, add_lightning_as, add_custodial, add_untracked, add_lightning, add_custodials,
  add_lightnings,
}
use libbtcwallet.Wallet.Listing.Sources.{IsHalfOf}

tests_prop : (a b : Bool) → IsProp (a ≡ b)
tests_prop a b = hlevel

abbrev pub has_fee : Option InternalTransfer → Bool
has_fee none = false
has_fee (some t) = is_some t.custodial_send_fee

module _ (ids : IdExternals) (id : PaymentId ids) where
  -- The keys differ, and once there is a fee of a half under the id, it stays.
  pub record Charges (owed : Bool) (st : ListState ids) : Type 0 where
    pub keyed : IsKeyed (id_key ids) st.internal_transfers
    pub charged : owed ≡ true → has_fee (get (id_key ids) st.internal_transfers id) ≡ true

  module _ (owed : Bool) where
    update-Charges :
        (j : PaymentId ids) (f : InternalTransfer → InternalTransfer) (st : ListState ids)
        → ((t : InternalTransfer)
            → is_some t.custodial_send_fee ≡ true
            → is_some (f t).custodial_send_fee ≡ true)
        → Charges owed st
        → Charges owed (update_entry ids j f st)
    unfolding update_entry
    update-Charges j f st keep h = record {
      keyed = put-IsKeyed (id_key ids) st.internal_transfers j _ h.keyed;
      charged = λ o. elim (Bool-cases ((id_key ids).same j id)) [
        | inl e ↦
            rw (get-put (id_key ids) st.internal_transfers j id _, e)
              (updated (get (id_key ids) st.internal_transfers j)
                (rw (((id_key ids).same_iff j id).0 e) (h.charged o)))
        | inr e ↦ rw (get-put (id_key ids) st.internal_transfers j id _, e) (h.charged o)
      ];
    }
      where
        updated :
            (o : Option InternalTransfer)
            → has_fee o ≡ true
            → is_some (f (or_no_transfer o)).custodial_send_fee ≡ true
        updated none e = cc
        updated (some t) e = keep t e

    same_map :
        (st st' : ListState ids)
        → st'.internal_transfers ≡ st.internal_transfers
        → Charges owed st
        → Charges owed st'
    same_map st st' e h = record { keyed = rw e h.keyed; charged = rw e h.charged }

    custodial_as-Charges :
        (p : Payment ids) (time : ℕ) (ty : TxType ids) (st : ListState ids)
        → Charges owed st
        → Charges owed (add_custodial_as ids p time ty st)
    unfolding add_custodial_as
    custodial_as-Charges p time (payment ty) st h = same_map st _ refl h
    custodial_as-Charges p time (payment_triggering_transfer_to_non_custodial ty) st h =
        update-Charges (custodial p.id)
          (λ t. record t { transaction = some (of_custodial p ty time) }) st (λ t k. k) h
    custodial_as-Charges p time (transfer_to_non_custodial a b trigger) st h =
        update-Charges trigger
          (λ t.
            if ids.uuid_key.same p.id a then record t { custodial_send_fee = some p.fee } else t)
          st
          (λ t k. elim (Bool-cases (ids.uuid_key.same p.id a)) [
            | inl e ↦ rw e refl
            | inr e ↦ rw e k
          ])
          h

    pub custodial-Charges :
        (p : Payment ids) (o : Option (TxMetadata ids)) (st : ListState ids)
        → Charges owed st
        → Charges owed (add_custodial ids p o st)
    unfolding add_custodial
    custodial-Charges p none st h = h
    custodial-Charges p (some md) st h = custodial_as-Charges p md.time md.ty st h

    untracked-Charges :
        (status : TxStatus) (p : PaymentDetails) (st : ListState ids)
        → Charges owed st
        → Charges owed (add_untracked ids status p st)
    unfolding add_untracked
    untracked-Charges completed p st h = same_map st _ refl h
    untracked-Charges pending p st h = h
    untracked-Charges failed p st h = h

    lightning_as-Charges :
        (p : PaymentDetails) (time : ℕ) (ty : TxType ids) (st : ListState ids)
        → Charges owed st
        → Charges owed (add_lightning_as ids p time ty st)
    unfolding add_lightning_as from_milli_sats
    lightning_as-Charges p time (payment ty) st h = same_map st _ refl h
    lightning_as-Charges p time (payment_triggering_transfer_to_non_custodial ty) st h =
        update-Charges (lightning p.id) (λ t. record t { transaction = some (of_lightning p time) })
          st (λ t k. k) h
    lightning_as-Charges p time (transfer_to_non_custodial a b trigger) st h =
        update-Charges trigger
          (λ t.
            if beq p.id b then record t { lightning_receive_fee = some (from_milli_sats 0) } else t)
          st (λ t k. elim (Bool-cases (beq p.id b)) [ inl e ↦ rw e k | inr e ↦ rw e k ]) h

    lightning-Charges :
        (p : PaymentDetails) (o : Option (TxMetadata ids)) (st : ListState ids)
        → Charges owed st
        → Charges owed (add_lightning ids p o st)
    unfolding add_lightning
    lightning-Charges p none st h = untracked-Charges (status_of p.status) p st h
    lightning-Charges p (some md) st h = lightning_as-Charges p md.time md.ty st h

    module _ (tx_metadata : HashMap (PaymentId ids) (TxMetadata ids)) where
      pub custodials-Charges :
          (ps : List (Payment ids)) (st : ListState ids)
          → Charges owed st
          → Charges owed (add_custodials ids tx_metadata ps st)
      unfolding add_custodials
      custodials-Charges [] st h = h
      custodials-Charges (p ∷ ps) st h = custodials-Charges ps _ (custodial-Charges p _ st h)

      pub lightnings-Charges :
          (ps : List PaymentDetails) (st : ListState ids)
          → Charges owed st
          → Charges owed (add_lightnings ids tx_metadata ps st)
      unfolding add_lightnings
      lightnings-Charges [] st h = h
      lightnings-Charges (p ∷ ps) st h = lightnings-Charges ps _ (lightning-Charges p _ st h)

  module _ (tx_metadata : HashMap (PaymentId ids) (TxMetadata ids)) where
    half-Charges :
        (p : Payment ids) (st : ListState ids)
        → IsHalfOf ids tx_metadata id p
        → Charges false st
        → Charges true (add_custodial ids p (get (id_key ids) tx_metadata (custodial p.id)) st)
    unfolding add_custodial add_custodial_as update_entry
    half-Charges p st (time, b, recorded) h = rw recorded (record {
      keyed = put-IsKeyed (id_key ids) st.internal_transfers id _ h.keyed;
      charged = λ _.
          rw
            (
              get-put (id_key ids) st.internal_transfers id id _,
              ((id_key ids).same_iff id id).1 refl,
              (ids.uuid_key.same_iff p.id p.id).1 refl,
            )
            refl;
    })

    -- A half in the list that is gone through is charged at the end.
    pub half-charged :
        (p : Payment ids) (ps : List (Payment ids)) (st : ListState ids)
        → IsHalfOf ids tx_metadata id p
        → Mem p ps
        → Charges false st
        → has_fee (get (id_key ids) (add_custodials ids tx_metadata ps st).internal_transfers id)
          ≡ true
    unfolding add_custodials
    half-charged p [] st half m h = absurd (not-mem-nil m)
    half-charged p (q ∷ ps) st half m h =
        Or.elim (tests_prop _ _) (eq-or-mem_of_mem-cons m)
          (λ e.
            let half' = subst (IsHalfOf ids tx_metadata id) e half in
            (custodials-Charges true tx_metadata ps _ (half-Charges q st half' h)).charged refl)
          (λ later. half-charged p ps _ half later (custodial-Charges false q _ st h))
