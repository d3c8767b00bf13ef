-- ===== src/Wallet/Listing/Found.antt =====
-- Which payments `list_transactions` lists.
use mathlib.Core.Logic.Or
use mathlib.Core.List.{
  Mem, Mem-prop, not-mem-nil, mem-cons_self, mem-cons_of_mem, eq-or-mem_of_mem-cons,
  mem-append_left, mem-append_right,
}
use libbtcwallet.Base.{
  ℕ, ◌≡◌, Option, none, some, List, [], ◌∷◌, leb, Bool-cases, inl, inr, HashMap, get,
}
use libbtcwallet.Store.{
  IdExternals, PaymentId, PaymentType, lightning, custodial, pending, completed, failed, TxStatus,
  Transaction, TxType, TxMetadata, payment, payment_triggering_transfer_to_non_custodial,
  transfer_to_non_custodial, id_key,
}
use libbtcwallet.Wallet.Lightning.{status_of}
use libbtcwallet.Wallet.Services.{PaymentDetails}
use libbtcwallet.Wallet.Custodial.{Payment}
use libbtcwallet.Wallet.Listing.Sources.{told_by_custody, told_by_node, of_lightning_lem}
use libbtcwallet.Wallet.Listing.{
  of_custodial, of_lightning, insert_by_time, sort_by_time, ListState, update_entry,
  add_custodial_as, add_lightning_as, add_custodial, add_untracked, add_lightning, add_custodials,
  add_lightnings, merge_transfers, list_all,
}

insert_self : (t : Transaction) (ts : List Transaction) → Mem t (insert_by_time t ts)
unfolding insert_by_time
insert_self t [] = mem-cons_self
insert_self t (u ∷ us) = elim (Bool-cases (leb t.time_since_epoch u.time_since_epoch)) [
  | inl e ↦ rw e mem-cons_self
  | inr e ↦ rw e (mem-cons_of_mem u (insert_self t us))
]

insert_kept : (a t : Transaction) (ts : List Transaction) → Mem a ts → Mem a (insert_by_time t ts)
unfolding insert_by_time
insert_kept a t [] h = absurd (not-mem-nil h)
insert_kept a t (u ∷ us) h = elim (Bool-cases (leb t.time_since_epoch u.time_since_epoch)) [
  | inl e ↦ rw e (mem-cons_of_mem t h)
  | inr e ↦ rw e (
      Or.elim Mem-prop (eq-or-mem_of_mem-cons h) (λ f. rw f mem-cons_self)
        (λ m. mem-cons_of_mem u (insert_kept a t us m)))
]

sort_kept : (a : Transaction) (ts : List Transaction) → Mem a ts → Mem a (sort_by_time ts)
unfolding sort_by_time
sort_kept a [] h = absurd (not-mem-nil h)
sort_kept a (t ∷ ts) h =
    Or.elim Mem-prop (eq-or-mem_of_mem-cons h) (λ f. rw f (insert_self t (sort_by_time ts)))
      (λ m. insert_kept a t (sort_by_time ts) (sort_kept a ts m))

module _ (ids : IdExternals) (a : Transaction) where
  custodial_as_kept :
      (p : Payment ids) (time : ℕ) (ty : TxType ids) (st : ListState ids)
      → Mem a st.res
      → Mem a (add_custodial_as ids p time ty st).res
  unfolding add_custodial_as update_entry
  custodial_as_kept p time (payment ty) st h = mem-append_left (_ ∷ []) h
  custodial_as_kept p time (payment_triggering_transfer_to_non_custodial ty) st h = h
  custodial_as_kept p time (transfer_to_non_custodial x y z) st h = h

  custodial_kept :
      (p : Payment ids) (o : Option (TxMetadata ids)) (st : ListState ids)
      → Mem a st.res
      → Mem a (add_custodial ids p o st).res
  unfolding add_custodial
  custodial_kept p none st h = h
  custodial_kept p (some md) st h = custodial_as_kept p md.time md.ty st h

  untracked_kept :
      (status : TxStatus) (p : PaymentDetails) (st : ListState ids)
      → Mem a st.res
      → Mem a (add_untracked ids status p st).res
  unfolding add_untracked
  untracked_kept completed p st h = mem-append_left (_ ∷ []) h
  untracked_kept pending p st h = h
  untracked_kept failed p st h = h

  lightning_as_kept :
      (p : PaymentDetails) (time : ℕ) (ty : TxType ids) (st : ListState ids)
      → Mem a st.res
      → Mem a (add_lightning_as ids p time ty st).res
  unfolding add_lightning_as update_entry
  lightning_as_kept p time (payment ty) st h = mem-append_left (_ ∷ []) h
  lightning_as_kept p time (payment_triggering_transfer_to_non_custodial ty) st h = h
  lightning_as_kept p time (transfer_to_non_custodial x y z) st h = h

  lightning_kept :
      (p : PaymentDetails) (o : Option (TxMetadata ids)) (st : ListState ids)
      → Mem a st.res
      → Mem a (add_lightning ids p o st).res
  unfolding add_lightning
  lightning_kept p none st h = untracked_kept (status_of p.status) p st h
  lightning_kept p (some md) st h = lightning_as_kept p md.time md.ty st h

  module _ (tx_metadata : HashMap (PaymentId ids) (TxMetadata ids)) where
    custodials_kept :
        (ps : List (Payment ids)) (st : ListState ids)
        → Mem a st.res
        → Mem a (add_custodials ids tx_metadata ps st).res
    unfolding add_custodials
    custodials_kept [] st h = h
    custodials_kept (p ∷ ps) st h = custodials_kept ps _ (custodial_kept p _ st h)

    lightnings_kept :
        (ps : List PaymentDetails) (st : ListState ids)
        → Mem a st.res
        → Mem a (add_lightnings ids tx_metadata ps st).res
    unfolding add_lightnings
    lightnings_kept [] st h = h
    lightnings_kept (p ∷ ps) st h = lightnings_kept ps _ (lightning_kept p _ st h)

module _ (ids : IdExternals) (tx_metadata : HashMap (PaymentId ids) (TxMetadata ids)) (time : ℕ)
    (ty : PaymentType) where
  custodials_add :
      (p : Payment ids) (ps : List (Payment ids)) (st : ListState ids)
      → get (id_key ids) tx_metadata (custodial p.id)
        ≡ some (record { time = time; ty = payment ty })
      → Mem p ps
      → Mem (of_custodial p ty time) (add_custodials ids tx_metadata ps st).res
  unfolding add_custodials add_custodial add_custodial_as
  custodials_add p [] st plain h = absurd (not-mem-nil h)
  custodials_add p (q ∷ ps) st plain h =
      Or.elim Mem-prop (eq-or-mem_of_mem-cons h)
        (λ e.
          custodials_kept ids _ tx_metadata ps _
            (rw (← e, plain) (mem-append_right st.res mem-cons_self)))
        (λ m. custodials_add p ps _ plain m)

  lightnings_add :
      (p : PaymentDetails) (ps : List PaymentDetails) (st : ListState ids)
      → get (id_key ids) tx_metadata (lightning p.id)
        ≡ some (record { time = time; ty = payment ty })
      → Mem p ps
      → Mem (of_lightning p time) (add_lightnings ids tx_metadata ps st).res
  unfolding add_lightnings add_lightning add_lightning_as
  lightnings_add p [] st plain h = absurd (not-mem-nil h)
  lightnings_add p (q ∷ ps) st plain h =
      Or.elim Mem-prop (eq-or-mem_of_mem-cons h)
        (λ e.
          lightnings_kept ids _ tx_metadata ps _
            (rw (← e, plain) (mem-append_right st.res mem-cons_self)))
        (λ m. lightnings_add p ps _ plain m)

  -- A payment of the custodial side that is recorded as a plain payment is listed, with the status,
  -- direction, amount and fee that custody tells, and the type and the time of its record.
  pub list_all_custodial :
      (cs : List (Payment ids)) (ls : List PaymentDetails) (p : Payment ids)
      → get (id_key ids) tx_metadata (custodial p.id)
        ≡ some (record { time = time; ty = payment ty })
      → Mem p cs
      → Mem (told_by_custody p ty time) (list_all ids tx_metadata cs ls)
  unfolding list_all
  list_all_custodial cs ls p plain m = sort_kept _ _ (
      mem-append_left (merge_transfers ids _)
        (lightnings_kept ids _ tx_metadata ls _ (custodials_add p cs _ plain m)))

  -- A payment of our channels that is recorded as a plain payment is listed, with the status,
  -- direction, amount (0 where there is none) and type that the node tells, the fee 0, and the time of
  -- its record.
  pub list_all_lightning :
      (cs : List (Payment ids)) (ls : List PaymentDetails) (p : PaymentDetails)
      → get (id_key ids) tx_metadata (lightning p.id)
        ≡ some (record { time = time; ty = payment ty })
      → Mem p ls
      → Mem (told_by_node p time) (list_all ids tx_metadata cs ls)
  unfolding list_all
  list_all_lightning cs ls p plain m =
      rw (← of_lightning_lem p time)
        (sort_kept _ _ (mem-append_left (merge_transfers ids _) (lightnings_add p ls _ plain m)))
