-- ===== src/Wallet/Listing/Sorted.antt =====
-- The order of the transactions that `list_transactions` returns.
use libbtcwallet.Base.{
  ◌≡◌, ℕ, ◌≤◌, arith, false, List, [], ◌∷◌, ◌++◌, All, All-map, leb, leb→le, Bool-cases, inl, inr,
  HashMap,
}
use libbtcwallet.Store.{IdExternals, PaymentId, Transaction, TxMetadata}
use libbtcwallet.Wallet.Services.{PaymentDetails}
use libbtcwallet.Wallet.Custodial.{Payment}
use libbtcwallet.Wallet.Listing.{
  insert_by_time, sort_by_time, list_all, add_lightnings, add_custodials, merge_transfers,
  empty_list,
}

-- No transaction is earlier than one in front of it.
abbrev pub IsSorted : List Transaction → Type 0
IsSorted [] = Unit
IsSorted (t ∷ ts) = All (λ u. t.time_since_epoch ≤ u.time_since_epoch) ts × IsSorted ts

pub insert-All :
    (P : Transaction → Type 0) (t : Transaction) (ts : List Transaction)
    → P t
    → All P ts
    → All P (insert_by_time t ts)
unfolding insert_by_time
insert-All P t [] h hs = (h, tt)
insert-All P t (u ∷ us) h (k, ks) = elim (Bool-cases (leb t.time_since_epoch u.time_since_epoch)) [
  | inl e ↦ rw e (h, (k, ks))
  | inr e ↦ rw e (k, insert-All P t us h ks)
]

later : (a b : ℕ) → leb a b ≡ false → b ≤ a
later a b h = ground arith

insert-IsSorted :
    (t : Transaction) (ts : List Transaction) → IsSorted ts → IsSorted (insert_by_time t ts)
unfolding insert_by_time
insert-IsSorted t [] h = (tt, tt)
insert-IsSorted t (u ∷ us) (k, ks) = elim (Bool-cases (leb t.time_since_epoch u.time_since_epoch)) [
  | inl e ↦
      let le = leb→le t.time_since_epoch u.time_since_epoch e in
      rw e ((le, All-map (λ v l. omega arith) us k), (k, ks))
  | inr e ↦
      rw e (
        insert-All _ t us (later t.time_since_epoch u.time_since_epoch e) k,
        insert-IsSorted t us ks,
      )
]

sort-IsSorted : (ts : List Transaction) → IsSorted (sort_by_time ts)
unfolding sort_by_time
sort-IsSorted [] = tt
sort-IsSorted (t ∷ ts) = insert-IsSorted t (sort_by_time ts) (sort-IsSorted ts)

-- The transactions are listed from the earliest to the latest.
list_all-IsSorted :
    (ids : IdExternals) (tx_metadata : HashMap (PaymentId ids) (TxMetadata ids))
    (cs : List (Payment ids)) (ls : List PaymentDetails)
    → IsSorted (list_all ids tx_metadata cs ls)
unfolding list_all
list_all-IsSorted ids tx_metadata cs ls =
    let st =
      add_lightnings ids tx_metadata ls (add_custodials ids tx_metadata cs (empty_list ids)) in
    sort-IsSorted (st.res ++ merge_transfers ids st.internal_transfers)
