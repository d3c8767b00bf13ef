-- ===== src/Wallet/Listing/Shown.antt =====
-- What `list_transactions` may list: no half of a transfer between the two sides stands alone.
use libbtcwallet.Wallet.Listing.Sound.{sort-All, custodials-IsSound, lightnings-IsSound}
use mathlib.Core.List.{Mem}
use libbtcwallet.Wallet.Listing.Sources.{
  IsTrigger, IsSendFee, IsAddedFee, fee_of_half, no_half, IsHalfOf, capped_sum, IsTransfer, IsShown,
  shown_trigger,
}
use mathlib.Core.Path.{subst}
use libbtcwallet.Base.{
  arith, is_some, true, false, All-map, entries-get, IsKeyed, IfSome, ◌≡◌, refl, Option, none, some,
  List, [], ◌∷◌, All, All-append, HashMap,
}
use libbtcwallet.Amount.{Amount, saturating_add, cap_sum, checked_add}
use libbtcwallet.Store.{IdExternals, PaymentId, lightning, Transaction, TxMetadata, id_key}
use libbtcwallet.Wallet.Services.{PaymentDetails}
use libbtcwallet.Wallet.Custodial.{Payment}
use libbtcwallet.Wallet.Listing.{
  unwrap_or_zero, with_fees, InternalTransfer, ListState, empty_list, add_custodials,
  add_lightnings, merged, merge_transfers, list_all,
}
use libbtcwallet.Wallet.Listing.Charged.{
  has_fee, Charges, custodials-Charges, lightnings-Charges, half-charged,
}

module _ (ids : IdExternals) (tx_metadata : HashMap (PaymentId ids) (TxMetadata ids))
    (cs : List (Payment ids)) (ls : List PaymentDetails) where
  -- At the end, the fee of an entry is that of a half, or no half in custody names it.
  added_fee :
      (id : PaymentId ids) (o : Option Amount)
      → IfSome (IsSendFee ids tx_metadata cs ls id) o
      → ((p : Payment ids) → Mem p cs → IsHalfOf ids tx_metadata id p → is_some o ≡ true)
      → IsAddedFee ids tx_metadata cs ls id (unwrap_or_zero o)
  added_fee id none h k = no_half (λ p m half. absurd (no_fee (k p m half)))
    where
      no_fee : false ≡ true → ⊥
      no_fee e = cc
  added_fee id (some fee) h k = fee_of_half h

  capped :
      (a b : Amount) (o : Option Amount)
      → IfSome (λ fee. fee ≡ 0) o
      → saturating_add (saturating_add a (unwrap_or_zero o)) b ≡ capped_sum a b
  unfolding saturating_add cap_sum checked_add
  capped a b none h = ground arith
  capped a b (some r) h = rw h (ground arith)

  -- An entry is charged as the map has it.
  abbrev IsCharged : PaymentId ids × InternalTransfer → Type 0
  IsCharged e =
      (p : Payment ids)
      → Mem p cs
      → IsHalfOf ids tx_metadata e.0 p
      → is_some e.1.custodial_send_fee ≡ true

  merged-All :
      (id : PaymentId ids) (t : InternalTransfer) (o : Option Transaction)
      → IfSome ((IsTrigger ids tx_metadata cs ls) id) o
      → (IsTransfer ids tx_metadata cs ls) id t
      → IsCharged (id, t)
      → All (IsShown ids tx_metadata cs ls) (merged ids t o)
  unfolding merged with_fees
  merged-All id t none h k c = tt
  merged-All id t (some tx) h k c = (
    rw (capped tx.fee (unwrap_or_zero t.custodial_send_fee) t.lightning_receive_fee k.receive)
        (shown_trigger id tx _ h (added_fee id t.custodial_send_fee k.sending c)),
    tt,
  )

  merge-All :
      (m : HashMap (PaymentId ids) InternalTransfer)
      → All (λ e. (IsTransfer ids tx_metadata cs ls) e.0 e.1) m
      → All IsCharged m
      → All (IsShown ids tx_metadata cs ls) (merge_transfers ids m)
  unfolding merge_transfers
  merge-All [] h c = tt
  merge-All ((id, t) ∷ m) (h, hs) (c, cs') =
      All-append _ _ _ (merged-All id t t.transaction h.transaction h c) (merge-All m hs cs')

  starts-Charges : (id : PaymentId ids) → Charges ids id false (empty_list ids)
  starts-Charges id = record { keyed = tt; charged = λ e. cc }

  abbrev gone_through : ListState ids
  gone_through =
      add_lightnings ids tx_metadata ls (add_custodials ids tx_metadata cs (empty_list ids))

  ends-Charges :
      (id : PaymentId ids) (p : Payment ids)
      → Mem p cs
      → IsHalfOf ids tx_metadata id p
      → Charges ids id true gone_through
  ends-Charges id p m half = lightnings-Charges ids id true tx_metadata ls _ (record {
    keyed = (custodials-Charges ids id false tx_metadata cs _ (starts-Charges id)).keyed;
    charged = λ _. half-charged ids id tx_metadata p cs _ half m (starts-Charges id);
  })

  ends-IsKeyed : IsKeyed (id_key ids) gone_through.internal_transfers
  ends-IsKeyed =
      let any : PaymentId ids = lightning [] in
      (lightnings-Charges ids any false tx_metadata ls _
        (custodials-Charges ids any false tx_metadata cs _ (starts-Charges any))).keyed

  ends-IsCharged : All IsCharged gone_through.internal_transfers
  ends-IsCharged =
      All-map
        (λ e same p m half.
          let has = (ends-Charges e.0 p m half).charged refl in
          subst (λ o. has_fee o ≡ true) same has)
        gone_through.internal_transfers
        (entries-get (id_key ids) gone_through.internal_transfers ends-IsKeyed)

  -- Whatever is listed is a payment of one side that is recorded as a plain payment, as the side tells
  -- it; a completed payment of our channels that has no record, as the node tells it; or a payment
  -- that a rebalance was charged to, as its side tells it, with the fee added of a half in custody of
  -- a transfer that names it, if there is one. So a payment that is recorded as a half of a transfer
  -- is not listed on its own.
  pub list_all-AllShown : All (IsShown ids tx_metadata cs ls) (list_all ids tx_metadata cs ls)
  unfolding list_all
  list_all-AllShown =
      let h =
        lightnings-IsSound ids tx_metadata cs ls ls _ (λ p m. m)
          (custodials-IsSound ids tx_metadata cs ls cs (empty_list ids) (λ p m. m)
            (record { listed = tt; transfers = tt })) in
      sort-All (IsShown ids tx_metadata cs ls) _
        (All-append _ _ _ h.listed (merge-All _ h.transfers ends-IsCharged))
