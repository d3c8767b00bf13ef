-- ===== src/Wallet/Listing.antt =====
-- `Wallet::list_transactions` (libbtcwallet/src/lib.rs): the payments of both sides, with those that
-- move funds between them left out and their fees added to the payment that triggered the move. The
-- iteration of a `HashMap` is in the order of the association list, one of the orders it may have.
pub mod Sorted
pub mod Sources
pub mod Charged
pub mod Sound
pub mod Shown
pub mod Found
use libbtcwallet.Base.{
  ℕ, Bool, true, false, Option, none, some, List, [], ◌∷◌, ◌++◌, leb, if◌then◌else◌, Result, ok,
  err, HashMap, get, put, beq,
}
use libbtcwallet.Amount.{Amount, from_milli_sats, saturating_add}
use libbtcwallet.Instructions.External.{Externals}
use libbtcwallet.Store.{
  IdExternals, PaymentId, lightning, custodial, TxStatus, pending, completed, failed, Transaction,
  PaymentType, TxType, TxMetadata, payment, payment_triggering_transfer_to_non_custodial,
  transfer_to_non_custodial, id_key,
}
use libbtcwallet.Wallet.Services.{Services, PaymentDetails, PaymentDirection, inbound, outbound}
use libbtcwallet.Wallet.Errors.{WalletError, custodial_failure}
use libbtcwallet.Wallet.Lightning.{status_of, type_of}
use libbtcwallet.Wallet.Custodial.{Payment, list_payments}

pub record InternalTransfer : Type 0 where
  pub lightning_receive_fee : Option Amount
  pub custodial_send_fee : Option Amount
  pub transaction : Option Transaction

abbrev pub no_transfer : InternalTransfer
no_transfer = record { lightning_receive_fee = none; custodial_send_fee = none; transaction = none }

abbrev pub unwrap_or_zero : Option Amount → Amount
unwrap_or_zero none = 0
unwrap_or_zero (some a) = a

abbrev pub or_no_transfer : Option InternalTransfer → InternalTransfer
or_no_transfer none = no_transfer
or_no_transfer (some t) = t

abbrev pub is_outbound : PaymentDirection → Bool
is_outbound inbound = false
is_outbound outbound = true

-- What is listed of a payment of either side.
abbrev pub of_custodial : {ids : IdExternals} → Payment ids → PaymentType → ℕ → Transaction
of_custodial p ty time = record {
  status = p.status;
  outbound = p.outbound;
  amount = p.amount;
  fee = p.fee;
  payment_type = ty;
  time_since_epoch = time;
}

unfoldable pub of_lightning : PaymentDetails → ℕ → Transaction
unfolding status_of type_of from_milli_sats
of_lightning p time = record {
  status = status_of p.status;
  outbound = is_outbound p.direction;
  amount = from_milli_sats (unwrap_or_zero p.amount_msat);
  fee = from_milli_sats 0;
  payment_type = type_of p.kind p.direction;
  time_since_epoch = time;
}

-- `sort_by_key(|e| e.time_since_epoch)`, which is stable.
unfoldable pub insert_by_time : Transaction → List Transaction → List Transaction
insert_by_time t [] = t ∷ []
insert_by_time t (u ∷ us) =
    let rest = insert_by_time t us in
    if leb t.time_since_epoch u.time_since_epoch then t ∷ u ∷ us else u ∷ rest

unfoldable pub sort_by_time : List Transaction → List Transaction
unfolding insert_by_time
sort_by_time [] = []
sort_by_time (t ∷ ts) = insert_by_time t (sort_by_time ts)

module _ (ids : IdExternals) where
  pub record ListState : Type 0 where
    pub res : List Transaction
    pub internal_transfers : HashMap (PaymentId ids) InternalTransfer

  abbrev pub empty_list : ListState
  empty_list = record { res = []; internal_transfers = [] }

  -- `internal_transfers.entry(id).or_insert(…)`, then an assignment to the entry
  unfoldable pub update_entry :
      PaymentId ids → (InternalTransfer → InternalTransfer) → ListState → ListState
  update_entry id f st = record st {
    internal_transfers =
        put (id_key ids) st.internal_transfers id
          (f (or_no_transfer (get (id_key ids) st.internal_transfers id)));
  }

  abbrev pub push : Transaction → ListState → ListState
  push t st = record st { res = st.res ++ t ∷ [] }

  -- The body of the first loop, by what the payment is recorded as.
  unfoldable pub add_custodial_as : Payment ids → ℕ → TxType ids → ListState → ListState
  unfolding update_entry
  add_custodial_as p time (payment ty) st = push (of_custodial p ty time) st
  add_custodial_as p time (payment_triggering_transfer_to_non_custodial ty) st =
      update_entry (custodial p.id) (λ t. record t { transaction = some (of_custodial p ty time) })
        st
  add_custodial_as p time (transfer_to_non_custodial custodial_payment lightning_payment trigger)
        st =
      update_entry trigger
        (λ t.
          if ids.uuid_key.same p.id custodial_payment
          then record t { custodial_send_fee = some p.fee }
          else t)
        st

  unfoldable pub add_custodial : Payment ids → Option (TxMetadata ids) → ListState → ListState
  unfolding add_custodial_as
  add_custodial p none st = st
  add_custodial p (some md) st = add_custodial_as p md.time md.ty st

  -- A payment that is not in the store is listed once it completed.
  unfoldable pub add_untracked : TxStatus → PaymentDetails → ListState → ListState
  unfolding of_lightning
  add_untracked completed p st = push (of_lightning p p.latest_update_timestamp) st
  add_untracked pending p st = st
  add_untracked failed p st = st

  -- The body of the second loop.
  unfoldable pub add_lightning_as : PaymentDetails → ℕ → TxType ids → ListState → ListState
  unfolding update_entry of_lightning from_milli_sats
  add_lightning_as p time (payment ty) st = push (of_lightning p time) st
  add_lightning_as p time (payment_triggering_transfer_to_non_custodial ty) st =
      update_entry (lightning p.id) (λ t. record t { transaction = some (of_lightning p time) }) st
  add_lightning_as p time (transfer_to_non_custodial custodial_payment lightning_payment trigger)
        st =
      update_entry trigger
        (λ t.
          if beq p.id lightning_payment
          then record t { lightning_receive_fee = some (from_milli_sats 0) }
          else t)
        st

  unfoldable pub add_lightning : PaymentDetails → Option (TxMetadata ids) → ListState → ListState
  unfolding add_untracked add_lightning_as status_of
  add_lightning p none st = add_untracked (status_of p.status) p st
  add_lightning p (some md) st = add_lightning_as p md.time md.ty st

  module _ (tx_metadata : HashMap (PaymentId ids) (TxMetadata ids)) where
    unfoldable pub add_custodials : List (Payment ids) → ListState → ListState
    unfolding add_custodial
    add_custodials [] st = st
    add_custodials (p ∷ ps) st =
        add_custodials ps (add_custodial p (get (id_key ids) tx_metadata (custodial p.id)) st)

    unfoldable pub add_lightnings : List PaymentDetails → ListState → ListState
    unfolding add_lightning
    add_lightnings [] st = st
    add_lightnings (p ∷ ps) st =
        add_lightnings ps (add_lightning p (get (id_key ids) tx_metadata (lightning p.id)) st)

  -- The fees of the move are added to those of the transaction.
  unfoldable pub with_fees : InternalTransfer → Transaction → Transaction
  unfolding saturating_add
  with_fees t tx = record tx {
    fee =
        saturating_add (saturating_add tx.fee (unwrap_or_zero t.lightning_receive_fee))
          (unwrap_or_zero t.custodial_send_fee);
  }

  abbrev pub merged : InternalTransfer → Option Transaction → List Transaction
  unfolding with_fees
  merged t none = []
  merged t (some tx) = with_fees t tx ∷ []

  -- The last loop.
  unfoldable pub merge_transfers : HashMap (PaymentId ids) InternalTransfer → List Transaction
  unfolding merged
  merge_transfers [] = []
  merge_transfers ((_, t) ∷ ts) = merged t t.transaction ++ merge_transfers ts

  unfoldable pub list_all :
      HashMap (PaymentId ids) (TxMetadata ids)
      → List (Payment ids)
      → List PaymentDetails
      → List Transaction
  unfolding sort_by_time
  list_all tx_metadata custodial_payments lightning_payments =
      let st =
        add_lightnings tx_metadata lightning_payments
          (add_custodials tx_metadata custodial_payments empty_list) in
      sort_by_time (st.res ++ merge_transfers st.internal_transfers)

  unfoldable pub list_transactions :
      {x : Externals} (s : Services x ids)
      → HashMap (PaymentId ids) (TxMetadata ids)
      → s.World
      → Result (WalletError s) (List Transaction) × s.World
  list_transactions s tx_metadata w = elim (list_payments s w).0 [
    | ok custodial_payments ↦ (
      ok (list_all tx_metadata custodial_payments (s.list_payments (list_payments s w).1)),
      (list_payments s w).1,
    )
    | err e ↦ (err (custodial_failure e), (list_payments s w).1)
  ]
