-- ===== src/Wallet/Custodial.antt =====
-- libbtcwallet/src/custodial_wallet.rs: the custodial side, over the Spark SDK.
use libbtcwallet.Base.{Bool, Option, none, some, List, map, Result, ok, err}
use libbtcwallet.Amount.{Amount, from_sats, sats_rounding_up}
use libbtcwallet.Instructions.External.{Externals}
use libbtcwallet.Instructions.{PaymentMethod, lightning_bolt11}
use libbtcwallet.Store.{IdExternals, TxStatus, pending, completed, failed}
use libbtcwallet.Wallet.Services.{
  Services, Transfer, TransferStatus, sender_initiated, sender_key_tweak_pending,
  sender_key_tweaked, receiver_key_tweaked, transfer_completed, expired, returned,
  receiver_refund_signed,
}

-- `impl From<TransferStatus> for TxStatus`
unfoldable pub transfer_status : TransferStatus → TxStatus
transfer_status sender_initiated = pending
transfer_status sender_key_tweak_pending = pending
transfer_status sender_key_tweaked = pending
transfer_status receiver_key_tweaked = pending
transfer_status transfer_completed = completed
transfer_status expired = failed
transfer_status returned = failed
transfer_status receiver_refund_signed = failed

pub record Payment (ids : IdExternals) : Type 0 where
  pub id : ids.CustodialPaymentId
  pub amount : Amount
  pub fee : Amount
  pub status : TxStatus
  pub outbound : Bool

-- The body of the loop of `list_payments`.
unfoldable pub payment_of : {ids : IdExternals} → Transfer ids → Payment ids
unfolding from_sats transfer_status
payment_of transfer = record {
  id = transfer.id;
  amount = from_sats transfer.total_value_sats;
  fee = from_sats 0;
  status = transfer_status transfer.status;
  outbound = transfer.from_us;
}

abbrev pub map_result : {E A B : Type 0} → (A → B) → Result E A → Result E B
map_result f (ok a) = ok (f a)
map_result f (err e) = err e

abbrev pub amount_or_zero : Option Amount → Amount
unfolding from_sats
amount_or_zero none = from_sats 0
amount_or_zero (some a) = a

module _ {x : Externals} {ids : IdExternals} (s : Services x ids) where
  unfoldable pub get_balance : s.World → Amount
  unfolding from_sats
  get_balance w = from_sats (s.get_bitcoin_balance w)

  unfoldable pub get_bolt11_invoice :
      s.World → Option Amount → Result s.CustodialError x.Bolt11Invoice × s.World
  unfolding sats_rounding_up
  get_bolt11_invoice w amount =
      s.create_lightning_invoice w (sats_rounding_up (amount_or_zero amount))

  unfoldable pub list_payments : s.World → Result s.CustodialError (List (Payment ids)) × s.World
  unfolding payment_of
  list_payments w =
      let (transfers, w') = s.get_all_transfers w in (map_result (map payment_of) transfers, w')

  unfoldable pub estimate_fee :
      s.World → PaymentMethod x → Amount → Result s.CustodialError Amount × s.World
  unfolding from_sats
  estimate_fee w (lightning_bolt11 invoice) amount =
      let (fees, w') = s.get_lightning_send_fee_estimate w invoice in
      (map_result from_sats fees, w')
  estimate_fee w method amount = (err s.only_bolt11, w)

  -- The amount is the invoice's own: the SDK is not told it.
  unfoldable pub pay :
      s.World → PaymentMethod x → Amount → Result s.CustodialError ids.CustodialPaymentId × s.World
  pay w (lightning_bolt11 invoice) amount = s.pay_lightning_invoice w invoice
  pay w method amount = (err s.only_bolt11, w)
