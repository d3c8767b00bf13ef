-- ===== src/Wallet/Services.antt =====
-- What the wallet takes from the `spark_rust` SDK and from `ldk_node`. Both live in a world that any
-- call may change; a call returns its result with the new world.
use libbtcwallet.Base.{Bytes, ℕ, Bool, Option, List, Result}
use libbtcwallet.Instructions.External.{Externals}
use libbtcwallet.Store.{IdExternals, Bytes32}

-- `spark_protos::spark::TransferStatus`
pub data TransferStatus : Type 0 where
  sender_initiated sender_key_tweak_pending sender_key_tweaked receiver_key_tweaked : TransferStatus
  transfer_completed expired returned receiver_refund_signed : TransferStatus

-- The fields of a Spark transfer that are read; `from_us` is the comparison of the sender's key with
-- ours.
pub record Transfer (ids : IdExternals) : Type 0 where
  pub id : ids.CustodialPaymentId
  pub status : TransferStatus
  pub total_value_sats : ℕ
  pub from_us : Bool

-- `ldk_node::payment`: the fields of `PaymentDetails` that are read.
pub data PaymentStatus : Type 0 where
  status_pending status_succeeded status_failed : PaymentStatus

pub data PaymentDirection : Type 0 where
  inbound outbound : PaymentDirection

pub data PaymentKind : Type 0 where
  onchain : PaymentKind
  bolt11 bolt11_jit : Bytes32 → Option Bytes32 → PaymentKind
  bolt12_offer bolt12_refund spontaneous : Option Bytes32 → PaymentKind

pub record PaymentDetails : Type 0 where
  pub id : Bytes32
  pub kind : PaymentKind
  pub amount_msat : Option ℕ
  pub direction : PaymentDirection
  pub status : PaymentStatus
  pub latest_update_timestamp : ℕ

pub record Services (x : Externals) (ids : IdExternals) : Type 1 where
  pub World : Type 0
  pub CustodialError : Type 0
  -- `Error::General("Only BOLT 11 is currently supported")`
  pub only_bolt11 : CustodialError
  pub NodeError : Type 0
  -- `NodeError::InsufficientFunds`
  pub insufficient_funds : NodeError
  -- `SystemTime::now()` since the epoch, in seconds
  pub now : World → ℕ
  -- the Spark SDK
  pub get_bitcoin_balance : World → ℕ
  pub get_lightning_send_fee_estimate : World → x.Bolt11Invoice → Result CustodialError ℕ × World
  pub pay_lightning_invoice :
      World → x.Bolt11Invoice → Result CustodialError ids.CustodialPaymentId × World
  pub create_lightning_invoice : World → ℕ → Result CustodialError x.Bolt11Invoice × World
  pub get_all_transfers : World → Result CustodialError (List (Transfer ids)) × World
  -- ldk-node
  pub total_lightning_balance_sats : World → ℕ
  pub total_onchain_balance_sats : World → ℕ
  -- the `inbound_capacity_msat` of the channels
  pub inbound_capacities : World → List ℕ
  pub send_bolt11 : World → x.Bolt11Invoice → ℕ → Result NodeError Bytes32 × World
  pub send_bolt12 : World → x.Offer → ℕ → Result NodeError Bytes32 × World
  pub send_to_address : World → x.Address → ℕ → Result NodeError Bytes32 × World
  pub receive : World → ℕ → Result NodeError x.Bolt11Invoice × World
  pub receive_via_jit_channel : World → ℕ → Result NodeError x.Bolt11Invoice × World
  pub receive_variable_amount : World → Result NodeError x.Bolt11Invoice × World
  pub receive_variable_amount_via_jit_channel : World → Result NodeError x.Bolt11Invoice × World
  pub list_payments : World → List PaymentDetails
  -- `inv.payment_hash()`
  pub payment_hash : x.Bolt11Invoice → Bytes32
  -- `Display` of an invoice and of an address
  pub invoice_to_string : x.Bolt11Invoice → Bytes
  pub address_to_string : x.Address → Bytes
  -- the world once a payment was received, after which `await_payment_receipt` returns
  pub next_receipt : World → World
  pub new_address : World → Result NodeError x.Address × World
