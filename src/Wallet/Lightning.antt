-- ===== src/Wallet/Lightning.antt =====
-- libbtcwallet/src/lightning_wallet.rs: the self-custodial side, over `ldk_node`.

use libbtcwallet.Base.{ℕ, Option, none, some, List, [], ◌∷◌, leb, ltb, if◌then◌else◌, Result, ok}
use libbtcwallet.Amount.{Amount, from_sats, from_milli_sats, msats, sats_rounding_up}
use libbtcwallet.Instructions.External.{Externals}
use libbtcwallet.Instructions.{PaymentMethod, lightning_bolt11, lightning_bolt12, on_chain}
use libbtcwallet.Store.{
  IdExternals, Bytes32, TxStatus, pending, completed, failed, PaymentType,
  outgoing_lightning_bolt11, outgoing_lightning_bolt12, outgoing_on_chain, incoming_on_chain,
  incoming_lightning,
}
use libbtcwallet.Wallet.Services.{
  Services, PaymentStatus, status_pending, status_succeeded, status_failed, PaymentDirection,
  inbound, outbound, PaymentKind, onchain, bolt11, bolt11_jit, bolt12_offer, bolt12_refund,
  spontaneous,
}

-- `impl From<PaymentStatus> for TxStatus`
unfoldable pub status_of : PaymentStatus → TxStatus
status_of status_pending = pending
status_of status_succeeded = completed
status_of status_failed = failed

-- `impl From<&PaymentDetails> for PaymentType`
unfoldable pub type_of : PaymentKind → PaymentDirection → PaymentType
type_of (bolt11 hash preimage) outbound = outgoing_lightning_bolt11 preimage
type_of (bolt11_jit hash preimage) outbound = outgoing_lightning_bolt11 preimage
type_of (bolt12_offer preimage) outbound = outgoing_lightning_bolt12 preimage
type_of (bolt12_refund preimage) outbound = outgoing_lightning_bolt12 preimage
type_of (spontaneous preimage) outbound = outgoing_lightning_bolt12 preimage
type_of onchain outbound = outgoing_on_chain
type_of onchain inbound = incoming_on_chain
type_of kind inbound = incoming_lightning

-- `Iterator::max`
abbrev pub max_of : List ℕ → Option ℕ
max_of [] = none
max_of (a ∷ as_) = elim (max_of as_) [ none ↦ some a | some m ↦ some (if ltb m a then a else m) ]

abbrev pub unwrap_or : Option ℕ → ℕ → ℕ
unwrap_or none d = d
unwrap_or (some a) d = a

module _ {x : Externals} {ids : IdExternals} (s : Services x ids) where
  unfoldable pub estimate_receivable_balance : s.World → Amount
  unfolding from_milli_sats
  estimate_receivable_balance w = from_milli_sats (unwrap_or (max_of (s.inbound_capacities w)) 0)

  unfoldable pub get_balance : s.World → Amount × Amount
  unfolding from_sats
  get_balance w =
      (from_sats (s.total_lightning_balance_sats w), from_sats (s.total_onchain_balance_sats w))

  abbrev pub receivable_min : Amount
  unfolding from_sats
  receivable_min = from_sats 100_000

  -- A channel is opened just in time where what we can receive falls short.
  unfoldable pub get_bolt11_invoice :
      s.World → Option Amount → Result s.NodeError x.Bolt11Invoice × s.World
  unfolding estimate_receivable_balance msats
  get_bolt11_invoice w (some amt) =
      if leb amt (estimate_receivable_balance w)
      then s.receive w (msats amt)
      else s.receive_via_jit_channel w (msats amt)
  get_bolt11_invoice w none =
      if leb receivable_min (estimate_receivable_balance w)
      then s.receive_variable_amount w
      else s.receive_variable_amount_via_jit_channel w

  -- The estimate is always 0.
  unfoldable pub estimate_fee :
      s.World → PaymentMethod x → Amount → Result s.NodeError Amount × s.World
  unfolding from_sats
  estimate_fee w method amount = (ok (from_sats 0), w)

  unfoldable pub pay : s.World → PaymentMethod x → Amount → Result s.NodeError Bytes32 × s.World
  unfolding msats sats_rounding_up
  pay w (lightning_bolt11 inv) amount = s.send_bolt11 w inv (msats amount)
  pay w (lightning_bolt12 offer) amount = s.send_bolt12 w offer (msats amount)
  pay w (on_chain _ address) amount = s.send_to_address w address (sats_rounding_up amount)
