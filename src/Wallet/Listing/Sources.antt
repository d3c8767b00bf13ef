-- ===== src/Wallet/Listing/Sources.antt =====
-- What a listed transaction comes from.
use mathlib.Core.List.{Mem}
use libbtcwallet.Base.{
  if◌then◌else◌, leb, ◌+◌, refl, Bool, true, false, Option, IfSome, ℕ, ◌≡◌, none, some, List,
  HashMap, get,
}
use libbtcwallet.Amount.{max_msats, Amount, from_milli_sats}
use libbtcwallet.Store.{
  IdExternals, PaymentId, PaymentType, Bytes32, lightning, custodial, pending, completed, failed,
  TxStatus, Transaction, outgoing_lightning_bolt11, outgoing_lightning_bolt12, outgoing_on_chain,
  incoming_on_chain, incoming_lightning, TxType, TxMetadata, payment,
  payment_triggering_transfer_to_non_custodial, transfer_to_non_custodial, id_key,
}
use libbtcwallet.Wallet.Lightning.{status_of, type_of}
use libbtcwallet.Wallet.Services.{
  PaymentDetails, PaymentStatus, status_pending, status_succeeded, status_failed, PaymentDirection,
  inbound, outbound, PaymentKind, onchain, bolt11, bolt11_jit, bolt12_offer, bolt12_refund,
  spontaneous,
}
use libbtcwallet.Wallet.Custodial.{Payment}
use libbtcwallet.Wallet.Listing.{InternalTransfer, of_lightning, is_outbound, unwrap_or_zero}

-- A sum of amounts is at most all bitcoin there are.
abbrev pub capped_sum : Amount → Amount → Amount
capped_sum a b = if leb (a + b) max_msats then a + b else max_msats

-- A payment as custody tells it, with the type and time of its record.
abbrev pub told_by_custody : {ids : IdExternals} → Payment ids → PaymentType → ℕ → Transaction
told_by_custody p ty time = record {
  status = p.status;
  outbound = p.outbound;
  amount = p.amount;
  fee = p.fee;
  payment_type = ty;
  time_since_epoch = time;
}

-- The words of the node for a payment.
abbrev pub node_status : PaymentStatus → TxStatus
node_status status = elim status [
  | status_pending ↦ pending
  | status_succeeded ↦ completed
  | status_failed ↦ failed
]

abbrev pub leaves : PaymentDirection → Bool
leaves direction = elim direction [ inbound ↦ false | outbound ↦ true ]

abbrev pub node_amount : Option ℕ → Amount
node_amount amount_msat = elim amount_msat [ none ↦ 0 | some a ↦ a ]

-- Received payments are told apart by on chain or not, sent ones by their invoice or offer too.
abbrev pub node_type : PaymentDirection → PaymentKind → PaymentType
node_type inbound onchain = incoming_on_chain
node_type inbound kind = incoming_lightning
node_type outbound onchain = outgoing_on_chain
node_type outbound (bolt11 hash preimage) = outgoing_lightning_bolt11 preimage
node_type outbound (bolt11_jit hash preimage) = outgoing_lightning_bolt11 preimage
node_type outbound (bolt12_offer preimage) = outgoing_lightning_bolt12 preimage
node_type outbound (bolt12_refund preimage) = outgoing_lightning_bolt12 preimage
node_type outbound (spontaneous preimage) = outgoing_lightning_bolt12 preimage

-- A payment as the node tells it, without a fee.
abbrev pub told_by_node : PaymentDetails → ℕ → Transaction
told_by_node p time = record {
  status = node_status p.status;
  outbound = leaves p.direction;
  amount = node_amount p.amount_msat;
  fee = 0;
  payment_type = node_type p.direction p.kind;
  time_since_epoch = time;
}

status_of_lem : (status : PaymentStatus) → status_of status ≡ node_status status
unfolding status_of
status_of_lem status_pending = refl
status_of_lem status_succeeded = refl
status_of_lem status_failed = refl

is_outbound_lem : (direction : PaymentDirection) → is_outbound direction ≡ leaves direction
is_outbound_lem inbound = refl
is_outbound_lem outbound = refl

unwrap_or_zero_lem : (o : Option Amount) → unwrap_or_zero o ≡ node_amount o
unwrap_or_zero_lem none = refl
unwrap_or_zero_lem (some a) = refl

type_of_lem :
    (direction : PaymentDirection) (kind : PaymentKind)
    → type_of kind direction ≡ node_type direction kind
unfolding type_of
type_of_lem inbound onchain = refl
type_of_lem inbound (bolt11 hash preimage) = refl
type_of_lem inbound (bolt11_jit hash preimage) = refl
type_of_lem inbound (bolt12_offer preimage) = refl
type_of_lem inbound (bolt12_refund preimage) = refl
type_of_lem inbound (spontaneous preimage) = refl
type_of_lem outbound onchain = refl
type_of_lem outbound (bolt11 hash preimage) = refl
type_of_lem outbound (bolt11_jit hash preimage) = refl
type_of_lem outbound (bolt12_offer preimage) = refl
type_of_lem outbound (bolt12_refund preimage) = refl
type_of_lem outbound (spontaneous preimage) = refl

pub of_lightning_lem : (p : PaymentDetails) (time : ℕ) → of_lightning p time ≡ told_by_node p time
unfolding of_lightning from_milli_sats
of_lightning_lem p time =
    rw
      (
        status_of_lem p.status,
        is_outbound_lem p.direction,
        unwrap_or_zero_lem p.amount_msat,
        type_of_lem p.direction p.kind,
      )
      refl

module _ (ids : IdExternals) (tx_metadata : HashMap (PaymentId ids) (TxMetadata ids)) where
  abbrev pub IsRecordedAs : PaymentId ids → ℕ → TxType ids → Type 0
  IsRecordedAs id time ty = get (id_key ids) tx_metadata id ≡ some (record { time = time; ty = ty })

  -- The payment is recorded as the custodial half of a transfer that the trigger is charged for.
  abbrev pub IsHalfOf : PaymentId ids → Payment ids → Type 0
  IsHalfOf trigger p =
      (time : ℕ) × (lightning_payment : Bytes32) × IsRecordedAs (custodial p.id) time
        (transfer_to_non_custodial p.id lightning_payment trigger)

module _ (ids : IdExternals) (tx_metadata : HashMap (PaymentId ids) (TxMetadata ids))
    (cs : List (Payment ids)) (ls : List PaymentDetails) where
  -- The transaction of a payment that a rebalance was charged to.
  pub data IsTrigger : PaymentId ids → Transaction → Type 0 where
    custodial_trigger :
        (p : Payment ids) (time : ℕ) (ty : PaymentType)
        → Mem p cs
        → IsRecordedAs ids tx_metadata
            (custodial p.id)
            time
            (payment_triggering_transfer_to_non_custodial ty)
        → IsTrigger (custodial p.id) (told_by_custody p ty time)
    lightning_trigger :
        (p : PaymentDetails) (time : ℕ) (ty : PaymentType)
        → Mem p ls
        → IsRecordedAs ids tx_metadata
            (lightning p.id)
            time
            (payment_triggering_transfer_to_non_custodial ty)
        → IsTrigger (lightning p.id) (told_by_node p time)

  -- The fee of the half of a transfer that names the trigger.
  pub data IsSendFee (trigger : PaymentId ids) : Amount → Type 0 where
    send_fee :
        (p : Payment ids) (time : ℕ) (lightning_payment : Bytes32)
        → Mem p cs
        → IsRecordedAs ids tx_metadata
            (custodial p.id)
            time
            (transfer_to_non_custodial p.id lightning_payment trigger)
        → IsSendFee trigger p.fee

  -- The fee of a custodial half that names the trigger, and 0 only if there is none.
  pub data IsAddedFee (trigger : PaymentId ids) : Amount → Type 0 where
    fee_of_half : {fee : Amount} → IsSendFee trigger fee → IsAddedFee trigger fee
    no_half :
        ((p : Payment ids) → Mem p cs → IsHalfOf ids tx_metadata trigger p → ⊥)
        → IsAddedFee trigger 0

  pub record IsTransfer (id : PaymentId ids) (t : InternalTransfer) : Type 0 where
    pub transaction : IfSome (IsTrigger id) t.transaction
    pub sending : IfSome (IsSendFee id) t.custodial_send_fee
    pub receive : IfSome (λ fee. fee ≡ 0) t.lightning_receive_fee

  -- What may be listed.
  pub data IsShown : Transaction → Type 0 where
    shown_custodial :
        (p : Payment ids) (time : ℕ) (ty : PaymentType)
        → Mem p cs
        → IsRecordedAs ids tx_metadata (custodial p.id) time (payment ty)
        → IsShown (told_by_custody p ty time)
    shown_lightning :
        (p : PaymentDetails) (time : ℕ) (ty : PaymentType)
        → Mem p ls
        → IsRecordedAs ids tx_metadata (lightning p.id) time (payment ty)
        → IsShown (told_by_node p time)
    shown_untracked :
        (p : PaymentDetails)
        → Mem p ls
        → get (id_key ids) tx_metadata (lightning p.id) ≡ none
        → p.status ≡ status_succeeded
        → IsShown (told_by_node p p.latest_update_timestamp)
    shown_trigger :
        (id : PaymentId ids) (tx : Transaction) (fee : Amount)
        → IsTrigger id tx
        → IsAddedFee id fee
        → IsShown (record tx { fee = capped_sum tx.fee fee })
