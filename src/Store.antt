-- ===== src/Store.antt =====
-- libbtcwallet/src/store.rs: the records of transactions, and the ids that they are stored under.
-- `TxMetadataStore` stands in `Metadata`.
pub mod Ids
pub mod Kv
pub mod Encoding
pub mod Metadata
pub mod Synced
pub mod Marks
pub mod Reload
pub mod Refinement
use libbtcwallet.Base.{
  ℕ, ◌≡◌, refl, ap, Bool, true, false, Option, Bytes, Key, beq, beq_eq, beq_refl, Result,
}
use libbtcwallet.Amount.{Amount}

pub data TxStatus : Type 0 where
  pending completed failed : TxStatus

-- A 32-byte array, by its bytes.
abbrev pub Bytes32 : Type 0
Bytes32 = Bytes

pub data PaymentType : Type 0 where
  outgoing_lightning_bolt12 outgoing_lightning_bolt11 : Option Bytes32 → PaymentType
  outgoing_on_chain incoming_on_chain incoming_lightning : PaymentType

pub record Transaction : Type 0 where
  pub status : TxStatus
  pub outbound : Bool
  pub amount : Amount
  pub fee : Amount
  pub payment_type : PaymentType
  pub time_since_epoch : ℕ

-- What the ids take from other crates: `uuid::Uuid`, which is inside a `CustodialPaymentId`, and the
-- hexadecimal text of `bitcoin::hex`.
pub record IdExternals : Type 1 where
  pub CustodialPaymentId : Type 0
  -- `==` and `<` of `Uuid`
  pub uuid_key : Key CustodialPaymentId
  pub uuid_lt : CustodialPaymentId → CustodialPaymentId → Bool
  pub uuid_to_string : CustodialPaymentId → Bytes
  pub uuid_from_str : Bytes → Result (Unit {0}) CustodialPaymentId
  pub to_hex : Bytes32 → Bytes
  pub from_hex : Bytes → Result (Unit {0}) Bytes32

pub data PaymentId (x : IdExternals) : Type 0 where
  lightning : Bytes32 → PaymentId x
  custodial : x.CustodialPaymentId → PaymentId x

pub data TxType (x : IdExternals) : Type 0 where
  transfer_to_non_custodial : x.CustodialPaymentId → Bytes32 → PaymentId x → TxType x
  payment_triggering_transfer_to_non_custodial : PaymentType → TxType x
  payment : PaymentType → TxType x

pub record TxMetadata (x : IdExternals) : Type 0 where
  pub time : ℕ
  pub ty : TxType x

module _ (x : IdExternals) where
  -- The derived `==` of `PaymentId`.
  abbrev pub same_id : PaymentId x → PaymentId x → Bool
  same_id (lightning a) (lightning b) = beq a b
  same_id (lightning a) (custodial b) = false
  same_id (custodial a) (lightning b) = false
  same_id (custodial a) (custodial b) = x.uuid_key.same a b

  pub same_id_sound : (a b : PaymentId x) → same_id a b ≡ true → a ≡ b
  same_id_sound (lightning a) (lightning b) h = ap lightning (beq_eq a b h)
  same_id_sound (lightning a) (custodial b) h = cc
  same_id_sound (custodial a) (lightning b) h = cc
  same_id_sound (custodial a) (custodial b) h = ap custodial ((x.uuid_key.same_iff a b).0 h)

  pub same_id_self : (a : PaymentId x) → same_id a a ≡ true
  same_id_self (lightning a) = beq_refl a
  same_id_self (custodial a) = (x.uuid_key.same_iff a a).1 refl

  abbrev pub id_key : Key (PaymentId x)
  id_key = record {
    same = same_id;
    same_iff = λ a b. (same_id_sound a b, λ e. rw e (same_id_self b));
  }
