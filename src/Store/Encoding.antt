-- ===== src/Store/Encoding.antt =====
-- The encoding of the records of transactions: the variants and fields that store.rs gives to the macros
-- of `lightning`, and `CustodialPaymentId` of custodial_wallet.rs. What the macros write for a list of
-- fields or a variant, and the encoding of the parts, are parameters.
pub mod RoundTrip
use libbtcwallet.Base.{
  ℕ, ◌≡◌, true, Bool, false, ◌==◌, ◌&&◌, ltb, Option, none, some, List, [], ◌∷◌, Bytes,
  if◌then◌else◌,
}
use libbtcwallet.Store.{
  IdExternals, Bytes32, PaymentId, lightning, custodial, PaymentType, outgoing_lightning_bolt12,
  outgoing_lightning_bolt11, outgoing_on_chain, incoming_on_chain, incoming_lightning, TxType,
  payment, payment_triggering_transfer_to_non_custodial, transfer_to_non_custodial, TxMetadata,
}
use libbtcwallet.Store.Kv.{Codec}

abbrev pub Fields : Type 0
Fields = List (ℕ × Bytes)

pub record Tlv (x : IdExternals) : Type 0 where
  -- A stream of fields; the reader is given the types that it knows.
  pub write_fields : Fields → Bytes
  pub read_fields : List ℕ → Bytes → Option Fields
  -- A variant of an enum by its id, with what it holds.
  pub write_variant : ℕ → Bytes → Bytes
  pub read_variant : Bytes → Option (ℕ × Bytes)
  pub write_bytes32 : Bytes32 → Bytes
  pub read_bytes32 : Bytes → Option Bytes32
  pub write_duration : ℕ → Bytes
  pub read_duration : Bytes → Option ℕ
  -- the 16 bytes inside a `Uuid`, and their encoding
  pub uuid_as_bytes : x.CustodialPaymentId → Bytes
  pub uuid_from_bytes : Bytes → x.CustodialPaymentId
  pub write_bytes16 : Bytes → Bytes
  pub read_bytes16 : Bytes → Option Bytes

abbrev pub increasing : List ℕ → Bool
increasing [] = true
increasing (k ∷ []) = true
increasing (k ∷ j ∷ ks) = ltb k j && increasing (j ∷ ks)

-- The fields have types that are known, each once and in their order.
abbrev pub within : List ℕ → Fields → Bool
within ks [] = true
within [] (f ∷ fs) = false
within (k ∷ ks) ((t, b) ∷ fs) = if k == t then within ks fs else within ks ((t, b) ∷ fs)

pub record TlvLaws {x : IdExternals} (t : Tlv x) : Type 0 where
  pub fields :
      (known : List ℕ) (fs : Fields)
      → increasing known ≡ true
      → within known fs ≡ true
      → t.read_fields known (t.write_fields fs) ≡ some fs
  pub variant : (id : ℕ) (b : Bytes) → t.read_variant (t.write_variant id b) ≡ some (id, b)
  pub bytes32 : (b : Bytes32) → t.read_bytes32 (t.write_bytes32 b) ≡ some b
  pub duration : (d : ℕ) → t.read_duration (t.write_duration d) ≡ some d
  pub uuid :
      (u : x.CustodialPaymentId)
      → t.read_bytes16 (t.write_bytes16 (t.uuid_as_bytes u)) ≡ some (t.uuid_as_bytes u)
  pub uuid_bytes : (u : x.CustodialPaymentId) → t.uuid_from_bytes (t.uuid_as_bytes u) ≡ u

-- `?` on an `Option`
abbrev bind_some : {A B : Type 0} → Option A → (A → Option B) → Option B
bind_some none f = none
bind_some (some a) f = f a

-- A field of a type, in what was read.
abbrev field : ℕ → Fields → Option Bytes
field k [] = none
field k ((t, b) ∷ fs) = let rest = field k fs in if k == t then some b else rest

module _ {x : IdExternals} (t : Tlv x) where
  abbrev optional : {A : Type 0} → (Bytes → Option A) → Option Bytes → Option (Option A)
  optional read none = some none
  optional read (some b) = bind_some (read b) λ a. some (some a)

  -- `(k, field, option)`
  abbrev option_field : {A : Type 0} → ℕ → (A → Bytes) → Option A → Fields
  option_field k write none = []
  option_field k write (some a) = (k, write a) ∷ []

  unfoldable pub write_custodial_id : x.CustodialPaymentId → Bytes
  write_custodial_id u = t.write_bytes16 (t.uuid_as_bytes u)

  unfoldable pub read_custodial_id : Bytes → Option x.CustodialPaymentId
  read_custodial_id b = bind_some (t.read_bytes16 b) λ bytes. some (t.uuid_from_bytes bytes)

  unfoldable pub write_payment_id : PaymentId x → Bytes
  unfolding write_custodial_id
  write_payment_id (lightning b) = t.write_variant 0 (t.write_bytes32 b)
  write_payment_id (custodial u) = t.write_variant 1 (write_custodial_id u)

  unfoldable pub read_payment_id_as : ℕ × Bytes → Option (PaymentId x)
  unfolding read_custodial_id
  read_payment_id_as (id, b) =
      if id == 0
      then bind_some (t.read_bytes32 b) (λ bytes. some (lightning bytes))
      else if id == 1
      then bind_some (read_custodial_id b) (λ u. some (custodial u))
      else none

  unfoldable pub read_payment_id : Bytes → Option (PaymentId x)
  unfolding read_payment_id_as
  read_payment_id b = bind_some (t.read_variant b) read_payment_id_as

  unfoldable pub write_payment_type : PaymentType → Bytes
  write_payment_type (outgoing_lightning_bolt12 payment_preimage) =
      t.write_variant 0 (t.write_fields (option_field 0 t.write_bytes32 payment_preimage))
  write_payment_type (outgoing_lightning_bolt11 payment_preimage) =
      t.write_variant 1 (t.write_fields (option_field 0 t.write_bytes32 payment_preimage))
  write_payment_type outgoing_on_chain = t.write_variant 2 (t.write_fields [])
  write_payment_type incoming_on_chain = t.write_variant 3 (t.write_fields [])
  write_payment_type incoming_lightning = t.write_variant 4 (t.write_fields [])

  abbrev read_preimage : Bytes → Option (Option Bytes32)
  read_preimage b = bind_some (t.read_fields (0 ∷ []) b) λ fs. optional t.read_bytes32 (field 0 fs)

  abbrev read_nothing : Bytes → PaymentType → Option PaymentType
  read_nothing b ty = bind_some (t.read_fields [] b) λ fs. some ty

  unfoldable pub read_payment_type_as : ℕ × Bytes → Option PaymentType
  read_payment_type_as (id, b) =
      if id == 0
      then bind_some (read_preimage b) (λ p. some (outgoing_lightning_bolt12 p))
      else if id == 1
      then bind_some (read_preimage b) (λ p. some (outgoing_lightning_bolt11 p))
      else if id == 2
      then read_nothing b outgoing_on_chain
      else if id == 3
      then read_nothing b incoming_on_chain
      else if id == 4
      then read_nothing b incoming_lightning
      else none

  unfoldable pub read_payment_type : Bytes → Option PaymentType
  unfolding read_payment_type_as
  read_payment_type b = bind_some (t.read_variant b) read_payment_type_as

  unfoldable pub write_tx_type : TxType x → Bytes
  unfolding write_custodial_id write_payment_id write_payment_type
  write_tx_type (transfer_to_non_custodial custodial_payment lightning_payment trigger) =
      t.write_variant 0 (
        t.write_fields (
          (0, write_custodial_id custodial_payment)
          ∷ (2, t.write_bytes32 lightning_payment)
          ∷ (4, write_payment_id trigger)
          ∷ []))
  write_tx_type (payment_triggering_transfer_to_non_custodial ty) =
      t.write_variant 1 (t.write_fields ((0, write_payment_type ty) ∷ []))
  write_tx_type (payment ty) = t.write_variant 2 (t.write_fields ((0, write_payment_type ty) ∷ []))

  -- `(k, field, required)`
  abbrev required : {A : Type 0} → ℕ → (Bytes → Option A) → Fields → Option A
  required k read fs = bind_some (field k fs) read

  abbrev read_transfer : Fields → Option (TxType x)
  unfolding read_custodial_id read_payment_id
  read_transfer fs = bind_some (required 0 read_custodial_id fs) λ custodial_payment.
      bind_some (required 2 t.read_bytes32 fs) λ lightning_payment.
        bind_some (required 4 read_payment_id fs)
          λ trigger. some (transfer_to_non_custodial custodial_payment lightning_payment trigger)

  abbrev read_ty : Bytes → Option PaymentType
  unfolding read_payment_type
  read_ty b = bind_some (t.read_fields (0 ∷ []) b) λ fs. required 0 read_payment_type fs

  unfoldable pub read_tx_type_as : ℕ × Bytes → Option (TxType x)
  unfolding read_transfer read_ty
  read_tx_type_as (id, b) =
      if id == 0
      then bind_some (t.read_fields (0 ∷ 2 ∷ 4 ∷ []) b) read_transfer
      else if id == 1
      then bind_some (read_ty b) (λ ty. some (payment_triggering_transfer_to_non_custodial ty))
      else if id == 2
      then bind_some (read_ty b) (λ ty. some (payment ty))
      else none

  unfoldable pub read_tx_type : Bytes → Option (TxType x)
  unfolding read_tx_type_as
  read_tx_type b = bind_some (t.read_variant b) read_tx_type_as

  unfoldable pub write_tx_metadata : TxMetadata x → Bytes
  unfolding write_tx_type
  write_tx_metadata m = t.write_fields ((0, write_tx_type m.ty) ∷ (2, t.write_duration m.time) ∷ [])

  unfoldable pub read_tx_metadata : Bytes → Option (TxMetadata x)
  unfolding read_tx_type
  read_tx_metadata b = bind_some (t.read_fields (0 ∷ 2 ∷ []) b) λ fs.
      bind_some (required 0 read_tx_type fs) λ ty.
        bind_some (required 2 t.read_duration fs) λ time. some (record { time = time; ty = ty })

  abbrev pub tlv_codec : Codec x
  tlv_codec = record { encode = write_tx_metadata; decode = read_tx_metadata }
