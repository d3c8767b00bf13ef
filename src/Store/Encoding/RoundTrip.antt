-- ===== src/Store/Encoding/RoundTrip.antt =====
-- Records are read back from their encodings.
use libbtcwallet.Base.{◌≡◌, refl, none, some, [], ◌∷◌}
use libbtcwallet.Store.{
  IdExternals, PaymentId, lightning, custodial, PaymentType, outgoing_lightning_bolt12,
  outgoing_lightning_bolt11, outgoing_on_chain, incoming_on_chain, incoming_lightning, TxType,
  payment, payment_triggering_transfer_to_non_custodial, transfer_to_non_custodial, TxMetadata,
}
use libbtcwallet.Store.Kv.{CodecLaws}
use libbtcwallet.Store.Encoding.{
  Tlv, TlvLaws, write_custodial_id, read_custodial_id, write_payment_id, read_payment_id,
  read_payment_id_as, write_payment_type, read_payment_type, read_payment_type_as, write_tx_type,
  read_tx_type, read_tx_type_as, write_tx_metadata, read_tx_metadata, tlv_codec,
}

module _ {x : IdExternals} (t : Tlv x) (laws : TlvLaws t) where
  custodial_id_lem :
      (u : x.CustodialPaymentId) → read_custodial_id t (write_custodial_id t u) ≡ some u
  unfolding write_custodial_id read_custodial_id
  custodial_id_lem u = rw (laws.uuid u, laws.uuid_bytes u) refl

  payment_id_lem : (i : PaymentId x) → read_payment_id t (write_payment_id t i) ≡ some i
  unfolding write_payment_id read_payment_id read_payment_id_as
  payment_id_lem (lightning b) = rw (laws.variant 0 (t.write_bytes32 b), laws.bytes32 b) refl
  payment_id_lem (custodial u) =
      rw (laws.variant 1 (write_custodial_id t u), custodial_id_lem u) refl

  payment_type_lem : (ty : PaymentType) → read_payment_type t (write_payment_type t ty) ≡ some ty
  unfolding write_payment_type read_payment_type read_payment_type_as
  payment_type_lem (outgoing_lightning_bolt12 none) =
      rw (laws.variant 0 _, laws.fields (0 ∷ []) [] refl refl) refl
  payment_type_lem (outgoing_lightning_bolt12 (some p)) =
      rw
        (
          laws.variant 0 _,
          laws.fields (0 ∷ []) ((0, t.write_bytes32 p) ∷ []) refl refl,
          laws.bytes32 p,
        )
        refl
  payment_type_lem (outgoing_lightning_bolt11 none) =
      rw (laws.variant 1 _, laws.fields (0 ∷ []) [] refl refl) refl
  payment_type_lem (outgoing_lightning_bolt11 (some p)) =
      rw
        (
          laws.variant 1 _,
          laws.fields (0 ∷ []) ((0, t.write_bytes32 p) ∷ []) refl refl,
          laws.bytes32 p,
        )
        refl
  payment_type_lem outgoing_on_chain = rw (laws.variant 2 _, laws.fields [] [] refl refl) refl
  payment_type_lem incoming_on_chain = rw (laws.variant 3 _, laws.fields [] [] refl refl) refl
  payment_type_lem incoming_lightning = rw (laws.variant 4 _, laws.fields [] [] refl refl) refl

  tx_type_lem : (ty : TxType x) → read_tx_type t (write_tx_type t ty) ≡ some ty
  unfolding write_tx_type read_tx_type read_tx_type_as
  tx_type_lem (transfer_to_non_custodial c l trigger) =
      rw
        (
          laws.variant 0 _,
          laws.fields (0 ∷ 2 ∷ 4 ∷ [])
              ((0, write_custodial_id t c)
                ∷ (2, t.write_bytes32 l)
                ∷ (4, write_payment_id t trigger)
                ∷ [])
              refl refl,
          custodial_id_lem c,
          laws.bytes32 l,
          payment_id_lem trigger,
        )
        refl
  tx_type_lem (payment_triggering_transfer_to_non_custodial ty) =
      rw
        (
          laws.variant 1 _,
          laws.fields (0 ∷ []) ((0, write_payment_type t ty) ∷ []) refl refl,
          payment_type_lem ty,
        )
        refl
  tx_type_lem (payment ty) =
      rw
        (
          laws.variant 2 _,
          laws.fields (0 ∷ []) ((0, write_payment_type t ty) ∷ []) refl refl,
          payment_type_lem ty,
        )
        refl

  -- The record of a transaction is read back from its encoding, if the macros' streams of fields and
  -- variants and the encodings of the parts are read back, streams with the types of their fields
  -- known, in increasing order.
  pub read_tx_metadata-write_tx_metadata :
      (m : TxMetadata x) → read_tx_metadata t (write_tx_metadata t m) ≡ some m
  unfolding write_tx_metadata read_tx_metadata
  read_tx_metadata-write_tx_metadata m =
      rw
        (
          laws.fields (0 ∷ 2 ∷ []) ((0, write_tx_type t m.ty) ∷ (2, t.write_duration m.time) ∷ [])
              refl refl,
          tx_type_lem m.ty,
          laws.duration m.time,
        )
        refl

  tlv_codec-CodecLaws : CodecLaws (tlv_codec t)
  tlv_codec-CodecLaws = record { decode-encode = read_tx_metadata-write_tx_metadata }
