-- ===== src/Examples/Coding.antt =====
-- An encoding of the records of transactions, and the laws of the stand-ins for the store.
use libbtcwallet.Base.{
  sym, if◌then◌else◌, beq_refl, ℕ, zero, suc, ◌≡◌, refl, ap, arith, Option, none, some, [], ◌∷◌,
  ◌++◌, Bytes, length, take, drop, HashMap, get, get-put, beq, beq_eq, inl, inr, Bool-cases,
}
use mathlib.Core.Path.{subst}
use libbtcwallet.Store.{
  PaymentId, lightning, custodial, PaymentType, outgoing_lightning_bolt11,
  outgoing_lightning_bolt12, outgoing_on_chain, incoming_on_chain, incoming_lightning, TxType,
  payment, payment_triggering_transfer_to_non_custodial, transfer_to_non_custodial, TxMetadata,
}
use libbtcwallet.Store.Ids.{IdLaws}
use libbtcwallet.Store.Kv.{Codec, CodecLaws, KvLaws, Occurs}
use libbtcwallet.Examples.Toys.{ids, memory, bytes_key, keys}

abbrev sized : Bytes → Bytes → Bytes
sized b rest = length b ∷ b ++ rest

abbrev encode_id : PaymentId ids → Bytes
encode_id (lightning b) = 0 ∷ b
encode_id (custodial b) = 1 ∷ b

abbrev decode_id : Bytes → Option (PaymentId ids)
decode_id [] = none
decode_id (zero ∷ b) = some (lightning b)
decode_id (suc _ ∷ b) = some (custodial b)

abbrev encode_type : PaymentType → Bytes
encode_type (outgoing_lightning_bolt12 none) = 0 ∷ []
encode_type (outgoing_lightning_bolt12 (some b)) = 1 ∷ b
encode_type (outgoing_lightning_bolt11 none) = 2 ∷ []
encode_type (outgoing_lightning_bolt11 (some b)) = 3 ∷ b
encode_type outgoing_on_chain = 4 ∷ []
encode_type incoming_on_chain = 5 ∷ []
encode_type incoming_lightning = 6 ∷ []

abbrev decode_type : Bytes → Option PaymentType
decode_type [] = none
decode_type (zero ∷ b) = some (outgoing_lightning_bolt12 none)
decode_type (suc zero ∷ b) = some (outgoing_lightning_bolt12 (some b))
decode_type (suc (suc zero) ∷ b) = some (outgoing_lightning_bolt11 none)
decode_type (suc (suc (suc zero)) ∷ b) = some (outgoing_lightning_bolt11 (some b))
decode_type (suc (suc (suc (suc zero))) ∷ b) = some outgoing_on_chain
decode_type (suc (suc (suc (suc (suc zero)))) ∷ b) = some incoming_on_chain
decode_type (_ ∷ b) = some incoming_lightning

abbrev encode_tx : TxType ids → Bytes
encode_tx (payment ty) = 0 ∷ encode_type ty
encode_tx (payment_triggering_transfer_to_non_custodial ty) = 1 ∷ encode_type ty
encode_tx (transfer_to_non_custodial a b c) = 2 ∷ sized a (sized b (encode_id c))

abbrev as_payment : Option PaymentType → Option (TxType ids)
as_payment none = none
as_payment (some ty) = some (payment ty)

abbrev as_trigger : Option PaymentType → Option (TxType ids)
as_trigger none = none
as_trigger (some ty) = some (payment_triggering_transfer_to_non_custodial ty)

abbrev as_transfer : Bytes → Bytes → Option (PaymentId ids) → Option (TxType ids)
as_transfer a b none = none
as_transfer a b (some c) = some (transfer_to_non_custodial a b c)

abbrev decode_second : Bytes → Bytes → Option (TxType ids)
decode_second a [] = none
decode_second a (n ∷ s) = as_transfer a (take n s) (decode_id (drop n s))

abbrev decode_tx : Bytes → Option (TxType ids)
decode_tx [] = none
decode_tx (zero ∷ s) = as_payment (decode_type s)
decode_tx (suc zero ∷ s) = as_trigger (decode_type s)
decode_tx (_ ∷ []) = none
decode_tx (_ ∷ n ∷ s) = decode_second (take n s) (drop n s)

abbrev with_time : ℕ → Option (TxType ids) → Option (TxMetadata ids)
with_time t none = none
with_time t (some ty) = some (record { time = t; ty = ty })

abbrev decode_metadata : Bytes → Option (TxMetadata ids)
decode_metadata [] = none
decode_metadata (t ∷ s) = with_time t (decode_tx s)

abbrev pub coding : Codec ids
coding = record { encode = λ m. m.time ∷ encode_tx m.ty; decode = decode_metadata }

take_sized : (b r : Bytes) → take (length b) (b ++ r) ≡ b
take_sized [] r = refl
take_sized (c ∷ b) r = ap (λ s. c ∷ s) (take_sized b r)

drop_sized : (b r : Bytes) → drop (length b) (b ++ r) ≡ r
drop_sized [] r = refl
drop_sized (c ∷ b) r = drop_sized b r

id_read_back : (i : PaymentId ids) → decode_id (encode_id i) ≡ some i
id_read_back (lightning b) = refl
id_read_back (custodial b) = refl

type_read_back : (ty : PaymentType) → decode_type (encode_type ty) ≡ some ty
type_read_back (outgoing_lightning_bolt12 none) = refl
type_read_back (outgoing_lightning_bolt12 (some b)) = refl
type_read_back (outgoing_lightning_bolt11 none) = refl
type_read_back (outgoing_lightning_bolt11 (some b)) = refl
type_read_back outgoing_on_chain = refl
type_read_back incoming_on_chain = refl
type_read_back incoming_lightning = refl

tx_read_back : (ty : TxType ids) → decode_tx (encode_tx ty) ≡ some ty
tx_read_back (payment ty) = rw (type_read_back ty)
tx_read_back (payment_triggering_transfer_to_non_custodial ty) = rw (type_read_back ty)
tx_read_back (transfer_to_non_custodial a b c) = rw (
  take_sized a (sized b (encode_id c)),
  drop_sized a (sized b (encode_id c)),
  take_sized b (encode_id c),
  drop_sized b (encode_id c),
  id_read_back c,
)

pub coding-CodecLaws : CodecLaws coding
coding-CodecLaws = record { decode-encode = λ m. rw (tx_read_back m.ty) }

pub ids-IdLaws : IdLaws ids
ids-IdLaws = record {
  hex_read_back = λ b. refl;
  hex_ascii = λ b. (b'x', b, refl, omega arith);
  uuid_read_back = λ u. refl;
  uuid_ascii = λ u. (b'u', u, refl, omega arith);
}

listed_key :
    (m : HashMap Bytes Bytes) (k v : Bytes) → get bytes_key m k ≡ some v → Occurs k (keys m)
unfolding get
listed_key [] k v h = cc
listed_key ((j, w) ∷ m) k v h = elim (Bool-cases (beq j k)) [
  | inl e ↦ inl (beq_eq j k e)
  | inr e ↦ inr (listed_key m k v (rw e at h))
]

readable_key :
    (m : HashMap Bytes Bytes) (k : Bytes)
    → Occurs k (keys m)
    → (v : Bytes) × (get bytes_key m k ≡ some v)
unfolding get
readable_key [] k h = absurd h
readable_key ((j, w) ∷ m) k (inl e) = (w, rw (e, beq_refl k))
readable_key ((j, w) ∷ m) k (inr h) = elim (Bool-cases (beq j k)) [
  | inl e ↦ (w, rw e)
  | inr e ↦ let (v, f) = readable_key m k h in (v, rw e f)
]

stored : {A : Type 0} (a b : A) → some a ≡ some b → a ≡ b
stored a b h = cc

pub memory-KvLaws : KvLaws memory
memory-KvLaws = record {
  read-write = λ s t k j v w.
      subst (λ u. get bytes_key u j ≡ (if beq k j then some v else get bytes_key s j))
        (stored _ t w) (get-put bytes_key s k j v);
  listed = λ s k v l e h. subst (Occurs k) (stored _ l e) (listed_key s k v h);
  readable = λ s k l e h. readable_key s k (subst (Occurs k) (sym (stored _ l e)) h);
  lists = λ s. (keys s, refl);
}
