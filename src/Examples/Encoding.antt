-- ===== src/Examples/Encoding.antt =====
-- The theorem on the encoding of records, for a simple format of fields and variants.
use libbtcwallet.Base.{
  append-nil, ℕ, zero, suc, ◌≡◌, refl, ap, Option, none, some, [], ◌∷◌, ◌++◌, Bytes,
}
use libbtcwallet.Store.{custodial, transfer_to_non_custodial, TxMetadata}
use libbtcwallet.Store.Encoding.{Fields, Tlv, TlvLaws, write_tx_metadata, read_tx_metadata}
use libbtcwallet.Store.Encoding.RoundTrip.{read_tx_metadata-write_tx_metadata}
use libbtcwallet.Examples.Toys.{ids}

-- A field is a 2 and its type, then each of its bytes behind a 1.
abbrev spaced : Bytes → Bytes → Bytes
spaced [] r = r
spaced (c ∷ b) r = 1 ∷ c ∷ spaced b r

abbrev write_all : Fields → Bytes
write_all [] = []
write_all ((t, b) ∷ fs) = 2 ∷ t ∷ spaced b (write_all fs)

abbrev read_all : Bytes → Bytes × Fields
read_all [] = ([], [])
read_all (_ ∷ []) = ([], [])
read_all (zero ∷ c ∷ s) = ([], [])
read_all (suc zero ∷ c ∷ s) = let (b, fs) = read_all s in (c ∷ b, fs)
read_all (suc (suc _) ∷ t ∷ s) = let (b, fs) = read_all s in ([], (t, b) ∷ fs)

read_spaced : (b r : Bytes) → read_all (spaced b r) ≡ (b ++ (read_all r).0, (read_all r).1)
read_spaced [] r = refl
read_spaced (c ∷ b) r = ap (λ (p : Bytes × Fields). (c ∷ p.0, p.1)) (read_spaced b r)

abbrev variant_of : Bytes → Option (ℕ × Bytes)
variant_of [] = none
variant_of (id ∷ b) = some (id, b)

abbrev first : Bytes → Option ℕ
first [] = none
first (n ∷ b) = some n

abbrev format : Tlv ids
format = record {
  write_fields = write_all;
  read_fields = λ known b. some (read_all b).1;
  write_variant = λ id b. id ∷ b;
  read_variant = variant_of;
  write_bytes32 = λ b. b;
  read_bytes32 = λ b. some b;
  write_duration = λ d. d ∷ [];
  read_duration = first;
  uuid_as_bytes = λ u. u;
  uuid_from_bytes = λ b. b;
  write_bytes16 = λ b. b;
  read_bytes16 = λ b. some b;
}

all_read_back : (fs : Fields) → read_all (write_all fs) ≡ ([], fs)
all_read_back [] = refl
all_read_back ((t, b) ∷ fs) = rw (read_spaced b (write_all fs), all_read_back fs, append-nil b) refl

format-TlvLaws : TlvLaws format
format-TlvLaws = record {
  fields = λ known fs i w. ap (λ (p : Bytes × Fields). some p.1) (all_read_back fs);
  variant = λ id b. refl;
  bytes32 = λ b. refl;
  duration = λ d. refl;
  uuid = λ u. refl;
  uuid_bytes = λ u. refl;
}

abbrev half : TxMetadata ids
half = record { time = 9; ty = transfer_to_non_custodial (1 ∷ []) (5 ∷ []) (custodial (7 ∷ [])) }

read_tx_metadata-write_tx_metadata_example :
    read_tx_metadata format (write_tx_metadata format half) ≡ some half
read_tx_metadata-write_tx_metadata_example =
    read_tx_metadata-write_tx_metadata format format-TlvLaws half
