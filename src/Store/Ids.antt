-- ===== src/Store/Ids.antt =====
-- `Display` and `FromStr` of `PaymentId` (libbtcwallet/src/store.rs): the keys of the store.
use libbtcwallet.Base.{
  ℕ, ◌<◌, ◌≡◌, arith, ◌∷◌, ◌++◌, Bytes, codes, length, ltb, beq, if◌then◌else◌, Outcome, done, fail,
  ◌>>=◌, ◌>>◌, reject_if, map_err, ok, slice_to, slice_from, is_char_boundary,
}
use libbtcwallet.Store.{IdExternals, Bytes32, PaymentId, lightning, custodial}

module _ (x : IdExternals) where
  -- `payment_id.to_string()`
  unfoldable pub to_string : PaymentId x → Bytes
  to_string (lightning bytes) = codes "LN-" ++ x.to_hex bytes
  to_string (custodial s) = codes "CU-" ++ x.uuid_to_string s

  parse_kind : Bytes → Bytes → Outcome (Unit {0}) (PaymentId x)
  parse_kind prefix s =
      if beq prefix (codes "LN-")
      then (do rest ← slice_from s 3; id ← map_err (λ _. tt) (x.from_hex rest); done (lightning id))
      else if beq prefix (codes "CU-")
      then (do
        rest ← slice_from s 3
        id ← map_err (λ _. tt) (x.uuid_from_str rest)
        done (custodial id))
      else fail tt

  -- `PaymentId::from_str(s)`
  unfoldable pub from_str : Bytes → Outcome (Unit {0}) (PaymentId x)
  unfolding parse_kind slice_to slice_from
  from_str s = do reject_if (ltb (length s) 4) tt; prefix ← slice_to s 3; parse_kind prefix s

  -- What the round trip needs of the texts of other crates: they are read back, and begin with an
  -- ASCII character.
  pub record IdLaws : Type 0 where
    pub hex_read_back : (b : Bytes) → x.from_hex (x.to_hex b) ≡ ok b
    pub hex_ascii : (b : Bytes) → (c : ℕ) × (s : Bytes) × (x.to_hex b ≡ c ∷ s) × (c < 128)
    pub uuid_read_back : (u : x.CustodialPaymentId) → x.uuid_from_str (x.uuid_to_string u) ≡ ok u
    pub uuid_ascii :
        (u : x.CustodialPaymentId)
        → (c : ℕ) × (s : Bytes) × (x.uuid_to_string u ≡ c ∷ s) × (c < 128)

  read_lightning :
      (b : Bytes32) (c : ℕ) (s : Bytes)
      → c < 128
      → x.from_hex (c ∷ s) ≡ ok b
      → from_str (codes "LN-" ++ c ∷ s) ≡ done (lightning b)
  unfolding from_str ◌>>=◌ is_char_boundary
  read_lightning b c s h e = ground arith

  read_custodial :
      (u : x.CustodialPaymentId) (c : ℕ) (s : Bytes)
      → c < 128
      → x.uuid_from_str (c ∷ s) ≡ ok u
      → from_str (codes "CU-" ++ c ∷ s) ≡ done (custodial u)
  unfolding from_str ◌>>=◌ is_char_boundary
  read_custodial u c s h e = ground arith

  -- An id is read back from its text, if the texts of other crates are read back and begin with an
  -- ASCII character.
  pub from_str-to_string : (laws : IdLaws) (id : PaymentId x) → from_str (to_string id) ≡ done id
  unfolding to_string
  from_str-to_string laws (lightning b) =
      let (c, s, e, h) = laws.hex_ascii b in
      rw e (read_lightning b c s h (rw e at (laws.hex_read_back b)))
  from_str-to_string laws (custodial u) =
      let (c, s, e, h) = laws.uuid_ascii u in
      rw e (read_custodial u c s h (rw e at (laws.uuid_read_back u)))
