-- ===== src/Instructions/Percent.antt =====
-- `un_percent_encode` of bitcoin-payment-instructions/src/lib.rs.
pub mod Decimal
use Prim.Native.String.{String}
use libbtcwallet.Base.{
  ℕ, ◌+◌, ◌-◌, ◌*◌, Bool, ◌||◌, [], ◌∷◌, ◌++◌, Bytes, ltb, ◌==◌, if◌then◌else◌, is_utf8, Outcome,
  done, fail, ◌>>=◌,
}
use libbtcwallet.Instructions.External.{Externals}
use libbtcwallet.Instructions.{ParseError, invalid_instructions}

abbrev pub percent_error : String
percent_error = "A Proof of Payment URI was not properly %-encoded in a BIP 321 bitcoin: URI"

module _ (x : Externals) where
  not_decimal : ℕ → ℕ → Bool
  not_decimal high low = ltb b'9' high || ltb high b'0' || ltb b'9' low || ltb low b'0'

  -- `while let Some(b) = iter.next()`, with `res`. The nibbles are disjoint, so `|` adds them.
  unfoldable pub decode_loop : Bytes → Bytes → Outcome (ParseError x) Bytes
  unfolding not_decimal
  decode_loop [] res = done res
  decode_loop (b ∷ []) res =
      if b == b'%' then fail (invalid_instructions percent_error) else done (res ++ b ∷ [])
  decode_loop (b ∷ high ∷ []) res =
      let rest = decode_loop (high ∷ []) (res ++ b ∷ []) in
      if b == b'%' then fail (invalid_instructions percent_error) else rest
  decode_loop (b ∷ high ∷ low ∷ s) res =
      let rest = decode_loop (high ∷ low ∷ s) (res ++ b ∷ []) in
      let decoded = decode_loop s (res ++ ((high - b'0') * 16 + (low - b'0')) ∷ []) in
      if b == b'%'
      then (if not_decimal high low then fail (invalid_instructions percent_error) else decoded)
      else rest

  unfoldable pub from_utf8 : Bytes → Outcome (ParseError x) Bytes
  unfolding is_utf8
  from_utf8 res = if is_utf8 res then done res else fail (invalid_instructions percent_error)

  unfoldable pub un_percent_encode : Bytes → Outcome (ParseError x) Bytes
  unfolding decode_loop from_utf8
  un_percent_encode encoded = do res ← decode_loop encoded []; from_utf8 res
