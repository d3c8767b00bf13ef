-- ===== src/Instructions/Meta.antt =====
-- The second loop over the parameters of a `bitcoin:` URI (`parse_resolved_instructions` of
-- bitcoin-payment-instructions/src/lib.rs): the amount and the texts.
use libbtcwallet.Base.{
  Option, none, some, List, [], ◌∷◌, Bytes, codes, if◌then◌else◌, Outcome, done, fail, ◌>>=◌, ◌>>◌,
  reject_if, ok_or, is_some,
}
use libbtcwallet.Amount.{Amount, from_sats}
use libbtcwallet.Instructions.External.{Externals}
use libbtcwallet.Instructions.{ParseError, invalid_instructions}
use libbtcwallet.Instructions.Uri.{split_once, is_key}

pub record UriMeta : Type 0 where
  pub amount : Option Amount
  pub label : Option Bytes
  pub message : Option Bytes

abbrev pub no_meta : UriMeta
no_meta = record { amount = none; label = none; message = none }

module _ (x : Externals) where
  unfoldable pub read_amount : Option Bytes → UriMeta → Outcome (ParseError x) UriMeta
  unfolding from_sats
  read_amount none m =
      fail (invalid_instructions "Missing value for an amount parameter in a BIP 321 bitcoin: URI")
  read_amount (some v) m = do
    reject_if (is_some m.amount)
        (invalid_instructions "Multiple amount parameters in a BIP 321 bitcoin: URI")
    btc_amt ←
        ok_or (invalid_instructions "The amount parameter in a BIP 321 bitcoin: URI was invalid")
          (x.amount_from_str_in_btc v)
    done (record m { amount = some (from_sats btc_amt) })

  unfoldable pub read_label : Option Bytes → UriMeta → Outcome (ParseError x) UriMeta
  read_label v m = do
    reject_if (is_some m.label)
        (invalid_instructions "Multiple label parameters in a BIP 321 bitcoin: URI")
    done (record m { label = v })

  unfoldable pub read_message : Option Bytes → UriMeta → Outcome (ParseError x) UriMeta
  read_message v m = do
    reject_if (is_some m.message)
        (invalid_instructions "Multiple message parameters in a BIP 321 bitcoin: URI")
    done (record m { message = v })

  unfoldable pub read_key : Bytes → Option Bytes → UriMeta → Outcome (ParseError x) UriMeta
  unfolding read_amount read_label read_message
  read_key k v m =
      if is_key k (codes "amount")
      then read_amount v m
      else if is_key k (codes "label")
      then read_label v m
      else if is_key k (codes "message")
      then read_message v m
      else done m

  unfoldable pub read_param : Bytes → UriMeta → Outcome (ParseError x) UriMeta
  unfolding read_key split_once
  read_param param m = let (k, v) = split_once param b'=' in read_key k v m

  unfoldable pub read_params : List Bytes → UriMeta → Outcome (ParseError x) UriMeta
  unfolding read_param
  read_params [] m = done m
  read_params (param ∷ params) m = do m' ← read_param param m; read_params params m'
