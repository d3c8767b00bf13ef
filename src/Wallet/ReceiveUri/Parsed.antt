-- ===== src/Wallet/ReceiveUri/Parsed.antt =====
-- The text of the URI that `get_single_use_receive_uri` writes, part by part.
use libbtcwallet.Base.{
  ◌>>=◌, ℕ, ◌≡◌, ◌≢◌, ◌<◌, refl, arith, Bool, true, ◌&&◌, Option, none, some, [], ◌∷◌, ◌++◌, Bytes,
  codes, All, ok, done, map, append_assoc, to_ascii_uppercase, to_upper, inl, inr, Bool-cases, leb,
}
use mathlib.Core.List.{map-append}
use libbtcwallet.Amount.{Amount}
use libbtcwallet.Amount.Format.{btc_decimal_rounding_up_to_sats}
use libbtcwallet.Amount.Format.Numerals.{btc_decimal_numerals, to_ascii_uppercase-IsNumeral}
use libbtcwallet.Instructions.External.{Externals}
use libbtcwallet.Instructions.{on_chain}
use libbtcwallet.Instructions.Parse.{parse_body}
use libbtcwallet.Wallet.ReceiveUri.{write_uri, amount_param}
use libbtcwallet.Wallet.ReceiveUri.Written.{lightning_param, amount_text}

-- A byte of an address or of an invoice: no byte that ends a part of a URI, and no `@`.
abbrev pub IsPlain : ℕ → Type 0
IsPlain c = (c < 128) × (c ≢ b'?') × (c ≢ b'&') × (c ≢ b'@')

pub upper : (s : Bytes) → All IsPlain s → All IsPlain (to_ascii_uppercase s)
unfolding to_ascii_uppercase to_upper
upper [] h = h
upper (c ∷ s) ((a, q, n, t), hs) = (
  elim (Bool-cases (leb b'a' c && leb c b'z')) [
    | inl e ↦ rw e (ground arith)
    | inr e ↦ rw e (a, q, n, t)
  ],
  upper s hs,
)

upper_body :
    (addr q rest : Bytes)
    → to_ascii_uppercase (codes "BITCOIN:" ++ ((addr ++ q) ++ rest))
      ≡ codes "BITCOIN:"
        ++ (to_ascii_uppercase addr ++ (to_ascii_uppercase q ++ to_ascii_uppercase rest))
unfolding to_ascii_uppercase to_upper
upper_body addr q rest =
    rw (append_assoc addr q rest, map-append to_upper addr (q ++ rest), map-append to_upper q rest)
      refl

pub lightning_uri :
    (inv : Bytes)
    → write_uri (codes "?") inv
      ≡ codes "BITCOIN:" ++ ([] ++ b'?' ∷ lightning_param (to_ascii_uppercase inv))
unfolding write_uri to_upper
lightning_uri inv = refl

pub plain_uri :
    (addr inv : Bytes)
    → write_uri (addr ++ amount_param none) inv
      ≡ codes "BITCOIN:"
        ++ (to_ascii_uppercase addr ++ b'?' ∷ lightning_param (to_ascii_uppercase inv))
unfolding write_uri amount_param to_upper
plain_uri addr inv = upper_body addr (codes "?") (codes "LIGHTNING=" ++ inv)

pub amount_uri :
    (addr inv : Bytes) (amt : Amount)
    → write_uri (addr ++ amount_param (some amt)) inv
      ≡ codes "BITCOIN:"
        ++ (to_ascii_uppercase addr
            ++ b'?'
              ∷ (amount_text (btc_decimal_rounding_up_to_sats amt)
                  ++ b'&' ∷ lightning_param (to_ascii_uppercase inv)))
unfolding write_uri amount_param to_upper
amount_uri addr inv amt =
    let value = btc_decimal_rounding_up_to_sats amt in
    let upper_value : map to_upper value ≡ value =
      to_ascii_uppercase-IsNumeral value (btc_decimal_numerals amt) in
    rw
      (
        upper_body addr (amount_param (some amt)) (codes "LIGHTNING=" ++ inv),
        map-append to_upper value (codes "&"),
        upper_value,
        append_assoc value (codes "&") (codes "LIGHTNING=" ++ map to_upper inv),
      )
      refl

pub parse_body_lem :
    (x : Externals) (network : x.Network) (supports_pops : Bool) (text : Bytes)
    (u : x.UncheckedAddress) (a : x.Address)
    → text ≢ []
    → x.address_from_str text ≡ ok u
    → x.require_network u network ≡ ok a
    → parse_body x network supports_pops text ≡ done (on_chain none a ∷ [])
unfolding parse_body ◌>>=◌
parse_body_lem x network supports_pops [] u a h e r = absurd (h refl)
parse_body_lem x network supports_pops (c ∷ text) u a h e r = rw (e, r)

pub not_empty : (s : Bytes) → s ≢ [] → to_ascii_uppercase s ≢ []
unfolding to_ascii_uppercase
not_empty [] h = h
not_empty (c ∷ s) h = λ e. cc

-- What an address of ours and an issued invoice print as is parsed back, in capitals.
pub record IsAddressText (x : Externals) (network : x.Network) (text : Bytes) (a : x.Address)
    : Type 0 where
  pub plain : All IsPlain text
  pub not_nil : text ≢ []
  pub unchecked : x.UncheckedAddress
  pub read : x.address_from_str (to_ascii_uppercase text) ≡ ok unchecked
  pub required : x.require_network unchecked network ≡ ok a

pub record IsInvoiceText (x : Externals) (network : x.Network) (text : Bytes)
    (inv : x.Bolt11Invoice) (asked : Option Amount) : Type 0 where
  pub plain : All IsPlain text
  pub read : x.invoice_from_str (to_ascii_uppercase text) ≡ ok inv
  pub same : x.same_network (x.invoice_network inv) network ≡ true
  pub asks : x.invoice_amount_milli_satoshis inv ≡ asked
