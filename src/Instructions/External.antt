-- ===== src/Instructions/External.antt =====
-- What bitcoin-payment-instructions/src/lib.rs takes from other crates: addresses and amounts of
-- `bitcoin`, invoices of `lightning-invoice`, offers and human readable names of `lightning`. The
-- types and functions are parameters; a text is its UTF-8 bytes.
use Prim.Native.String.{String}
use libbtcwallet.Base.{ℕ, Bool, Option, Result, Bytes}

-- `lightning::offers::offer::Amount`
pub data OfferAmount : Type 0 where
  bitcoin : ℕ → OfferAmount
  currency : Bytes → ℕ → OfferAmount

pub record Externals : Type 1 where
  pub Network : Type 0
  -- `==` of `Network`
  pub same_network : Network → Network → Bool
  -- `Address<NetworkUnchecked>`, and `Address` behind `require_network`
  pub UncheckedAddress : Type 0
  pub Address : Type 0
  pub AddressError : Type 0
  pub address_from_str : Bytes → Result AddressError UncheckedAddress
  pub require_network : UncheckedAddress → Network → Result AddressError Address
  -- `bitcoin::Amount::from_str_in(v, Denomination::Bitcoin)`, in satoshis
  pub amount_from_str_in_btc : Bytes → Option ℕ
  pub Bolt11Invoice : Type 0
  pub Bolt11Error : Type 0
  pub invoice_from_str : Bytes → Result Bolt11Error Bolt11Invoice
  pub invoice_network : Bolt11Invoice → Network
  -- the text of a `Direct` description, and nothing for a hash
  pub invoice_description : Bolt11Invoice → Option Bytes
  pub invoice_amount_milli_satoshis : Bolt11Invoice → Option ℕ
  pub Offer : Type 0
  pub Bolt12Error : Type 0
  pub offer_from_str : Bytes → Result Bolt12Error Offer
  -- `offer.supports_chain(network.chain_hash())`
  pub offer_supports_chain : Offer → Network → Bool
  pub offer_description : Offer → Option Bytes
  pub offer_amount : Offer → Option OfferAmount
  pub HumanReadableName : Type 0
  -- `HumanReadableName::from_encoded(s).ok()`
  pub hrn_from_encoded : Bytes → Option HumanReadableName

-- The result of an `HrnResolver`.
pub record HrnResolution : Type 0 where
  pub proof : Option Bytes
  pub result : Bytes

-- `trait HrnResolver`: what a resolver returns once its future is done.
pub record HrnResolver (x : Externals) : Type 0 where
  pub resolve_hrn : x.HumanReadableName → Result String HrnResolution
