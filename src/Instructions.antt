-- ===== src/Instructions.antt =====
-- bitcoin-payment-instructions/src/lib.rs: the parsed instructions and what they ask for. The
-- parsers stand in `Uri` and `Parse`; the other children prove.
pub mod Named
pub mod Capped
pub mod External
pub mod Percent
pub mod Check
pub mod Uri
pub mod Meta
pub mod Parse
pub mod Amounts
pub mod Consistent
pub mod Panics
use Prim.Native.String.{String}
use libbtcwallet.Base.{
  Bool, true, false, Option, none, some, List, [], ◌∷◌, Bytes, ltb, if◌then◌else◌,
}
use libbtcwallet.Amount.{Amount, from_sats, from_milli_sats}
use External.{Externals, OfferAmount}

pub data PaymentMethod (x : Externals) : Type 0 where
  lightning_bolt11 : x.Bolt11Invoice → PaymentMethod x
  lightning_bolt12 : x.Offer → PaymentMethod x
  on_chain : Option Amount → x.Address → PaymentMethod x

pub record PaymentInstructions (x : Externals) : Type 0 where
  pub recipient_description : Option Bytes
  pub methods : List (PaymentMethod x)
  pub pop_callback : Option Bytes
  pub hrn : Option x.HumanReadableName
  pub hrn_proof : Option Bytes

unfoldable pub max_amount_difference : Amount
unfolding from_sats
max_amount_difference = from_sats 100

pub data ParseError (x : Externals) : Type 0 where
  invalid_bolt11 : x.Bolt11Error → ParseError x
  invalid_bolt12 : x.Bolt12Error → ParseError x
  invalid_on_chain : x.AddressError → ParseError x
  wrong_network : ParseError x
  inconsistent_instructions : String → ParseError x
  invalid_instructions : String → ParseError x
  unknown_payment_instructions : ParseError x
  unknown_required_parameter : ParseError x
  hrn_resolution_error : String → ParseError x

-- the arms of `amount` for an offer
offer_msats : Option OfferAmount → Option Amount
offer_msats none = none
offer_msats (some (OfferAmount.bitcoin amount_msats)) = some (from_milli_sats amount_msats)
offer_msats (some (OfferAmount.currency code amount)) = none

invoice_msats : Option Amount → Option Amount
invoice_msats none = none
invoice_msats (some a) = some (from_milli_sats a)

-- One round of the loop of `max_amount`.
unfoldable pub larger : Option Amount → Option Amount → Option Amount
larger max_amt none = max_amt
larger none (some amt) = some amt
larger (some m) (some amt) = if ltb m amt then some amt else some m

module _ {x : Externals} where
  unfoldable pub amount : PaymentMethod x → Option Amount
  unfolding offer_msats invoice_msats from_milli_sats
  amount (lightning_bolt11 invoice) = invoice_msats (x.invoice_amount_milli_satoshis invoice)
  amount (lightning_bolt12 offer) = offer_msats (x.offer_amount offer)
  amount (on_chain a address) = a

  pub max_loop : List (PaymentMethod x) → Option Amount → Option Amount
  unfolding larger
  max_loop [] max_amt = max_amt
  max_loop (m ∷ ms) max_amt = max_loop ms (larger max_amt (amount m))

  unfoldable pub max_amount : PaymentInstructions x → Option Amount
  unfolding max_loop
  max_amount i = max_loop i.methods none

  abbrev pub is_on_chain : PaymentMethod x → Bool
  is_on_chain (lightning_bolt11 invoice) = false
  is_on_chain (lightning_bolt12 offer) = false
  is_on_chain (on_chain a address) = true

  pub first_lightning : List (PaymentMethod x) → Option Amount
  first_lightning [] = none
  first_lightning (m ∷ ms) = if is_on_chain m then first_lightning ms else amount m

  unfoldable pub ln_payment_amount : PaymentInstructions x → Option Amount
  unfolding first_lightning
  ln_payment_amount i = first_lightning i.methods

  pub first_on_chain : List (PaymentMethod x) → Option Amount
  first_on_chain [] = none
  first_on_chain (m ∷ ms) = if is_on_chain m then amount m else first_on_chain ms

  unfoldable pub onchain_payment_amount : PaymentInstructions x → Option Amount
  unfolding first_on_chain
  onchain_payment_amount i = first_on_chain i.methods
