-- ===== src/Instructions/Parse.antt =====
-- `parse_resolved_instructions` and `PaymentInstructions::parse_payment_instructions` of
-- bitcoin-payment-instructions/src/lib.rs.
use libbtcwallet.Base.{
  if_ok, if_some, Bool, not, Option, none, some, List, [], ◌∷◌, Bytes, codes, map, is_empty,
  if◌then◌else◌, Outcome, done, fail, ◌>>=◌, ◌>>◌, reject_if, map_err, slice_from, split,
}
use libbtcwallet.Amount.{Amount}
use libbtcwallet.Instructions.External.{Externals, HrnResolver}
use libbtcwallet.Instructions.{
  PaymentMethod, lightning_bolt12, on_chain, PaymentInstructions, ParseError, invalid_bolt11,
  wrong_network, unknown_payment_instructions, hrn_resolution_error,
}
use libbtcwallet.Instructions.Uri.{
  UriState, split_once, has_prefix, parse_address, instructions_from_bolt11, handle_params,
}
use libbtcwallet.Instructions.Meta.{read_params, no_meta}
use libbtcwallet.Instructions.Check.{check_amounts}

-- `if let PaymentMethod::OnChain { ref mut amount, .. } = method { *amount = Some(uri_amount) }`
module _ {x : Externals} where
  unfoldable pub set_on_chain : Amount → PaymentMethod x → PaymentMethod x
  set_on_chain uri_amount (on_chain a address) = on_chain (some uri_amount) address
  set_on_chain uri_amount method = method

  -- Apply the amount parameter to all on-chain addresses.
  unfoldable pub apply_amount : Option Amount → List (PaymentMethod x) → List (PaymentMethod x)
  unfolding set_on_chain
  apply_amount none methods = methods
  apply_amount (some uri_amount) methods = map (set_on_chain uri_amount) methods

module _ (x : Externals) (network : x.Network) (supports_pops : Bool) where
  -- The address in front of the parameters.
  unfoldable pub parse_body : Bytes → Outcome (ParseError x) (List (PaymentMethod x))
  unfolding parse_address
  parse_body [] = done []
  parse_body body = do
    address ← parse_address x network supports_pops body
    done (on_chain none address ∷ [])

  -- `if let Some(params) = params { … }`
  unfoldable pub parse_params :
      Option Bytes → List (PaymentMethod x) → Outcome (ParseError x) (UriState x)
  unfolding handle_params read_params check_amounts
  parse_params none methods =
      done (record { methods = methods; recipient_description = none; pop_callback = none })
  parse_params (some text) methods = do
    s ←
        handle_params x network supports_pops (split b'&' text)
          (record { methods = methods; recipient_description = none; pop_callback = none })
    m ← read_params x (split b'&' text) no_meta
    let methods' = apply_amount m.amount s.methods
    reject_if (is_empty methods') unknown_payment_instructions
    check_amounts x methods'
    done (record s { methods = methods' })

  module _ (hrn : Option x.HumanReadableName) (hrn_proof : Option Bytes) where
    -- The `bitcoin:` branch.
    unfoldable pub parse_bitcoin_uri : Bytes → Outcome (ParseError x) (PaymentInstructions x)
    parse_bitcoin_uri instructions = do
      rest ← slice_from instructions 8
      let (body, params) = split_once rest b'?'
      methods ← parse_body body
      s ← parse_params params methods
      reject_if (is_empty s.methods) unknown_payment_instructions
      done (record {
        recipient_description = s.recipient_description;
        methods = s.methods;
        pop_callback = s.pop_callback;
        hrn = hrn;
        hrn_proof = hrn_proof;
      })

    single : Option Bytes → List (PaymentMethod x) → PaymentInstructions x
    single description methods = record {
      recipient_description = description;
      methods = methods;
      pop_callback = none;
      hrn = hrn;
      hrn_proof = hrn_proof;
    }

    -- What a valid invoice gives, with or without the `lightning:` prefix.
    unfoldable pub of_invoice : x.Bolt11Invoice → Outcome (ParseError x) (PaymentInstructions x)
    unfolding instructions_from_bolt11 single
    of_invoice invoice = do
      (recipient_description, methods) ← instructions_from_bolt11 x network supports_pops invoice
      done (single recipient_description methods)

    -- The `lightning:` branch.
    unfoldable pub parse_lightning_uri : Bytes → Outcome (ParseError x) (PaymentInstructions x)
    unfolding of_invoice
    parse_lightning_uri instructions = do
      rest ← slice_from instructions 10
      invoice ← map_err invalid_bolt11 (x.invoice_from_str rest)
      of_invoice invoice

    unfoldable pub of_address : x.UncheckedAddress → Outcome (ParseError x) (PaymentInstructions x)
    unfolding single
    of_address addr = do
      address ← map_err (λ _. wrong_network) (x.require_network addr network)
      done (single none (on_chain none address ∷ []))

    unfoldable pub of_offer : x.Offer → Outcome (ParseError x) (PaymentInstructions x)
    unfolding single
    of_offer offer = do
      reject_if (not (x.offer_supports_chain offer network)) wrong_network
      done (single (x.offer_description offer) (lightning_bolt12 offer ∷ []))

    -- The last branch: an address, else an invoice, else an offer.
    unfoldable pub parse_bare : Bytes → Outcome (ParseError x) (PaymentInstructions x)
    unfolding of_address of_invoice of_offer
    parse_bare instructions = if_ok (x.address_from_str instructions) of_address (
        if_ok (x.invoice_from_str instructions) of_invoice
          (if_ok (x.offer_from_str instructions) of_offer (fail unknown_payment_instructions)))

    unfoldable pub parse_resolved_instructions :
        Bytes → Outcome (ParseError x) (PaymentInstructions x)
    parse_resolved_instructions instructions = do
      bitcoin ← has_prefix instructions (codes "bitcoin:")
      if bitcoin then parse_bitcoin_uri instructions else do
        lightning ← has_prefix instructions (codes "lightning:")
        if lightning then parse_lightning_uri instructions else parse_bare instructions

  -- A name is resolved first, and what it resolves to is parsed.
  unfoldable pub parse_payment_instructions :
      HrnResolver x → Bytes → Outcome (ParseError x) (PaymentInstructions x)
  parse_payment_instructions resolver instructions =
      let resolve = λ (hrn : x.HumanReadableName). do
        resolution ← map_err hrn_resolution_error (resolver.resolve_hrn hrn)
        parse_resolved_instructions (some hrn) resolution.proof resolution.result
      in if_some (x.hrn_from_encoded instructions) resolve
        (parse_resolved_instructions none none instructions)
