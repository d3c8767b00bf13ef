-- ===== src/Receive.antt =====
-- bitcoin-payment-instructions/src/receive.rs: text that lets us receive funds, a private key to
-- sweep or a BOLT 12 refund. Keys and refunds are of other crates and are parameters.
pub mod Network
pub mod Lnr
use Prim.Native.String.{String}
use libbtcwallet.Base.{
  Bool, not, Option, none, some, List, [], ◌∷◌, ◌++◌, Bytes, codes, is_empty, if◌then◌else◌, Result,
  if_ok, if_some, Outcome, done, fail, ◌>>=◌, ◌>>◌, reject_if, map_err, slice_from, split,
}
use libbtcwallet.Instructions.Uri.{split_once, has_prefix, is_key}

pub record ReceiveExternals : Type 1 where
  pub Network : Type 0
  pub SecretKey : Type 0
  -- `bitcoin::key::PrivateKey`: the key and the kind of network that it is for
  pub PrivateKey : Type 0
  pub from_wif : Bytes → Option PrivateKey
  -- `pk.network == network.into()`
  pub key_is_for : PrivateKey → Network → Bool
  pub inner_key : PrivateKey → SecretKey
  pub Refund : Type 0
  pub Bolt12ParseError : Type 0
  pub refund_from_str : Bytes → Result Bolt12ParseError Refund
  -- `refund.chain() == network.chain_hash()`
  pub refund_is_for : Refund → Network → Bool
  -- `refund.description().0.to_string()` and `refund.description().to_string()`
  pub refund_description : Refund → Bytes
  pub refund_description_printed : Refund → Bytes

pub data ReceiveMethod (x : ReceiveExternals) : Type 0 where
  private_key : x.SecretKey → ReceiveMethod x
  bolt12_refund : x.Refund → ReceiveMethod x

pub data ReceiveError (x : ReceiveExternals) : Type 0 where
  invalid_bolt12 : x.Bolt12ParseError → ReceiveError x
  wrong_network : ReceiveError x
  invalid_instructions : String → ReceiveError x
  unknown_receive_instructions : ReceiveError x
  unknown_required_parameter : ReceiveError x

pub record ReceiveInstructions (x : ReceiveExternals) : Type 0 where
  pub description : Option Bytes
  pub methods : List (ReceiveMethod x)

abbrev pub nothing : {x : ReceiveExternals} → ReceiveInstructions x
nothing = record { description = none; methods = [] }

module _ (x : ReceiveExternals) (network : x.Network) where
  -- The `lnr` arm. It reads the whole text, not the parameter's value.
  unfoldable pub handle_lnr :
      Bytes → ReceiveInstructions x → Outcome (ReceiveError x) (ReceiveInstructions x)
  handle_lnr instructions s = do
    refund ← map_err invalid_bolt12 (x.refund_from_str instructions)
    reject_if (not (x.refund_is_for refund network)) wrong_network
    done (record {
      description = some (x.refund_description refund);
      methods = s.methods ++ bolt12_refund refund ∷ [];
    })

  unfoldable pub reject_required :
      Bytes → ReceiveInstructions x → Outcome (ReceiveError x) (ReceiveInstructions x)
  reject_required k s = do
    required ← has_prefix k (codes "req-")
    reject_if required unknown_required_parameter
    done s

  unfoldable pub receive_param :
      Bytes → Bytes → ReceiveInstructions x → Outcome (ReceiveError x) (ReceiveInstructions x)
  receive_param instructions param s =
      let (k, v) = split_once param b'=' in
      if is_key k (codes "lnr") then handle_lnr instructions s else reject_required k s

  unfoldable pub receive_params :
      Bytes → List Bytes → ReceiveInstructions x → Outcome (ReceiveError x) (ReceiveInstructions x)
  receive_params instructions [] s = done s
  receive_params instructions (param ∷ params) s = do
    s' ← receive_param instructions param s
    receive_params instructions params s'

  unfoldable pub receive_query :
      Bytes → Option Bytes → Outcome (ReceiveError x) (ReceiveInstructions x)
  receive_query instructions none = done nothing
  receive_query instructions (some text) = receive_params instructions (split b'&' text) nothing

  -- The `bitcoin:` branch.
  unfoldable pub receive_uri : Bytes → Outcome (ReceiveError x) (ReceiveInstructions x)
  receive_uri instructions = do
    rest ← slice_from instructions 8
    s ← receive_query instructions (split_once rest b'?').1
    reject_if (is_empty s.methods) unknown_receive_instructions
    done s

  unfoldable pub of_key : x.PrivateKey → Outcome (ReceiveError x) (ReceiveInstructions x)
  of_key pk = do
    reject_if (not (x.key_is_for pk network)) wrong_network
    done (record { description = none; methods = private_key (x.inner_key pk) ∷ [] })

  unfoldable pub of_refund : x.Refund → Outcome (ReceiveError x) (ReceiveInstructions x)
  of_refund refund = do
    reject_if (not (x.refund_is_for refund network)) wrong_network
    done (record {
      description = some (x.refund_description_printed refund);
      methods = bolt12_refund refund ∷ [];
    })

  unfoldable pub parse_receive_instructions :
      Bytes → Outcome (ReceiveError x) (ReceiveInstructions x)
  unfolding receive_uri of_key of_refund
  parse_receive_instructions [] = fail (invalid_instructions "Empty string")
  parse_receive_instructions instructions = do
    bitcoin ← has_prefix instructions (codes "bitcoin:")
    if bitcoin
        then receive_uri instructions
        else if_some (x.from_wif instructions) of_key
            (if_ok (x.refund_from_str instructions) of_refund (fail unknown_receive_instructions))
