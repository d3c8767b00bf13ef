-- ===== src/Instructions/Uri.antt =====
-- The parameters of a `bitcoin:` URI: the first loop of `parse_resolved_instructions`
-- (bitcoin-payment-instructions/src/lib.rs). Each arm of the `if` chain is a function.
pub mod Unpriced
pub mod Required
use Prim.Native.String.{String}
use libbtcwallet.Base.{
  ℕ, Bool, false, not, ◌&&◌, ◌||◌, Option, none, some, List, [], ◌∷◌, ◌++◌, Bytes, codes, length,
  ltb, if◌then◌else◌, Outcome, done, fail, ◌>>=◌, ◌>>◌, reject_if, map_err, ok_or,
  eq_ignore_ascii_case, slice_to, find_split,
}
use libbtcwallet.Instructions.External.{Externals}
use libbtcwallet.Instructions.{
  PaymentMethod, lightning_bolt11, lightning_bolt12, on_chain, ParseError, invalid_bolt11,
  invalid_bolt12, invalid_on_chain, wrong_network, invalid_instructions, unknown_required_parameter,
}
use libbtcwallet.Instructions.Percent.{un_percent_encode}

-- What str.split_once() should do…
unfoldable pub or_whole : Bytes → Option (Bytes × Bytes) → Bytes × Option Bytes
or_whole s none = (s, none)
or_whole s (some (a, b)) = (a, some b)

unfoldable pub split_once : Bytes → ℕ → Bytes × Option Bytes
unfolding or_whole find_split
split_once haystack needle = or_whole haystack (find_split needle haystack)

-- `k.eq_ignore_ascii_case(name) || k.eq_ignore_ascii_case("req-" name)`
abbrev pub is_key : Bytes → Bytes → Bool
is_key k name = eq_ignore_ascii_case k name || eq_ignore_ascii_case k (codes "req-" ++ name)

-- `s.len() >= N && s[..N].eq_ignore_ascii_case(prefix)`; the slice may panic.
unfoldable pub has_prefix {ℓ} : {E : Type ℓ} → Bytes → Bytes → Outcome E Bool
unfolding slice_to eq_ignore_ascii_case
has_prefix s prefix =
    let compared = slice_to s (length prefix) >>= λ head. done (eq_ignore_ascii_case head prefix) in
    if ltb (length s) (length prefix) then done false else compared

pub record UriState (x : Externals) : Type 0 where
  pub methods : List (PaymentMethod x)
  pub recipient_description : Option Bytes
  pub pop_callback : Option Bytes

abbrev not_segwit : String
not_segwit = "BIP 321 bitcoin: URI contained a bc instruction which was not a Segwit address (bc1*)"

abbrev no_bc_value : String
no_bc_value = "BIP 321 bitcoin: URI contained a bc (Segwit address) instruction without a value"

abbrev no_lightning_value : String
no_lightning_value =
    "BIP 321 bitcoin: URI contained a lightning (BOLT 11 invoice) instruction without a value"

abbrev not_local : String
not_local = "Proof of payment callback would not have opened a local app"

abbrev no_pop_value : String
no_pop_value = "Missing value for a Proof of Payment instruction in a BIP 321 bitcoin: URI"

-- the schemes that no local app serves
unfoldable pub is_remote_scheme : Bytes → Bool
is_remote_scheme proto =
    eq_ignore_ascii_case proto (codes "javascript")
    || eq_ignore_ascii_case proto (codes "http")
    || eq_ignore_ascii_case proto (codes "https")
    || eq_ignore_ascii_case proto (codes "file")
    || eq_ignore_ascii_case proto (codes "mailto")
    || eq_ignore_ascii_case proto (codes "ftp")
    || eq_ignore_ascii_case proto (codes "wss")
    || eq_ignore_ascii_case proto (codes "ws")
    || eq_ignore_ascii_case proto (codes "ssh")
    || eq_ignore_ascii_case proto (codes "tel")
    || eq_ignore_ascii_case proto (codes "data")
    || eq_ignore_ascii_case proto (codes "blob")

-- `or_insert`-free override: `if let Some(desc) = desc { recipient_description = Some(desc) }`
abbrev pub override : Option Bytes → Option Bytes → Option Bytes
override old none = old
override old (some d) = some d

module _ (x : Externals) (network : x.Network) (supports_pops : Bool) where
  -- `Address::from_str(s)`, then `require_network`
  unfoldable pub parse_address : Bytes → Outcome (ParseError x) x.Address
  parse_address s = do
    addr ← map_err invalid_on_chain (x.address_from_str s)
    map_err (λ _. wrong_network) (x.require_network addr network)

  unfoldable pub instructions_from_bolt11 :
      x.Bolt11Invoice → Outcome (ParseError x) (Option Bytes × List (PaymentMethod x))
  instructions_from_bolt11 invoice = do
    reject_if (not (x.same_network (x.invoice_network invoice) network)) wrong_network
    done (x.invoice_description invoice, lightning_bolt11 invoice ∷ [])

  unfoldable pub handle_bc : Option Bytes → UriState x → Outcome (ParseError x) (UriState x)
  unfolding has_prefix parse_address
  handle_bc none s = fail (invalid_instructions no_bc_value)
  handle_bc (some address_string) s = do
    segwit ← has_prefix address_string (codes "bc1")
    reject_if (not segwit) (invalid_instructions not_segwit)
    address ← parse_address address_string
    done (record s { methods = s.methods ++ on_chain none address ∷ [] })

  unfoldable pub handle_lightning : Option Bytes → UriState x → Outcome (ParseError x) (UriState x)
  unfolding instructions_from_bolt11
  handle_lightning none s = fail (invalid_instructions no_lightning_value)
  handle_lightning (some invoice_string) s = do
    invoice ← map_err invalid_bolt11 (x.invoice_from_str invoice_string)
    (desc, new_methods) ← instructions_from_bolt11 invoice
    done (record s {
      methods = s.methods ++ new_methods;
      recipient_description = override s.recipient_description desc;
    })

  unfoldable pub handle_lno : Option Bytes → UriState x → Outcome (ParseError x) (UriState x)
  handle_lno none s = fail (invalid_instructions no_lightning_value)
  handle_lno (some offer_string) s = do
    offer ← map_err invalid_bolt12 (x.offer_from_str offer_string)
    reject_if (not (x.offer_supports_chain offer network)) wrong_network
    done (record s {
      methods = s.methods ++ lightning_bolt12 offer ∷ [];
      recipient_description = override s.recipient_description (x.offer_description offer);
    })

  unfoldable pub handle_pop :
      Bytes → Option Bytes → UriState x → Outcome (ParseError x) (UriState x)
  unfolding un_percent_encode split_once is_remote_scheme eq_ignore_ascii_case
  handle_pop k v s = do
    reject_if (eq_ignore_ascii_case k (codes "req-pop") && not supports_pops)
        unknown_required_parameter
    value ← ok_or (invalid_instructions no_pop_value) v
    callback_uri ← un_percent_encode x value
    reject_if (is_remote_scheme (split_once callback_uri b':').0) (invalid_instructions not_local)
    done (record s { pop_callback = some callback_uri })

  -- the last arm: a required parameter that is not known
  unfoldable pub handle_other : Bytes → UriState x → Outcome (ParseError x) (UriState x)
  unfolding has_prefix
  handle_other k s = do
    required ← has_prefix k (codes "req-")
    reject_if required unknown_required_parameter
    done s

  -- The body of the first loop, for one `k=v`.
  unfoldable pub handle_key :
      Bytes → Option Bytes → UriState x → Outcome (ParseError x) (UriState x)
  handle_key k v s =
      if is_key k (codes "bc")
      then handle_bc v s
      else if is_key k (codes "lightning")
      then handle_lightning v s
      else if is_key k (codes "lno")
      then handle_lno v s
      else if is_key k (codes "amount")
      then done s
      else if is_key k (codes "label")
      then done s
      else if is_key k (codes "message")
      then done s
      else if is_key k (codes "pop")
      then handle_pop k v s
      else handle_other k s

  unfoldable pub handle_param : Bytes → UriState x → Outcome (ParseError x) (UriState x)
  unfolding handle_key split_once
  handle_param param s = let (k, v) = split_once param b'=' in handle_key k v s

  unfoldable pub handle_params : List Bytes → UriState x → Outcome (ParseError x) (UriState x)
  unfolding handle_param
  handle_params [] s = done s
  handle_params (param ∷ params) s = do s' ← handle_param param s; handle_params params s'
