-- ===== src/Examples/Receiving.antt =====
-- The theorem on `get_single_use_receive_uri`, with invoices that print the amount as so many `u`.
use libbtcwallet.Base.{
  ◌*◌, ℕ, zero, suc, ◌≡◌, refl, ap, arith, true, false, Option, none, some, List, [], ◌∷◌, Bytes,
  codes, Result, ok, err, done, All, length, replicate, find_split, find_split-Lacks, ◌==◌,
  if◌then◌else◌, to_ascii_uppercase, to_upper,
}
use libbtcwallet.Wallet.Lightning
use libbtcwallet.Amount.Format.{btc_decimal_rounding_up_to_sats}
use libbtcwallet.Amount.Format.RoundTrip.{read_btc, read_btc-ReadsBtc}
use libbtcwallet.Instructions.External.{Externals, HrnResolver}
use libbtcwallet.Instructions.{PaymentMethod, PaymentInstructions}
use libbtcwallet.Instructions.Parse.{parse_payment_instructions}
use libbtcwallet.Wallet.Services.{Services}
use libbtcwallet.Wallet.Balance.{Tunables}
use libbtcwallet.Wallet.ReceiveUri.{get_single_use_receive_uri}
use libbtcwallet.Wallet.ReceiveUri.Parsed.{IsPlain, IsInvoiceText}
use libbtcwallet.Wallet.ReceiveUri.Issued.{UriLaws}
use libbtcwallet.Wallet.ReceiveUri.RoundTrip.{
  Offered, get_single_use_receive_uri-parse_payment_instructions,
}
use libbtcwallet.Examples.Toys.{ids}

abbrev read_invoice : Bytes → Result (Unit {0}) (Option ℕ)
read_invoice [] = err tt
read_invoice (c ∷ s) = if c == b'N' then ok none else ok (some (length s))

abbrev print_invoice : Option ℕ → Bytes
print_invoice none = codes "n"
print_invoice (some n) = b's' ∷ replicate n b'u'

-- One address, `b`; a name has an `@`.
abbrev unary : Externals
unary = record {
  Network = Unit;
  same_network = λ a b. true;
  UncheckedAddress = Unit;
  Address = Unit;
  AddressError = Unit;
  address_from_str = λ s. ok tt;
  require_network = λ a n. ok a;
  amount_from_str_in_btc = read_btc;
  Bolt11Invoice = Option ℕ;
  Bolt11Error = Unit;
  invoice_from_str = read_invoice;
  invoice_network = λ i. tt;
  invoice_description = λ i. none;
  invoice_amount_milli_satoshis = λ i. i;
  Offer = Unit;
  Bolt12Error = Unit;
  offer_from_str = λ s. err tt;
  offer_supports_chain = λ o n. true;
  offer_description = λ o. none;
  offer_amount = λ o. none;
  HumanReadableName = Bytes × Bytes;
  hrn_from_encoded = find_split b'@';
}

abbrev no_names : HrnResolver unary
no_names = record { resolve_hrn = λ hrn. ok (record { proof = none; result = [] }) }

abbrev issuing : Services unary ids
issuing = record {
  World = Unit;
  CustodialError = Unit;
  only_bolt11 = tt;
  NodeError = Unit;
  insufficient_funds = tt;
  now = λ w. 7;
  get_bitcoin_balance = λ w. 0;
  get_lightning_send_fee_estimate = λ w i. (ok 1, w);
  pay_lightning_invoice = λ w i. (err tt, w);
  create_lightning_invoice = λ w n. (ok (some (n * 1000)), w);
  get_all_transfers = λ w. (ok [], w);
  total_lightning_balance_sats = λ w. 0;
  total_onchain_balance_sats = λ w. 0;
  inbound_capacities = λ w. [];
  send_bolt11 = λ w i a. (err tt, w);
  send_bolt12 = λ w o a. (err tt, w);
  send_to_address = λ w d a. (err tt, w);
  receive = λ w a. (ok (some a), w);
  receive_via_jit_channel = λ w a. (ok (some a), w);
  receive_variable_amount = λ w. (ok none, w);
  receive_variable_amount_via_jit_channel = λ w. (ok none, w);
  list_payments = λ w. [];
  payment_hash = λ i. [];
  invoice_to_string = print_invoice;
  address_to_string = λ a. codes "b";
  next_receipt = λ w. w;
  new_address = λ w. (ok tt, w);
}

replicate-IsPlain : (n : ℕ) → All IsPlain (replicate n b'u')
replicate-IsPlain zero = tt
replicate-IsPlain (suc n) = (omega arith, replicate-IsPlain n)

capitals_length : (n : ℕ) → length (to_ascii_uppercase (replicate n b'u')) ≡ n
unfolding to_ascii_uppercase
capitals_length zero = refl
capitals_length (suc n) = ap suc (capitals_length n)

invoice_text : (i : Option ℕ) → IsInvoiceText unary tt (print_invoice i) i i
unfolding to_ascii_uppercase to_upper
invoice_text none = record { plain = omega arith; read = refl; same = refl; asks = refl }
invoice_text (some n) = record {
  plain = (omega arith, replicate-IsPlain n);
  read = ap (λ m. ok (some m)) (capitals_length n);
  same = refl;
  asks = refl;
}

issuing_laws : UriLaws issuing tt
issuing_laws = record {
  amount_read = read_btc-ReadsBtc;
  no_name = find_split-Lacks b'@';
  address = λ w. record {
    plain = omega arith;
    not_nil = λ e. cc;
    unchecked = tt;
    read = refl;
    required = refl;
  };
  custodial = λ w n h. invoice_text (some (n * 1000));
  channel = λ w m. invoice_text (some m);
  new_channel = λ w m. invoice_text (some m);
}

abbrev never_custodial : Tunables
never_custodial = record {
  custodial_balance_limit = 0;
  rebalance_min = 0;
  onchain_receive_threshold = 0;
  enable_amountless_receive_on_chain = true;
}

three_msats_uri :
    get_single_use_receive_uri issuing never_custodial (some 3) tt
    ≡ (ok (codes "BITCOIN:B?AMOUNT=0.00000001&LIGHTNING=SUUU"), tt)
unfolding get_single_use_receive_uri to_upper Lightning.get_bolt11_invoice
    btc_decimal_rounding_up_to_sats
three_msats_uri = refl

get_single_use_receive_uri-parse_payment_instructions_example :
    (methods : List (PaymentMethod unary)) × ((i : PaymentInstructions unary)
      × (parse_payment_instructions unary tt false no_names
            (codes "BITCOIN:B?AMOUNT=0.00000001&LIGHTNING=SUUU")
          ≡ done i)
      × (i.methods ≡ methods))
    × Offered issuing tt never_custodial (some 3) tt tt methods
get_single_use_receive_uri-parse_payment_instructions_example =
    get_single_use_receive_uri-parse_payment_instructions issuing tt issuing_laws false no_names
      never_custodial 3 tt tt (codes "BITCOIN:B?AMOUNT=0.00000001&LIGHTNING=SUUU") (omega arith)
      (omega arith) three_msats_uri
