-- ===== src/Examples/Toys.antt =====
-- Small stand-ins for what the program takes from other crates.
use libbtcwallet.Base.{
  ℕ, ◌*◌, ◌-◌, Bool, true, false, Option, none, some, List, [], ◌∷◌, Bytes, codes, Key, beq, beq_eq,
  beq_refl, HashMap, get, put, Result, ok, err, ◌==◌, if◌then◌else◌,
}
use libbtcwallet.Instructions.External.{Externals, HrnResolution, HrnResolver}
use libbtcwallet.Receive.{ReceiveExternals}
use libbtcwallet.Store.{IdExternals}
use libbtcwallet.Store.Kv.{KvStore}
use libbtcwallet.Wallet.Services.{Services, PaymentKind, PaymentDetails, inbound, status_succeeded}

abbrev starting : ℕ → Bytes → Result (Unit {0}) Bytes
starting c [] = err tt
starting c (b ∷ s) = if b == c then ok (b ∷ s) else err tt

-- A digit is read as so many bitcoin.
abbrev digit : Bytes → Option ℕ
digit [] = none
digit (c ∷ s) = some ((c - b'0') * 100_000_000)

abbrev at_name : Bytes → Option Bytes
at_name [] = none
at_name (b ∷ s) = if b == b'@' then some (b ∷ s) else none

-- Addresses begin with `b`, invoices with `l` and offers with `o`; every invoice is for 100_050
-- satoshis short of two bitcoin, on the main network, which is `true`.
abbrev pub parsers : Externals
parsers = record {
  Network = Bool;
  same_network = λ a b. if a then b else (if b then false else true);
  UncheckedAddress = Bytes;
  Address = Bytes;
  AddressError = Unit;
  address_from_str = starting b'b';
  require_network = λ a n. ok a;
  amount_from_str_in_btc = digit;
  Bolt11Invoice = Bytes;
  Bolt11Error = Unit;
  invoice_from_str = starting b'l';
  invoice_network = λ i. true;
  invoice_description = λ i. none;
  invoice_amount_milli_satoshis = λ i. some 199_999_950_000;
  Offer = Bytes;
  Bolt12Error = Unit;
  offer_from_str = starting b'o';
  offer_supports_chain = λ o n. n;
  offer_description = λ o. none;
  offer_amount = λ o. none;
  HumanReadableName = Bytes;
  hrn_from_encoded = at_name;
}

-- Every name resolves to the address `b`, with no proof.
abbrev pub resolver : HrnResolver parsers
resolver = record { resolve_hrn = λ hrn. ok (record { proof = none; result = codes "bitcoin:b" }) }

-- A name whose text is not ASCII: seven letters, and an `é` at the end of the prefix.
abbrev pub accented : Bytes
accented = 97 ∷ 97 ∷ 97 ∷ 97 ∷ 97 ∷ 97 ∷ 97 ∷ 195 ∷ 169 ∷ []

abbrev pub accented_resolution : HrnResolution
accented_resolution = record { proof = none; result = accented }

abbrev pub accented_resolver : HrnResolver parsers
accented_resolver = record { resolve_hrn = λ hrn. ok accented_resolution }

-- Refunds begin with `r` and are for the main network.
abbrev pub receivers : ReceiveExternals
receivers = record {
  Network = Bool;
  SecretKey = Bytes;
  PrivateKey = Bytes;
  from_wif = λ s. none;
  key_is_for = λ k n. n;
  inner_key = λ k. k;
  Refund = Bytes;
  Bolt12ParseError = Unit;
  refund_from_str = starting b'r';
  refund_is_for = λ r n. n;
  refund_description = λ r. r;
  refund_description_printed = λ r. r;
}

abbrev pub bytes_key : Key Bytes
bytes_key = record { same = beq; same_iff = λ a b. (beq_eq a b, λ e. rw e (beq_refl b)) }

abbrev tail : Bytes → Result (Unit {0}) Bytes
tail [] = err tt
tail (c ∷ s) = ok s

abbrev pub ids : IdExternals
ids = record {
  CustodialPaymentId = Bytes;
  uuid_key = bytes_key;
  uuid_lt = λ a b. false;
  uuid_to_string = λ u. b'u' ∷ u;
  uuid_from_str = tail;
  to_hex = λ b. b'x' ∷ b;
  from_hex = tail;
}

abbrev pub keys : HashMap Bytes Bytes → List Bytes
keys [] = []
keys ((k, v) ∷ m) = k ∷ keys m

abbrev pub memory : KvStore
memory = record {
  State = HashMap Bytes Bytes;
  list = λ m. some (keys m);
  read = get bytes_key;
  write = λ m k v. some (put bytes_key m k v);
}

-- The world is the custodial balance, in satoshis. A payment costs 100 satoshis, and the fee
-- estimate is 1.
-- Our channels issue the invoice `l`, and see the payments that are given.
abbrev pub with_payments : List PaymentDetails → Services parsers ids
with_payments payments = record {
  World = ℕ;
  CustodialError = Unit;
  only_bolt11 = tt;
  NodeError = Unit;
  insufficient_funds = tt;
  now = λ w. 7;
  get_bitcoin_balance = λ w. w;
  get_lightning_send_fee_estimate = λ w i. (ok 1, w);
  pay_lightning_invoice = λ w i. (ok (1 ∷ []), w - 100);
  create_lightning_invoice = λ w a. (err tt, w);
  get_all_transfers = λ w. (ok [], w);
  total_lightning_balance_sats = λ w. 0;
  total_onchain_balance_sats = λ w. 0;
  inbound_capacities = λ w. [];
  send_bolt11 = λ w i a. (err tt, w);
  send_bolt12 = λ w o a. (err tt, w);
  send_to_address = λ w d a. (err tt, w);
  receive = λ w a. (ok (b'l' ∷ []), w);
  receive_via_jit_channel = λ w a. (ok (b'l' ∷ []), w);
  receive_variable_amount = λ w. (err tt, w);
  receive_variable_amount_via_jit_channel = λ w. (err tt, w);
  list_payments = λ w. payments;
  payment_hash = λ i. i;
  invoice_to_string = λ i. i;
  address_to_string = λ a. a;
  next_receipt = λ w. w;
  new_address = λ w. (err tt, w);
}

abbrev pub services : Services parsers ids
services = with_payments []

-- A completed payment of the invoice `l`, of a given kind.
abbrev pub arrived : PaymentKind → PaymentDetails
arrived kind = record {
  id = 5 ∷ [];
  kind = kind;
  amount_msat = none;
  direction = inbound;
  status = status_succeeded;
  latest_update_timestamp = 7;
}
