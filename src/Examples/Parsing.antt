-- ===== src/Examples/Parsing.antt =====
-- The theorems on the parsers, at concrete texts.
use Prim.Native.String.{String}
use mathlib.Core.Path.{subst}
use libbtcwallet.Instructions.External.{HrnResolution}
use libbtcwallet.Base.{
  inr, fail, is_utf8, Result, ◌≡◌, ◌≢◌, ◌↔◌, refl, arith, true, false, none, some, [], ◌∷◌, Bytes,
  codes, IsAscii, done, panic, ok, err, All, ◌>>=◌, slice_to, slice_from, split,
  eq_ignore_ascii_case, find_split, if_some, if_ok,
}
use libbtcwallet.Instructions.{
  ParseError, invalid_instructions, max_amount_difference, PaymentInstructions, lightning_bolt11,
  on_chain, amount, ln_payment_amount, onchain_payment_amount,
}
use libbtcwallet.Instructions.Check.{check_amounts, check_amount}
use libbtcwallet.Instructions.Uri.{
  split_once, or_whole, has_prefix, handle_params, handle_lightning,
}
use libbtcwallet.Instructions.Meta.{read_params}
use libbtcwallet.Instructions.Capped.{AllCapped, parse_resolved_instructions-AllCapped}
use libbtcwallet.Instructions.Uri.Required.{IsUnderstood, parse_resolved_instructions-IsUnderstood}
use libbtcwallet.Instructions.Percent.{percent_error, un_percent_encode}
use libbtcwallet.Instructions.Percent.Decimal.{
  Decodes, literal, ended, un_percent_encode_iff, un_percent_encode-fail,
}
use libbtcwallet.Instructions.Parse.{
  parse_body, apply_amount, parse_params, parse_bitcoin_uri, parse_resolved_instructions,
  parse_payment_instructions,
}
use libbtcwallet.Instructions.Consistent.{IsConsistent}
use libbtcwallet.Instructions.Consistent.Parsed.{parse_payment_instructions-IsConsistent}
use libbtcwallet.Instructions.Panics.{
  parse_payment_instructions-ne-panic, parse_resolved_panics, resolved_text_panics,
}
use libbtcwallet.Receive.{ReceiveError, bolt12_refund, parse_receive_instructions}
use libbtcwallet.Receive.Network.{IsFor, parse_receive_instructions-IsFor}
use libbtcwallet.Receive.Lnr.{bitcoin_uri_never_received}
use libbtcwallet.Wallet.Info.{set_amount}
use libbtcwallet.Wallet.Info.Close.{IsClose, set_amount-IsClose}
use libbtcwallet.Examples.Toys.{
  parsers, resolver, accented, accented_resolution, accented_resolver, receivers,
}

-- An address and an invoice, for two bitcoin and for 50 satoshis less.
abbrev both : PaymentInstructions parsers
both = record {
  recipient_description = none;
  methods = on_chain (some 200_000_000_000) (codes "b") ∷ lightning_bolt11 (codes "l") ∷ [];
  pop_callback = none;
  hrn = none;
  hrn_proof = none;
}

both_parsed :
    parse_payment_instructions parsers true false resolver (codes "bitcoin:b?amount=2&lightning=l")
    ≡ done both
unfolding parse_payment_instructions parse_resolved_instructions parse_bitcoin_uri parse_params
    handle_params read_params check_amounts has_prefix split_once or_whole find_split slice_from
    slice_to split if_some ◌>>=◌ amount parse_body handle_lightning apply_amount check_amount
    eq_ignore_ascii_case max_amount_difference
both_parsed = refl

parse_payment_instructions-IsConsistent_example : IsConsistent both
parse_payment_instructions-IsConsistent_example =
    parse_payment_instructions-IsConsistent parsers true false resolver
      (codes "bitcoin:b?amount=2&lightning=l") both both_parsed

set_both :
    set_amount both 199_999_950_000 ≡ ok (record { instructions = both; amount = 199_999_950_000 })
unfolding set_amount ln_payment_amount onchain_payment_amount amount
set_both = refl

set_amount-IsClose_example : All (λ m. IsClose 199_999_950_000 (amount m)) both.methods
set_amount-IsClose_example =
    set_amount-IsClose parsers true false resolver (codes "bitcoin:b?amount=2&lightning=l") both
      199_999_950_000 both_parsed set_both

at_name-IsAscii : IsAscii (codes "@n")
at_name-IsAscii = (omega arith, (omega arith, tt))

answer-IsAscii : IsAscii (codes "bitcoin:b")
answer-IsAscii = (
  omega arith,
  (
    omega arith,
    (
      omega arith,
      (omega arith, (omega arith, (omega arith, (omega arith, (omega arith, (omega arith, tt)))))),
    ),
  ),
)

pub answers-IsAscii :
    (hrn : Bytes) (r : HrnResolution) → resolver.resolve_hrn hrn ≡ ok r → IsAscii r.result
answers-IsAscii hrn r e = subst (λ (q : Result String HrnResolution). AtOk q) e answer-IsAscii
  where
    AtOk : Result String HrnResolution → Type 0
    AtOk (ok q) = IsAscii q.result
    AtOk (err _) = Unit

parse_payment_instructions-ne-panic_example :
    parse_payment_instructions parsers true false resolver (codes "@n") ≢ panic
parse_payment_instructions-ne-panic_example =
    parse_payment_instructions-ne-panic parsers true false resolver (codes "@n") at_name-IsAscii
      answers-IsAscii

parse_resolved_panics_example :
    parse_resolved_instructions parsers true false none none accented ≡ panic
parse_resolved_panics_example =
    parse_resolved_panics parsers true false none none accented 169 refl (omega arith) (omega arith)

accented_name_panics :
    parse_payment_instructions parsers true false accented_resolver (codes "@n") ≡ panic
accented_name_panics =
    resolved_text_panics parsers true false accented_resolver (codes "@n") (codes "@n")
      accented_resolution 169 refl refl refl (omega arith) (omega arith)

refund_parsed :
    parse_receive_instructions receivers true (codes "r1")
    ≡ done (record { description = some (codes "r1"); methods = bolt12_refund (codes "r1") ∷ [] })
unfolding parse_receive_instructions has_prefix if_some if_ok ◌>>=◌
refund_parsed = refl

parse_receive_instructions-IsFor_example :
    All (IsFor receivers true) (bolt12_refund (codes "r1") ∷ [])
parse_receive_instructions-IsFor_example =
    parse_receive_instructions-IsFor receivers true (codes "r1")
      (record { description = some (codes "r1"); methods = bolt12_refund (codes "r1") ∷ [] })
      refund_parsed

bitcoin_prefix :
    has_prefix {E = ReceiveError receivers} (codes "bitcoin:?lnr=r1") (codes "bitcoin:") ≡ done true
unfolding has_prefix slice_to ◌>>=◌
bitcoin_prefix = refl

bitcoin_uri_never_received_example :
    parse_receive_instructions receivers true (codes "bitcoin:?lnr=r1")
    ≢ done (record { description = some (codes "r1"); methods = bolt12_refund (codes "r1") ∷ [] })
bitcoin_uri_never_received_example =
    bitcoin_uri_never_received receivers true (codes "bitcoin:?lnr=r1") tt refl
      (record { description = some (codes "r1"); methods = bolt12_refund (codes "r1") ∷ [] })
      bitcoin_prefix

-- `%41` is the letter A.
un_percent_encode_iff_example :
    (un_percent_encode parsers (codes "x%41") ≡ done (codes "xA"))
    ↔ (Decodes (codes "x%41") (codes "xA") × (is_utf8 (codes "xA") ≡ true))
un_percent_encode_iff_example = un_percent_encode_iff parsers (codes "x%41") (codes "xA")

x_decoded : Decodes (codes "x") (codes "x")
x_decoded = literal (omega arith) ended

un_percent_encode-fail_example :
    un_percent_encode parsers (codes "x%2Fy") ≡ fail (invalid_instructions percent_error)
un_percent_encode-fail_example =
    un_percent_encode-fail parsers (codes "x") (codes "x") (codes "y") b'2' b'F' x_decoded
      (inr (λ (_, h). ground arith))

abbrev labelled : PaymentInstructions parsers
labelled = record {
  recipient_description = none;
  methods = on_chain none (codes "b") ∷ [];
  pop_callback = none;
  hrn = none;
  hrn_proof = none;
}

labelled_parsed :
    parse_resolved_instructions parsers true false none none (codes "bitcoin:b?req-label=x")
    ≡ done labelled
unfolding parse_resolved_instructions ◌>>=◌ has_prefix parse_bitcoin_uri slice_from parse_body
    split_once parse_params split apply_amount check_amount amount max_amount_difference
labelled_parsed = refl

labelled_starts :
    has_prefix {E = ParseError parsers} (codes "bitcoin:b?req-label=x") (codes "bitcoin:")
    ≡ done true
unfolding has_prefix eq_ignore_ascii_case ◌>>=◌
labelled_starts = refl

labelled_sliced :
    slice_from {E = ParseError parsers} (codes "bitcoin:b?req-label=x") 8
    ≡ done (codes "b?req-label=x")
unfolding slice_from
labelled_sliced = refl

labelled_queried : (split_once (codes "b?req-label=x") b'?').1 ≡ some (codes "req-label=x")
unfolding split_once find_split
labelled_queried = refl

parse_resolved_instructions-IsUnderstood_example :
    All (IsUnderstood parsers true false) (split b'&' (codes "req-label=x"))
parse_resolved_instructions-IsUnderstood_example =
    parse_resolved_instructions-IsUnderstood parsers true false none none
      (codes "bitcoin:b?req-label=x") (codes "b?req-label=x") (codes "req-label=x") labelled
      labelled_starts labelled_sliced labelled_queried labelled_parsed

priced_parsed :
    parse_resolved_instructions parsers true false none none
      (codes "bitcoin:b?amount=2&lightning=l")
    ≡ done both
unfolding parse_resolved_instructions ◌>>=◌ has_prefix parse_bitcoin_uri slice_from parse_body
    split_once parse_params split handle_lightning apply_amount check_amount amount
    max_amount_difference
priced_parsed = refl

priced_starts :
    has_prefix {E = ParseError parsers} (codes "bitcoin:b?amount=2&lightning=l") (codes "bitcoin:")
    ≡ done true
unfolding has_prefix eq_ignore_ascii_case ◌>>=◌
priced_starts = refl

parse_resolved_instructions-AllCapped_example : AllCapped parsers true false both.methods
parse_resolved_instructions-AllCapped_example =
    parse_resolved_instructions-AllCapped parsers true false none none
      (codes "bitcoin:b?amount=2&lightning=l") both priced_starts priced_parsed
