-- ===== src/Wallet/ReceiveUri/Written.antt =====
-- What the parser of payment instructions makes of the parameters that the wallet writes.
use libbtcwallet.Base.{
  ltb, All-append, is_empty, ◌+◌, ℕ, ◌≡◌, ◌≢◌, ◌≤◌, refl, arith, Bool, true, false, Option, none,
  some, List, [], ◌∷◌, ◌++◌, Bytes, codes, Lacks, IsAscii, length, ok, done, ◌>>=◌, split,
  split-append, split-Lacks, find_split, find_split-append, slice_from, slice_to,
  eq_ignore_ascii_case, is_char_boundary,
}
use libbtcwallet.Amount.{Amount, from_sats, max_msats}
use libbtcwallet.Instructions.External.{Externals}
use libbtcwallet.Instructions.{
  PaymentMethod, PaymentInstructions, lightning_bolt11, on_chain, amount, max_amount_difference,
}
use libbtcwallet.Instructions.Uri.{
  UriState, split_once, or_whole, has_prefix, handle_params, handle_param, handle_key,
  handle_lightning, instructions_from_bolt11, override,
}
use libbtcwallet.Instructions.Meta.{
  UriMeta, no_meta, read_params, read_param, read_key, read_amount,
}
use libbtcwallet.Instructions.Check.{
  check_amounts, check_loop, check_amount, check_lightning, check_range,
}
use libbtcwallet.Instructions.Parse.{
  parse_body, parse_params, parse_bitcoin_uri, parse_resolved_instructions, apply_amount,
}

abbrev pub lightning_param : Bytes → Bytes
lightning_param invoice = codes "LIGHTNING=" ++ invoice

abbrev pub amount_text : Bytes → Bytes
amount_text value = codes "AMOUNT=" ++ value

module _ (x : Externals) (network : x.Network) (supports_pops : Bool) where
  module _ (text : Bytes) (inv : x.Bolt11Invoice) (read : x.invoice_from_str text ≡ ok inv)
      (same : x.same_network (x.invoice_network inv) network ≡ true) where
    handle_lightning_param :
        (st : UriState x)
        → handle_param x network supports_pops (lightning_param text) st
          ≡ done (record st {
            methods = st.methods ++ lightning_bolt11 inv ∷ [];
            recipient_description = override st.recipient_description (x.invoice_description inv);
          })
    unfolding handle_param handle_key handle_lightning instructions_from_bolt11 split_once or_whole
        find_split eq_ignore_ascii_case ◌>>=◌
    handle_lightning_param st = rw (read, same)

  handle_amount_param :
      (value : Bytes) (st : UriState x)
      → handle_param x network supports_pops (amount_text value) st ≡ done st
  unfolding handle_param handle_key split_once or_whole find_split eq_ignore_ascii_case
  handle_amount_param value st = refl

read_lightning_param :
    (x : Externals) (text : Bytes) (m : UriMeta) → read_param x (lightning_param text) m ≡ done m
unfolding read_param read_key split_once or_whole find_split eq_ignore_ascii_case
read_lightning_param x text m = refl

read_amount_param :
    (x : Externals) (value : Bytes) (n : ℕ)
    → x.amount_from_str_in_btc value ≡ some n
    → read_param x (amount_text value) no_meta
      ≡ done (record no_meta { amount = some (from_sats n) })
unfolding read_param read_key read_amount split_once or_whole find_split eq_ignore_ascii_case ◌>>=◌
read_amount_param x value n h = rw h

-- At most 21 million bitcoin and 100 satoshis from each other, or both not asked for.
abbrev pub Matching : Option Amount → Option Amount → Type 0
Matching none none = Unit
Matching none (some b) = ⊥
Matching (some a) none = ⊥
Matching (some a) (some b) =
    (a ≤ max_msats)
    × (b ≤ max_msats)
    × (a ≤ b + max_amount_difference)
    × (b ≤ a + max_amount_difference)

pub check_both :
    (x : Externals) (address : x.Address) (inv : x.Bolt11Invoice) (a b : Option Amount)
    → x.invoice_amount_milli_satoshis inv ≡ b
    → Matching a b
    → check_amounts x (on_chain a address ∷ lightning_bolt11 inv ∷ []) ≡ done tt
unfolding check_amounts check_loop check_amount check_lightning check_range max_amount_difference
    amount ◌>>=◌
check_both x address inv none none e h = rw e refl
check_both x address inv none (some b) e h = absurd h
check_both x address inv (some a) none e h = absurd h
check_both x address inv (some a) (some b) e h = rw e (ground arith)

pub check_one :
    (x : Externals) (inv : x.Bolt11Invoice) (b : Option Amount)
    → x.invoice_amount_milli_satoshis inv ≡ b
    → Matching b b
    → check_amounts x (lightning_bolt11 inv ∷ []) ≡ done tt
unfolding check_amounts check_loop check_amount check_lightning check_range max_amount_difference
    amount ◌>>=◌
check_one x inv none e h = rw e refl
check_one x inv (some b) e h = rw e (ground arith)

module _ (x : Externals) (network : x.Network) (supports_pops : Bool) (text : Bytes)
    (inv : x.Bolt11Invoice) (read : x.invoice_from_str text ≡ ok inv)
    (same : x.same_network (x.invoice_network inv) network ≡ true) (plain : Lacks b'&' text) where
  split_lightning : split b'&' (lightning_param text) ≡ lightning_param text ∷ []
  split_lightning =
      split-Lacks b'&' (lightning_param text)
        (All-append (λ b. b ≢ b'&') (codes "LIGHTNING=") text (omega arith) plain)

  abbrev pub written : List (PaymentMethod x) → UriState x
  written methods = record {
    methods = methods;
    recipient_description = override none (x.invoice_description inv);
    pop_callback = none;
  }

  -- `?LIGHTNING=…` behind an address, or alone
  pub parse_lightning_query :
      (ms : List (PaymentMethod x))
      → is_empty (ms ++ lightning_bolt11 inv ∷ []) ≡ false
      → check_amounts x (ms ++ lightning_bolt11 inv ∷ []) ≡ done tt
      → parse_params x network supports_pops (some (lightning_param text)) ms
        ≡ done (written (ms ++ lightning_bolt11 inv ∷ []))
  unfolding parse_params handle_params read_params apply_amount ◌>>=◌
  parse_lightning_query ms payable checked = rw (
    split_lightning,
    handle_lightning_param x network supports_pops text inv read same,
    read_lightning_param x text,
    payable,
    checked,
  )

  -- `?AMOUNT=…&LIGHTNING=…` behind an address
  pub parse_amount_query :
      (address : x.Address) (value : Bytes) (n : ℕ)
      → Lacks b'&' value
      → x.amount_from_str_in_btc value ≡ some n
      → check_amounts x (on_chain (some (from_sats n)) address ∷ lightning_bolt11 inv ∷ [])
        ≡ done tt
      → parse_params x network supports_pops
          (some (amount_text value ++ b'&' ∷ lightning_param text))
          (on_chain none address ∷ [])
        ≡ done (written (on_chain (some (from_sats n)) address ∷ lightning_bolt11 inv ∷ []))
  unfolding parse_params handle_params read_params apply_amount ◌>>=◌
  parse_amount_query address value n lacks valued checked = rw (
    split-append b'&' (amount_text value) (lightning_param text)
        (All-append (λ b. b ≢ b'&') (codes "AMOUNT=") value (omega arith) lacks),
    split_lightning,
    handle_amount_param x network supports_pops value,
    handle_lightning_param x network supports_pops text inv read same,
    read_amount_param x value n valued,
    read_lightning_param x text,
    checked,
  )

has_prefix_bitcoin :
    {E : Type 0} (s : Bytes)
    → is_char_boundary s 0 ≡ true
    → has_prefix {E = E} (codes "BITCOIN:" ++ s) (codes "bitcoin:") ≡ done true
unfolding has_prefix slice_to is_char_boundary eq_ignore_ascii_case ◌>>=◌
has_prefix_bitcoin s h =
    let long : ltb (length (codes "BITCOIN:" ++ s)) 8 ≡ false = ground arith in rw (long, h)

slice_bitcoin :
    {E : Type 0} (s : Bytes)
    → is_char_boundary s 0 ≡ true
    → slice_from {E = E} (codes "BITCOIN:" ++ s) 8 ≡ done s
unfolding slice_from is_char_boundary
slice_bitcoin s h = rw h

head_boundary : (body rest : Bytes) → IsAscii body → is_char_boundary (body ++ b'?' ∷ rest) 0 ≡ true
unfolding is_char_boundary
head_boundary [] rest h = refl
head_boundary (c ∷ body) rest (h, _) = ground arith

-- A `bitcoin:` URI with a query, in front of the query.
module _ (x : Externals) (network : x.Network) (supports_pops : Bool)
    (hrn : Option x.HumanReadableName) (proof : Option Bytes) where
  abbrev pub instructions_of : UriState x → PaymentInstructions x
  instructions_of u = record {
    recipient_description = u.recipient_description;
    methods = u.methods;
    pop_callback = u.pop_callback;
    hrn = hrn;
    hrn_proof = proof;
  }

  pub parse_query :
      (body query : Bytes) (ms : List (PaymentMethod x)) (u : UriState x)
      → IsAscii body
      → Lacks b'?' body
      → parse_body x network supports_pops body ≡ done ms
      → parse_params x network supports_pops (some query) ms ≡ done u
      → is_empty u.methods ≡ false
      → parse_resolved_instructions x network supports_pops hrn proof
          (codes "BITCOIN:" ++ (body ++ b'?' ∷ query))
        ≡ done (instructions_of u)
  unfolding parse_resolved_instructions parse_bitcoin_uri split_once or_whole ◌>>=◌
  parse_query body query ms u ascii lacks b p payable =
      let starts = head_boundary body query ascii in
      rw (
        has_prefix_bitcoin (body ++ b'?' ∷ query) starts,
        slice_bitcoin (body ++ b'?' ∷ query) starts,
        find_split-append b'?' body query lacks,
        b,
        p,
        payable,
      )
