-- ===== src/Instructions/Panics.antt =====
-- When parsing panics: Rust's `s[..N]` does where byte N is inside a character.
pub mod Loops
use libbtcwallet.Base.{
  ap, ℕ, zero, suc, ◌≤◌, ◌<◌, ◌≡◌, ◌≢◌, arith, Bool, true, false, Option, none, some, List, [], ◌∷◌,
  Bytes, codes, length, IsAscii, done, panic, NoPanic, no_panic_done, NoPanic-bind, NoPanic-if,
  NoPanic-map_err, NoPanic-ne, NoPanic-if_ok, NoPanic-if_some, is_char_boundary, slice_from, drop,
  ltb, err, if_some, map_err, ◌∙◌, ap, split, split-All, get_elem?, Result, ok, ◌>>=◌,
}
use libbtcwallet.Instructions.External.{Externals, HrnResolver, HrnResolution}
use libbtcwallet.Instructions.{PaymentMethod}
use libbtcwallet.Instructions.Uri.{has_prefix}
use libbtcwallet.Instructions.Parse.{
  parse_body, parse_params, parse_bitcoin_uri, of_invoice, parse_lightning_uri, parse_bare,
  parse_resolved_instructions, parse_payment_instructions,
}
use libbtcwallet.Instructions.Panics.Loops.{
  boundary_ascii, has_prefix-NoPanic, AsciiOption, split_once-IsAscii, check_amounts-NoPanic,
  read_params-NoPanic, handle_params-NoPanic, parse_address-NoPanic, bolt11-NoPanic, no_panic_rules,
}

-- A prefix that is found is no longer than the text.
has_prefix-length :
    {E : Type 0} (s prefix : Bytes)
    → has_prefix {E = E} s prefix ≡ done true
    → length prefix ≤ length s
unfolding has_prefix
has_prefix-length s prefix h = ground arith

slice_from-NoPanic :
    {E : Type 0} (s : Bytes) (n : ℕ) → IsAscii s → n ≤ length s → NoPanic (slice_from {E = E} s n)
unfolding slice_from
slice_from-NoPanic s n h le = rw (boundary_ascii s n h le) no_panic_done

drop-IsAscii : (n : ℕ) (s : Bytes) → IsAscii s → IsAscii (drop n s)
drop-IsAscii zero s h = h
drop-IsAscii (suc n) [] h = h
drop-IsAscii (suc n) (c ∷ s) h = drop-IsAscii n s h.1

slice_from-eq :
    {E : Type 0} (s : Bytes) (n : ℕ) {r : Bytes} → slice_from {E = E} s n ≡ done r → r ≡ drop n s
unfolding slice_from
slice_from-eq s n h = ground arith

boundary_inside :
    (s : Bytes) (i b : ℕ)
    → get_elem? s i ≡ some b
    → 128 ≤ b
    → b < 192
    → (is_char_boundary s i ≡ false) × (i < length s)
unfolding is_char_boundary
boundary_inside [] i b e lo hi = cc
boundary_inside (c ∷ s) zero b e lo hi = ground arith
boundary_inside (c ∷ s) (suc i) b e lo hi =
    let (inside, lt) = boundary_inside s i b e lo hi in (inside, omega arith)

has_prefix_panics :
    {E : Type 0} (s prefix : Bytes) (b : ℕ)
    → get_elem? s (length prefix) ≡ some b
    → 128 ≤ b
    → b < 192
    → has_prefix {E = E} s prefix ≡ panic
unfolding has_prefix ◌>>=◌
has_prefix_panics s prefix b e lo hi =
    let (inside, lt) = boundary_inside s (length prefix) b e lo hi in
    let long : ltb (length s) (length prefix) ≡ false = ground arith in rw (long, inside)

map_err-ok : {E F A : Type 0} (f : E → F) (r : Result E A) (a : A) → map_err f r ≡ done a → r ≡ ok a
map_err-ok f (ok b) a h = ground arith
map_err-ok f (err e) a h = cc

module _ (x : Externals) (network : x.Network) (supports_pops : Bool) where
  parse_body-NoPanic : (s : Bytes) → NoPanic (parse_body x network supports_pops s)
  unfolding parse_body
  parse_body-NoPanic [] = no_panic_done
  parse_body-NoPanic (b ∷ s) = search (no_panic_rules, parse_address-NoPanic)

  parse_params-NoPanic :
      (o : Option Bytes) (ms : List (PaymentMethod x))
      → AsciiOption o
      → NoPanic (parse_params x network supports_pops o ms)
  unfolding parse_params
  parse_params-NoPanic none ms h = no_panic_done
  parse_params-NoPanic (some text) ms h =
      search
        (
          no_panic_rules,
          handle_params-NoPanic x network supports_pops (split b'&' text) _
              (split-All b'&' (λ b. b < 128) text h),
          read_params-NoPanic,
          check_amounts-NoPanic,
        )
        depth 8

  module _ (hrn : Option x.HumanReadableName) (proof : Option Bytes) where
    parse_bitcoin_uri-NoPanic :
        (s : Bytes)
        → IsAscii s
        → 8 ≤ length s
        → NoPanic (parse_bitcoin_uri x network supports_pops hrn proof s)
    unfolding parse_bitcoin_uri
    parse_bitcoin_uri-NoPanic s h le = NoPanic-bind (slice_from-NoPanic s 8 h le) λ rest e.
        let ascii : IsAscii rest = rw (slice_from-eq s 8 e) (drop-IsAscii 8 s h) in
        NoPanic-bind (parse_body-NoPanic _) λ ms _.
          NoPanic-bind (parse_params-NoPanic _ ms (split_once-IsAscii rest b'?' ascii).1)
            λ u _. search no_panic_rules

    of_invoice-NoPanic :
        (i : x.Bolt11Invoice) → NoPanic (of_invoice x network supports_pops hrn proof i)
    unfolding of_invoice
    of_invoice-NoPanic i = search (no_panic_rules, bolt11-NoPanic)

    parse_bare-NoPanic : (s : Bytes) → NoPanic (parse_bare x network supports_pops hrn proof s)
    unfolding parse_bare
    parse_bare-NoPanic s = search (no_panic_rules, NoPanic-if_ok, of_invoice-NoPanic) depth 10

    parse_resolved-NoPanic :
        (s : Bytes)
        → IsAscii s
        → NoPanic (parse_resolved_instructions x network supports_pops hrn proof s)
    unfolding parse_resolved_instructions parse_lightning_uri
    parse_resolved-NoPanic s h =
        NoPanic-bind (has_prefix-NoPanic s (codes "bitcoin:") h) λ bitcoin e.
          NoPanic-if bitcoin {m = parse_bitcoin_uri x network supports_pops hrn proof s}
            (λ found. parse_bitcoin_uri-NoPanic s h (has_prefix-length s _ (e ∙ ap done found)))
            (λ _. NoPanic-bind (has_prefix-NoPanic s (codes "lightning:") h) λ lightning e'.
              NoPanic-if lightning {n = parse_bare x network supports_pops hrn proof s}
                (λ found.
                  NoPanic-bind
                    (slice_from-NoPanic s 10 h (has_prefix-length s _ (e' ∙ ap done found)))
                    λ rest _. search (no_panic_rules, of_invoice-NoPanic))
                (λ _. parse_bare-NoPanic s))

    -- A text whose ninth byte continues a character panics, whatever the network and the parsers:
    -- `&instructions[..8]` ends inside the character.
    pub parse_resolved_panics :
        (s : Bytes) (b : ℕ)
        → get_elem? s 8 ≡ some b
        → 128 ≤ b
        → b < 192
        → parse_resolved_instructions x network supports_pops hrn proof s ≡ panic
    unfolding parse_resolved_instructions ◌>>=◌
    parse_resolved_panics s b e lo hi = rw (has_prefix_panics s (codes "bitcoin:") b e lo hi)

  -- An ASCII text never panics, if the resolver answers with ASCII only.
  pub parse_payment_instructions-ne-panic :
      (resolver : HrnResolver x) (s : Bytes)
      → IsAscii s
      → ((hrn : x.HumanReadableName) (r : HrnResolution)
          → resolver.resolve_hrn hrn ≡ ok r
          → IsAscii r.result)
      → parse_payment_instructions x network supports_pops resolver s ≢ panic
  unfolding parse_payment_instructions
  parse_payment_instructions-ne-panic resolver s h answers = NoPanic-ne (
      NoPanic-if_some (x.hrn_from_encoded s) _ _
        (λ hrn. NoPanic-bind (NoPanic-map_err _ (resolver.resolve_hrn hrn)) λ r e.
          parse_resolved-NoPanic (some hrn) r.proof r.result
            (answers hrn r (map_err-ok _ (resolver.resolve_hrn hrn) r e)))
        (parse_resolved-NoPanic none none s h))

  -- A name whose resolver answers with a text as above makes the whole parse panic.
  pub resolved_text_panics :
      (resolver : HrnResolver x) (s : Bytes) (hrn : x.HumanReadableName) (r : HrnResolution) (b : ℕ)
      → x.hrn_from_encoded s ≡ some hrn
      → resolver.resolve_hrn hrn ≡ ok r
      → get_elem? r.result 8 ≡ some b
      → 128 ≤ b
      → b < 192
      → parse_payment_instructions x network supports_pops resolver s ≡ panic
  unfolding parse_payment_instructions if_some ◌>>=◌
  resolved_text_panics resolver s hrn r b named resolved e lo hi =
      rw (named, resolved) (parse_resolved_panics (some hrn) r.proof r.result b e lo hi)
