-- ===== src/Instructions/Uri/Required.antt =====
-- Required parameters of a `bitcoin:` URI.
use libbtcwallet.Base.{
  zero, suc, get_elem?, ℕ, fail, ◌≡◌, refl, Bool, true, false, not, ◌||◌, ◌&&◌, Option, some, List,
  [], ◌∷◌, All, Bytes, codes, map, beq_eq, Outcome, panic, sym, done, Ensures, on_done, on_fail,
  on_panic, Ensures-bind, Ensures-branch, Ensures-at, Ensures-map, Bool-cases, inl, inr, reject_if,
  eq_ignore_ascii_case, to_lower, slice_from, split, ◌>>=◌,
}
use libbtcwallet.Instructions.External.{Externals}
use libbtcwallet.Instructions.{
  ParseError, PaymentInstructions, PaymentMethod, unknown_required_parameter,
}
use libbtcwallet.Instructions.Uri.{
  UriState, is_key, has_prefix, split_once, handle_pop, handle_other, handle_key, handle_param,
  handle_params,
}
use libbtcwallet.Instructions.Parse.{parse_params, parse_bitcoin_uri, parse_resolved_instructions}

-- One of the keys that are handled, with or without `req-`.
abbrev pub is_one_of : Bytes → List Bytes → Bool
is_one_of k [] = false
is_one_of k (name ∷ names) = is_key k name || is_one_of k names

abbrev pub known_keys : List Bytes
known_keys =
    codes "bc"
    ∷ codes "lightning"
    ∷ codes "lno"
    ∷ codes "amount"
    ∷ codes "label"
    ∷ codes "message"
    ∷ codes "pop"
    ∷ []

or_right : (a b : Bool) → b ≡ true → (a || b) ≡ true
or_right true b h = refl
or_right false b h = h

one_of :
    (k name : Bytes) (names : List Bytes) (i : ℕ)
    → get_elem? names i ≡ some name
    → is_key k name ≡ true
    → is_one_of k names ≡ true
one_of k name [] i e h = cc
one_of k name (n ∷ names) zero e h = let same : n ≡ name = cc in rw (same, h) refl
one_of k name (n ∷ names) (suc i) e h =
    or_right (is_key k n) (is_one_of k names) (one_of k name names i e h)

module _ (x : Externals) (network : x.Network) (supports_pops : Bool) where
  -- A parameter is not required, or understood; proofs of payment may not be.
  pub record IsUnderstood (param : Bytes) : Type 0 where
    pub known :
        has_prefix {E = ParseError x} (split_once param b'=').0 (codes "req-") ≡ done true
        → is_one_of (split_once param b'=').0 known_keys ≡ true
    pub supported :
        eq_ignore_ascii_case (split_once param b'=').0 (codes "req-pop") ≡ true
        → supports_pops ≡ true

  both_lem : (a b : Bool) → a ≡ true → (a && not b) ≡ false → b ≡ true
  both_lem true true h k = refl
  both_lem true false h k = cc
  both_lem false b h k = cc

  Ensures-const : {E A P : Type 0} (o : Outcome E A) → P → Ensures (λ _. P) o
  Ensures-const (done a) h = on_done h
  Ensures-const (fail e) h = on_fail
  Ensures-const panic h = on_panic

  abbrev Known : Bytes → UriState x → Type 0
  Known k s =
      has_prefix {E = ParseError x} k (codes "req-") ≡ done true → is_one_of k known_keys ≡ true

  rejected : (b : Bool) (e : ParseError x) → reject_if b e ≡ done tt → b ≡ false
  rejected true e h = cc
  rejected false e h = refl

  not_required :
      (k : Bytes) (required : Bool)
      → has_prefix {E = ParseError x} k (codes "req-") ≡ done required
      → required ≡ false
      → (s : UriState x) → Known k s
  not_required k required e r s h =
      let both : done required ≡ has_prefix {E = ParseError x} k (codes "req-") = sym e in cc

  handle_other-Known :
      (k : Bytes) (s : UriState x) → Ensures (Known k) (handle_other x network supports_pops k s)
  unfolding handle_other
  handle_other-Known k s = Ensures-bind _ _ λ required e.
      Ensures-bind _ _ λ _ r. on_done (not_required k required e (rejected required _ r) s)

  found :
      (k name : Bytes) (i : ℕ) (o : Outcome (ParseError x) (UriState x))
      → get_elem? known_keys i ≡ some name
      → is_key k name ≡ true
      → Ensures (Known k) o
  found k name i o e h = Ensures-const o (λ _. one_of k name known_keys i e h)

  handle_key-Known :
      (k : Bytes) (v : Option Bytes) (s : UriState x)
      → Ensures (Known k) (handle_key x network supports_pops k v s)
  unfolding handle_key
  handle_key-Known k v s =
      Ensures-branch (is_key k (codes "bc")) (found k (codes "bc") 0 _ refl) λ _.
        Ensures-branch (is_key k (codes "lightning")) (found k (codes "lightning") 1 _ refl) λ _.
          Ensures-branch (is_key k (codes "lno")) (found k (codes "lno") 2 _ refl) λ _.
            Ensures-branch (is_key k (codes "amount")) (found k (codes "amount") 3 _ refl) λ _.
              Ensures-branch (is_key k (codes "label")) (found k (codes "label") 4 _ refl) λ _.
                Ensures-branch (is_key k (codes "message")) (found k (codes "message") 5 _ refl)
                  λ _.
                    Ensures-branch (is_key k (codes "pop")) (found k (codes "pop") 6 _ refl)
                      λ _. handle_other-Known k s

  handle_pop-Supported :
      (k : Bytes) (v : Option Bytes) (s : UriState x)
      → eq_ignore_ascii_case k (codes "req-pop") ≡ true
      → Ensures (λ _. supports_pops ≡ true) (handle_pop x network supports_pops k v s)
  unfolding handle_pop
  handle_pop-Supported k v s h = Ensures-bind _ _ λ _ r.
      let kept = rejected _ unknown_required_parameter r in
      Ensures-const _ (both_lem _ supports_pops h kept)

  handle_key_pop :
      (k : Bytes) (v : Option Bytes) (s : UriState x)
      → eq_ignore_ascii_case k (codes "req-pop") ≡ true
      → handle_key x network supports_pops k v s ≡ handle_pop x network supports_pops k v s
  unfolding handle_key eq_ignore_ascii_case to_lower
  handle_key_pop k v s h =
      let low : map to_lower k ≡ codes "req-pop" = beq_eq (map to_lower k) (codes "req-pop") h in
      rw low refl

  handle_key-Supported :
      (k : Bytes) (v : Option Bytes) (s : UriState x)
      → Ensures
          (λ _. eq_ignore_ascii_case k (codes "req-pop") ≡ true → supports_pops ≡ true)
          (handle_key x network supports_pops k v s)
  handle_key-Supported k v s = elim (Bool-cases (eq_ignore_ascii_case k (codes "req-pop"))) [
    | inl e ↦ rw (handle_key_pop k v s e) (Ensures-map (λ _ h _. h) (handle_pop-Supported k v s e))
    | inr e ↦ Ensures-const _ (λ h. cc)
  ]

  understood :
      (param : Bytes) (o : Outcome (ParseError x) (UriState x))
      → Ensures (Known (split_once param b'=').0) o
      → Ensures
          (λ _.
            eq_ignore_ascii_case (split_once param b'=').0 (codes "req-pop") ≡ true
            → supports_pops ≡ true)
          o
      → Ensures (λ _. IsUnderstood param) o
  understood param _ (on_done h) k = on_done (record { known = h; supported = Ensures-at k refl })
  understood param _ on_fail k = on_fail
  understood param _ on_panic k = on_panic

  handle_param-IsUnderstood :
      (param : Bytes) (s : UriState x)
      → Ensures (λ _. IsUnderstood param) (handle_param x network supports_pops param s)
  unfolding handle_param
  handle_param-IsUnderstood param s =
      let k = (split_once param b'=').0 in
      let v = (split_once param b'=').1 in
      understood param _ (handle_key-Known k v s) (handle_key-Supported k v s)

  handle_params-IsUnderstood :
      (params : List Bytes) (s : UriState x)
      → Ensures (λ _. All IsUnderstood params) (handle_params x network supports_pops params s)
  unfolding handle_params
  handle_params-IsUnderstood [] s = on_done tt
  handle_params-IsUnderstood (param ∷ params) s = Ensures-bind _ _ λ s' e.
      Ensures-map (λ _ rest. (Ensures-at (handle_param-IsUnderstood param s) e, rest))
        (handle_params-IsUnderstood params s')

  parse_params-IsUnderstood :
      (query : Bytes) (ms : List (PaymentMethod x))
      → Ensures
          (λ _. All IsUnderstood (split b'&' query))
          (parse_params x network supports_pops (some query) ms)
  unfolding parse_params
  parse_params-IsUnderstood query ms =
      Ensures-bind _ _
        λ s e. Ensures-const _ (Ensures-at (handle_params-IsUnderstood (split b'&' query) _) e)

  params_of :
      (o : Option Bytes) (query : Bytes) (ms : List (PaymentMethod x)) (u : UriState x)
      → o ≡ some query
      → parse_params x network supports_pops o ms ≡ done u
      → All IsUnderstood (split b'&' query)
  params_of o query ms u e h = Ensures-at (parse_params-IsUnderstood query ms) (rw e at h)

  parse_bitcoin_uri-IsUnderstood :
      (hrn : Option x.HumanReadableName) (proof : Option Bytes) (s rest query : Bytes)
      → slice_from {E = ParseError x} s 8 ≡ done rest
      → (split_once rest b'?').1 ≡ some query
      → Ensures
          (λ _. All IsUnderstood (split b'&' query))
          (parse_bitcoin_uri x network supports_pops hrn proof s)
  unfolding parse_bitcoin_uri
  parse_bitcoin_uri-IsUnderstood hrn proof s rest query sliced queried = Ensures-bind _ _ λ rest' e.
      Ensures-bind _ _ λ ms _. Ensures-bind _ _ λ u params.
        let same : rest' ≡ rest = cc in
        Ensures-const _ (params_of _ query ms u (rw same queried) params)

  -- Where a text that begins with `bitcoin:` parses, each parameter of its query whose key begins
  -- with `req-`, in any case, is one of those that are handled, and a required proof of payment is
  -- there only if such callbacks are supported.
  pub parse_resolved_instructions-IsUnderstood :
      (hrn : Option x.HumanReadableName) (proof : Option Bytes) (s rest query : Bytes)
      (i : PaymentInstructions x)
      → has_prefix {E = ParseError x} s (codes "bitcoin:") ≡ done true
      → slice_from {E = ParseError x} s 8 ≡ done rest
      → (split_once rest b'?').1 ≡ some query
      → parse_resolved_instructions x network supports_pops hrn proof s ≡ done i
      → All IsUnderstood (split b'&' query)
  unfolding parse_resolved_instructions ◌>>=◌
  parse_resolved_instructions-IsUnderstood hrn proof s rest query i bitcoin sliced queried e =
      Ensures-at (parse_bitcoin_uri-IsUnderstood hrn proof s rest query sliced queried)
        (rw bitcoin at e)
