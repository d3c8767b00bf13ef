-- ===== src/Instructions/Capped.antt =====
-- The amounts of a `bitcoin:` URI.
use libbtcwallet.Base.{
  Bool, ◌≡◌, true, Option, none, some, List, [], ◌∷◌, All, Bytes, codes, done, Ensures, on_done,
  Ensures-bind, Ensures-at, ◌>>=◌,
}
use libbtcwallet.Instructions.External.{Externals}
use libbtcwallet.Instructions.{PaymentMethod, PaymentInstructions, ParseError, amount}
use libbtcwallet.Instructions.Uri.{has_prefix}
use libbtcwallet.Instructions.Check.Agree.{Capped, check_amounts-Capped}
use libbtcwallet.Instructions.Parse.{
  parse_body, parse_params, parse_bitcoin_uri, parse_resolved_instructions,
}

module _ (x : Externals) (network : x.Network) (supports_pops : Bool) where
  -- Each method asks for no amount, or for at most 21 million bitcoin.
  abbrev pub AllCapped : List (PaymentMethod x) → Type 0
  AllCapped = All (λ m. Capped (amount m))

  parse_body-AllCapped :
      (body : Bytes) → Ensures AllCapped (parse_body x network supports_pops body)
  unfolding parse_body amount
  parse_body-AllCapped [] = on_done tt
  parse_body-AllCapped (b ∷ body) = Ensures-bind _ _ λ address _. on_done (tt, tt)

  parse_params-AllCapped :
      (params : Option Bytes) (ms : List (PaymentMethod x))
      → AllCapped ms
      → Ensures (λ u. AllCapped u.methods) (parse_params x network supports_pops params ms)
  unfolding parse_params
  parse_params-AllCapped none ms capped = on_done capped
  parse_params-AllCapped (some query) ms capped = Ensures-bind _ _ λ s _. Ensures-bind _ _ λ m _.
      Ensures-bind _ _
        λ _ _. Ensures-bind _ _ λ _ checked. on_done (check_amounts-Capped x _ checked)

  module _ (hrn : Option x.HumanReadableName) (proof : Option Bytes) where
    parse_bitcoin_uri-AllCapped :
        (s : Bytes)
        → Ensures (λ i. AllCapped i.methods) (parse_bitcoin_uri x network supports_pops hrn proof s)
    unfolding parse_bitcoin_uri
    parse_bitcoin_uri-AllCapped s = Ensures-bind _ _ λ rest _. Ensures-bind _ _ λ ms body.
        Ensures-bind _ _ λ u params. Ensures-bind _ _ λ _ _.
          let capped = Ensures-at (parse_body-AllCapped _) body in
          on_done (Ensures-at (parse_params-AllCapped _ ms capped) params)

    -- Where a text that begins with `bitcoin:` parses, each method asks for no amount or for at most 21
    -- million bitcoin.
    pub parse_resolved_instructions-AllCapped :
        (s : Bytes) (i : PaymentInstructions x)
        → has_prefix {E = ParseError x} s (codes "bitcoin:") ≡ done true
        → parse_resolved_instructions x network supports_pops hrn proof s ≡ done i
        → AllCapped i.methods
    unfolding parse_resolved_instructions ◌>>=◌
    parse_resolved_instructions-AllCapped s i bitcoin e =
        Ensures-at (parse_bitcoin_uri-AllCapped s) (rw bitcoin at e)
