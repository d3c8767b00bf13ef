-- ===== src/Wallet/Parse.antt =====
-- `Wallet::parse_payment_instructions` (libbtcwallet/src/lib.rs): the parser with the resolver that asks
-- over HTTPS.
use libbtcwallet.Base.{
  err, Result, ℕ, ◌≡◌, true, Option, some, Bytes, Outcome, done, ok, if_some, map_err, >>=-eq-done,
  Ensures-at,
}
use libbtcwallet.Instructions.External.{Externals, HrnResolver, HrnResolution}
use libbtcwallet.Instructions.{PaymentInstructions, ParseError, hrn_resolution_error}
use libbtcwallet.Instructions.Parse
use libbtcwallet.Instructions.Parse.{parse_resolved_instructions}
use libbtcwallet.Instructions.Named.{IsNamed, parse_resolved_instructions-IsNamed}
use libbtcwallet.Resolvers.Http.{DnsExternals, resolve_dns}
use libbtcwallet.Resolvers.Http.Resolved.{Resolved, resolve_dns_iff}

-- `HTTPHrnResolver`, as the parser uses it: what it returns is what `resolve_dns` returns in some
-- state of the network.
pub record HttpHrnResolver {x : Externals} (h : DnsExternals x) (resolver : HrnResolver x)
    : Type 0 where
  pub resolves :
      (hrn : x.HumanReadableName) (r : HrnResolution)
      → resolver.resolve_hrn hrn ≡ ok r
      → (w : h.World) × (w' : h.World) × (fuel : ℕ) × (resolve_dns h fuel w hrn ≡ some (done r, w'))

module _ (x : Externals) (network : x.Network) where
  -- The wallet supports proof of payment callbacks.
  unfoldable pub parse_payment_instructions :
      HrnResolver x → Bytes → Outcome (ParseError x) (PaymentInstructions x)
  parse_payment_instructions resolver instructions =
      Parse.parse_payment_instructions x network true resolver instructions

  map_err_inv :
      {E F A : Type 0} (f : E → F) (r : Result E A) {a : A} → map_err f r ≡ done a → r ≡ ok a
  map_err_inv f (ok a) e = cc
  map_err_inv f (err q) e = cc

  named_lem :
      (hrn : Option x.HumanReadableName) (r : HrnResolution) (i : PaymentInstructions x)
      → parse_resolved_instructions x network true hrn r.proof r.result ≡ done i
      → IsNamed x network true hrn r.proof i
  named_lem hrn r i =
      Ensures-at (parse_resolved_instructions-IsNamed x network true hrn r.proof r.result)

  module _ (h : DnsExternals x) (resolver : HrnResolver x) (http : HttpHrnResolver h resolver) where
    -- Where a name parses, with a resolver that returns what a lookup over HTTPS returns, the
    -- lookup ended with one verified TXT record; the instructions are what its text parses to, and
    -- carry the name and the proof of the lookup.
    pub parse_payment_instructions-Resolved :
        (text : Bytes) (hrn : x.HumanReadableName) (i : PaymentInstructions x)
        → x.hrn_from_encoded text ≡ some hrn
        → parse_payment_instructions resolver text ≡ done i
        → (w : h.World) × (w' : h.World) × (r : HrnResolution) × Resolved h w hrn w' r
          × (parse_resolved_instructions x network true (some hrn) r.proof r.result ≡ done i)
          × (i.hrn ≡ some hrn)
          × (i.hrn_proof ≡ r.proof)
    unfolding parse_payment_instructions Parse.parse_payment_instructions if_some
    parse_payment_instructions-Resolved text hrn i named e =
        let (r, resolved, parsed) =
          >>=-eq-done (map_err hrn_resolution_error (resolver.resolve_hrn hrn)) _ (rw named at e) in
        let (w, w', fuel, lookup) = http.resolves hrn r (map_err_inv _ _ resolved) in
        (
          w,
          w',
          r,
          (resolve_dns_iff h w w' hrn r).0 (fuel, lookup),
          parsed,
          (named_lem (some hrn) r i parsed).0,
          (named_lem (some hrn) r i parsed).1,
        )
