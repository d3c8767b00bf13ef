-- ===== src/Instructions/Consistent/Parsed.antt =====
-- Every text that parses gives consistent instructions.
use libbtcwallet.Base.{
  on_fail, ◌≡◌, ◌≢◌, refl, arith, Bool, Option, none, some, List, [], ◌∷◌, inl, inr, Option-cases,
  Ensures, done, Ensures-if_ok, Ensures-if_some, on_done, Ensures-bind, Ensures-if, Ensures-at,
  Bytes, split, is_empty, reject_if,
}
use mathlib.Core.List.{cons-ne-nil}
use libbtcwallet.Amount.{Amount}
use libbtcwallet.Instructions.External.{Externals, HrnResolver}
use libbtcwallet.Instructions.{
  on_chain, PaymentMethod, PaymentInstructions, amount, lightning_bolt11, lightning_bolt12,
}
use libbtcwallet.Instructions.Check.Agree.{Agree, check_amounts-Agree}
use libbtcwallet.Instructions.Uri.Unpriced.{OnChainAsk, handle_params-Unpriced, bolt11_methods}
use libbtcwallet.Instructions.Consistent.{IsConsistent, Agree-IsConsistent, apply_amount-OnChainAsk}
use libbtcwallet.Instructions.Parse.{
  parse_body, parse_params, parse_bitcoin_uri, of_invoice, parse_lightning_uri, parse_bare,
  parse_resolved_instructions, parse_payment_instructions,
}

-- What the branches know of their methods: they agree, and the on-chain ones ask for one amount.
record Sound {x : Externals} (ms : List (PaymentMethod x)) : Type 0 where
  asked : Option Amount
  asks : OnChainAsk asked ms
  agree : Agree ms

Agree-single : {x : Externals} (m : PaymentMethod x) → Agree (m ∷ [])
Agree-single m = elim (Option-cases (amount m)) [
  | inl e ↦ inl (e, tt)
  | inr (a, e) ↦ inr (a, a, some a, omega arith, ((a, e, omega arith, omega arith, λ _. refl), tt))
]

IsConsistent-single :
    {x : Externals} (i : PaymentInstructions x) (m : PaymentMethod x)
    → i.methods ≡ m ∷ []
    → IsConsistent i
IsConsistent-single i m e =
    Agree-IsConsistent i (amount m) (rw e (cons-ne-nil m [])) (rw e ((λ _. refl), tt))
      (rw e (Agree-single m))

payable_lem :
    {x : Externals} {E : Type 0} (ms : List (PaymentMethod x)) (e : E)
    → reject_if (is_empty ms) e ≡ done tt
    → ms ≢ []
payable_lem [] e h = cc
payable_lem (m ∷ ms) e h = cons-ne-nil m ms

module _ (x : Externals) (network : x.Network) (supports_pops : Bool) where
  parse_body-Sound :
      (body : Bytes)
      → Ensures (λ ms. OnChainAsk none ms × Agree ms) (parse_body x network supports_pops body)
  unfolding parse_body amount
  parse_body-Sound [] = on_done (tt, inl tt)
  parse_body-Sound (b ∷ body) =
      Ensures-bind _ _ λ address _. on_done ((λ _. refl, tt), inl (refl, tt))

  parse_params-Sound :
      (params : Option Bytes) (ms : List (PaymentMethod x))
      → OnChainAsk none ms
      → Agree ms
      → Ensures (λ s. Sound s.methods) (parse_params x network supports_pops params ms)
  unfolding parse_params
  parse_params-Sound none ms asks agree =
      on_done (record { asked = none; asks = asks; agree = agree })
  parse_params-Sound (some text) ms asks agree = Ensures-bind _ _ λ s e. Ensures-bind _ _ λ m _.
      Ensures-bind _ _ λ _ _. Ensures-bind _ _ λ _ checked. on_done (record {
        asked = m.amount;
        asks = apply_amount-OnChainAsk m.amount s.methods (
            Ensures-at (handle_params-Unpriced x network supports_pops (split b'&' text) _ asks) e);
        agree = check_amounts-Agree x _ checked;
      })

  module _ (hrn : Option x.HumanReadableName) (proof : Option Bytes) where
    parse_bitcoin_uri-IsConsistent :
        (s : Bytes) → Ensures IsConsistent (parse_bitcoin_uri x network supports_pops hrn proof s)
    unfolding parse_bitcoin_uri
    parse_bitcoin_uri-IsConsistent s = Ensures-bind _ _ λ rest _. Ensures-bind _ _ λ ms body.
        Ensures-bind _ _ λ u params. Ensures-bind _ _ λ _ nonempty.
          let (asks, agree) = Ensures-at (parse_body-Sound _) body in
          let sound = Ensures-at (parse_params-Sound _ ms asks agree) params in
          on_done (
            Agree-IsConsistent _ sound.asked (payable_lem u.methods _ nonempty) sound.asks
              sound.agree)

    of_invoice-IsConsistent :
        (invoice : x.Bolt11Invoice)
        → Ensures IsConsistent (of_invoice x network supports_pops hrn proof invoice)
    unfolding of_invoice
    of_invoice-IsConsistent invoice = Ensures-bind _ _ λ (description, ms) e. on_done (
        IsConsistent-single _ (lightning_bolt11 invoice)
          (Ensures-at (bolt11_methods x network supports_pops invoice) e))

    parse_bare-IsConsistent :
        (s : Bytes) → Ensures IsConsistent (parse_bare x network supports_pops hrn proof s)
    unfolding parse_bare
    parse_bare-IsConsistent s =
        Ensures-if_ok (x.address_from_str s) _ _
          (λ addr _.
            Ensures-bind _ _
              λ address _. on_done (IsConsistent-single _ (on_chain none address) refl))
          (Ensures-if_ok (x.invoice_from_str s) _ _ (λ invoice _. of_invoice-IsConsistent invoice)
            (Ensures-if_ok (x.offer_from_str s) _ _
              (λ offer _.
                Ensures-bind _ _
                  λ _ _. on_done (IsConsistent-single _ (lightning_bolt12 offer) refl))
              on_fail))

    parse_resolved-IsConsistent :
        (s : Bytes)
        → Ensures IsConsistent (parse_resolved_instructions x network supports_pops hrn proof s)
    unfolding parse_resolved_instructions parse_lightning_uri
    parse_resolved-IsConsistent s = Ensures-bind _ _ λ bitcoin _.
        Ensures-if bitcoin (parse_bitcoin_uri-IsConsistent s) (
          Ensures-bind _ _ λ lightning _.
            Ensures-if lightning
              (Ensures-bind _ _
                λ rest _. Ensures-bind _ _ λ invoice _. of_invoice-IsConsistent invoice)
              (parse_bare-IsConsistent s))

  -- Every text that parses, a resolved name too, gives a method to pay by; its methods ask for
  -- amounts at most 100 satoshis below the largest, or for none; and those of one kind ask for what
  -- the kind's accessor returns.
  pub parse_payment_instructions-IsConsistent :
      (resolver : HrnResolver x) (s : Bytes) (i : PaymentInstructions x)
      → parse_payment_instructions x network supports_pops resolver s ≡ done i
      → IsConsistent i
  unfolding parse_payment_instructions
  parse_payment_instructions-IsConsistent resolver s i h =
      Ensures-at
        (Ensures-if_some (x.hrn_from_encoded s) _ _
          (λ hrn _. Ensures-bind _ _ λ r _. parse_resolved-IsConsistent (some hrn) r.proof r.result)
          (parse_resolved-IsConsistent none none s))
        h
