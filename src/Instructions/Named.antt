-- ===== src/Instructions/Named.antt =====
-- Instructions that a name stands for keep the name and its proof.
use libbtcwallet.Base.{
  Bool, ◌≡◌, refl, Option, Bytes, Ensures, Ensures-if_ok, on_done, on_fail, Ensures-bind,
  Ensures-if,
}
use libbtcwallet.Instructions.External.{Externals}
use libbtcwallet.Instructions.{PaymentInstructions}
use libbtcwallet.Instructions.Parse.{
  parse_bitcoin_uri, of_invoice, parse_lightning_uri, parse_bare, parse_resolved_instructions,
}

module _ (x : Externals) (network : x.Network) (supports_pops : Bool)
    (hrn : Option x.HumanReadableName) (proof : Option Bytes) where
  abbrev pub IsNamed : PaymentInstructions x → Type 0
  IsNamed i = (i.hrn ≡ hrn) × (i.hrn_proof ≡ proof)

  of_invoice-IsNamed :
      (invoice : x.Bolt11Invoice)
      → Ensures IsNamed (of_invoice x network supports_pops hrn proof invoice)
  unfolding of_invoice
  of_invoice-IsNamed invoice = Ensures-bind _ _ λ _ _. on_done (refl, refl)

  parse_bitcoin_uri-IsNamed :
      (s : Bytes) → Ensures IsNamed (parse_bitcoin_uri x network supports_pops hrn proof s)
  unfolding parse_bitcoin_uri
  parse_bitcoin_uri-IsNamed s = Ensures-bind _ _ λ _ _.
      Ensures-bind _ _ λ _ _. Ensures-bind _ _ λ _ _. Ensures-bind _ _ λ _ _. on_done (refl, refl)

  parse_bare-IsNamed :
      (s : Bytes) → Ensures IsNamed (parse_bare x network supports_pops hrn proof s)
  unfolding parse_bare
  parse_bare-IsNamed s =
      Ensures-if_ok (x.address_from_str s) _ _ (λ _ _. Ensures-bind _ _ λ _ _. on_done (refl, refl))
        (Ensures-if_ok (x.invoice_from_str s) _ _ (λ invoice _. of_invoice-IsNamed invoice)
          (Ensures-if_ok (x.offer_from_str s) _ _
            (λ _ _. Ensures-bind _ _ λ _ _. on_done (refl, refl)) on_fail))

  pub parse_resolved_instructions-IsNamed :
      (s : Bytes)
      → Ensures IsNamed (parse_resolved_instructions x network supports_pops hrn proof s)
  unfolding parse_resolved_instructions parse_lightning_uri
  parse_resolved_instructions-IsNamed s = Ensures-bind _ _ λ bitcoin _.
      Ensures-if bitcoin (parse_bitcoin_uri-IsNamed s) (
        Ensures-bind _ _ λ lightning _.
          Ensures-if lightning
            (Ensures-bind _ _ λ _ _. Ensures-bind _ _ λ invoice _. of_invoice-IsNamed invoice)
            (parse_bare-IsNamed s))
