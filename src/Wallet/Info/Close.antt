-- ===== src/Wallet/Info/Close.antt =====
-- The amount that is set, and what the methods of parsed instructions ask for.
use libbtcwallet.Base.{
  ◌+◌, ◌≤◌, ◌≡◌, ◌⊎◌, inl, inr, arith, ◌∙◌, Bool, true, false, Option, none, some, All, All-map,
  All-zip, Bytes, ok, done, Bool-cases,
}
use libbtcwallet.Amount.{Amount}
use libbtcwallet.Instructions.External.{Externals, HrnResolver}
use libbtcwallet.Instructions.{
  PaymentMethod, PaymentInstructions, amount, is_on_chain, max_amount, max_amount_difference,
  ln_payment_amount, onchain_payment_amount,
}
use libbtcwallet.Instructions.Parse.{parse_payment_instructions}
use libbtcwallet.Instructions.Amounts.{first_lightning-All, first_on_chain-All}
use libbtcwallet.Instructions.Consistent.{Near, IsConsistent}
use libbtcwallet.Instructions.Consistent.Parsed.{parse_payment_instructions-IsConsistent}
use libbtcwallet.Wallet.Info.{set_amount, set_amount_iff}

-- No more than 100 satoshis apart.
abbrev pub IsClose : Amount → Option Amount → Type 0
IsClose a none = Unit
IsClose a (some b) = (a ≤ b + max_amount_difference) × (b ≤ a + max_amount_difference)

Near-IsClose : (hi o : Option Amount) (a : Amount) → Near hi (some a) → Near hi o → IsClose a o
Near-IsClose none o a h k = cc
Near-IsClose (some hi) none a h k = tt
Near-IsClose (some hi) (some b) a (a', ea, la, ha) (b', eb, lb, hb) =
    let e : a ≡ a' = ground arith in let f : b ≡ b' = ground arith in (omega arith, omega arith)

asked-Near :
    (hi o : Option Amount) (a : Amount) → o ≡ some a → (o ≡ none) ⊎ Near hi o → Near hi (some a)
asked-Near hi o a e (inl f) = cc
asked-Near hi o a e (inr h) = rw (← e) h

amountless :
    {x : Externals} (m : PaymentMethod x) {ln oc : Option Amount}
    → (is_on_chain m ≡ false → amount m ≡ ln)
    → (is_on_chain m ≡ true → amount m ≡ oc)
    → ln ≡ none
    → oc ≡ none
    → amount m ≡ none
amountless m h k e f = elim (Bool-cases (is_on_chain m)) [ inl b ↦ k b ∙ f | inr b ↦ h b ∙ e ]

asks_none : (o : Option Amount) (a : Amount) → o ≡ none → IsClose a o
asks_none none a e = tt
asks_none (some b) a e = cc

IsConsistent-IsClose :
    {x : Externals} (i : PaymentInstructions x) (a : Amount)
    → IsConsistent i
    → ln_payment_amount i ≡ none
    → onchain_payment_amount i ≡ none
    → All (λ m. IsClose a (amount m)) i.methods
IsConsistent-IsClose i a c e f =
    All-map (λ m (ln, oc). asks_none (amount m) a (amountless m ln oc e f)) i.methods
      (All-zip _ _ i.methods c.lightning c.onchain)

-- Where an amount can be set for instructions that were parsed, it is at most 100 satoshis from every
-- amount that one of their methods asks for.
pub set_amount-IsClose :
    (x : Externals) (network : x.Network) (supports_pops : Bool) (resolver : HrnResolver x)
    (s : Bytes) (i : PaymentInstructions x) (a : Amount)
    → parse_payment_instructions x network supports_pops resolver s ≡ done i
    → set_amount i a ≡ ok (record { instructions = i; amount = a })
    → All (λ m. IsClose a (amount m)) i.methods
unfolding ln_payment_amount onchain_payment_amount
set_amount-IsClose x network supports_pops resolver s i a parsed set =
    let c = parse_payment_instructions-IsConsistent x network supports_pops resolver s i parsed in
    let close = λ (h : Near (max_amount i) (some a)).
      All-map (λ m k. Near-IsClose (max_amount i) (amount m) a h k) i.methods c.near in
    elim ((set_amount_iff i a).0 set) [
      | inl e ↦ close (
          asked-Near (max_amount i) _ a e
            (first_lightning-All (Near (max_amount i)) i.methods c.near))
      | inr (inl e) ↦ close (
          asked-Near (max_amount i) _ a e
            (first_on_chain-All (Near (max_amount i)) i.methods c.near))
      | inr (inr (e, f)) ↦ IsConsistent-IsClose i a c e f
    ]
