-- ===== src/Wallet/Info.antt =====
-- `PaymentInfo::set_amount` (libbtcwallet/src/lib.rs): instructions with the amount to pay.
pub mod Close
use libbtcwallet.Base.{
  refl, inr, inl, Bool-cases, ◌≡◌, ◌⊎◌, ◌↔◌, arith, Bool, false, not, ◌&&◌, ◌||◌, Option, none,
  some, is_some, ◌==◌, if◌then◌else◌, Result, ok, err,
}
use libbtcwallet.Amount.{Amount}
use libbtcwallet.Instructions.External.{Externals}
use libbtcwallet.Instructions.{
  PaymentInstructions, amount, ln_payment_amount, onchain_payment_amount,
}

pub record PaymentInfo (x : Externals) : Type 0 where
  pub instructions : PaymentInstructions x
  pub amount : Amount

-- `o.is_some() && o.unwrap() == amount`
abbrev asks_for : Option Amount → Amount → Bool
asks_for none amount = false
asks_for (some a) amount = a == amount

module _ {x : Externals} where
  unfoldable pub set_amount : PaymentInstructions x → Amount → Result (Unit {0}) (PaymentInfo x)
  set_amount instructions amount =
      let ln_amt = ln_payment_amount instructions in
      let onchain_amt = onchain_payment_amount instructions in
      if (is_some ln_amt || is_some onchain_amt)
        && not (asks_for ln_amt amount)
        && not (asks_for onchain_amt amount)
      then err tt
      else ok (record { instructions = instructions; amount = amount })

  -- The amount is set just if it is what the instructions ask for over lightning or on chain, or
  -- they ask for none on either; and then the instructions are kept as they are.
  pub set_amount_iff :
      (i : PaymentInstructions x) (a : Amount)
      → (set_amount i a ≡ ok (record { instructions = i; amount = a })) ↔ (
          (ln_payment_amount i ≡ some a)
          ⊎ ((onchain_payment_amount i ≡ some a)
              ⊎ ((ln_payment_amount i ≡ none) × (onchain_payment_amount i ≡ none))))
  unfolding set_amount
  set_amount_iff i a = (λ h. ground arith, λ h. ground arith)

  pub set_amount_cases :
      (i : PaymentInstructions x) (a : Amount)
      → (set_amount i a ≡ err tt) ⊎ (set_amount i a ≡ ok (record { instructions = i; amount = a }))
  unfolding set_amount
  set_amount_cases i a =
      elim (Bool-cases (
        (is_some (ln_payment_amount i) || is_some (onchain_payment_amount i))
        && not (asks_for (ln_payment_amount i) a)
        && not (asks_for (onchain_payment_amount i) a))) [
          | inl e ↦ inl (rw e refl)
          | inr e ↦ inr (rw e refl)
        ]
