-- ===== src/Instructions/Check.antt =====
-- The end of the `bitcoin:` branch of `parse_resolved_instructions`: the amounts of the methods must
-- agree. The loop's variables are a record, and one round is a function.
pub mod Agree
use Prim.Native.String.{String}
use libbtcwallet.Base.{
  ℕ, Bool, true, false, not, ◌&&◌, ◌||◌, Option, none, some, List, [], ◌∷◌, ltb, ◌==◌,
  if◌then◌else◌, Outcome, done, ◌>>=◌, ◌>>◌, reject_if,
}
use libbtcwallet.Amount.{Amount, max_msats, msats, saturating_sub}
use libbtcwallet.Instructions.External.{Externals}
use libbtcwallet.Instructions.{
  PaymentMethod, on_chain, ParseError, amount, invalid_instructions, inconsistent_instructions,
  max_amount_difference,
}

pub record AmountState : Type 0 where
  pub min_amt_msat : ℕ
  pub max_amt_msat : ℕ
  pub ln_amt_msat : Option ℕ
  pub have_amountless_method : Bool

abbrev pub start : AmountState
start = record {
  min_amt_msat = max_msats;
  max_amt_msat = 0;
  ln_amt_msat = none;
  have_amountless_method = false;
}

abbrev too_large : String
too_large =
    "Had a payment method in a BIP 321 bitcoin: URI which requested more than 21 million BTC"

abbrev ln_differ : String
ln_differ = "Had multiple different amounts in lightning payment methods in a BIP 321 bitcoin: URI"

abbrev some_without : String
some_without =
    "Had some payment methods in a BIP 321 bitcoin: URI with required amounts, some without"

-- `if amt_msat < min_amt_msat { … } if amt_msat > max_amt_msat { … }`
abbrev pub widen : AmountState → ℕ → AmountState
widen s a = record s {
  min_amt_msat = if ltb a s.min_amt_msat then a else s.min_amt_msat;
  max_amt_msat = if ltb s.max_amt_msat a then a else s.max_amt_msat;
}

abbrev differs : Option ℕ → ℕ → Bool
differs none a = false
differs (some ln) a = not (ln == a)

module _ (x : Externals) where
  -- the inner `match method`
  unfoldable pub check_lightning :
      PaymentMethod x → ℕ → AmountState → Outcome (ParseError x) AmountState
  check_lightning (on_chain _ _) a s = done s
  check_lightning _ a s = do
    reject_if (differs s.ln_amt_msat a) (inconsistent_instructions ln_differ)
    done (record s { ln_amt_msat = some a })

  unfoldable pub check_amount :
      PaymentMethod x → Option Amount → AmountState → Outcome (ParseError x) AmountState
  unfolding check_lightning msats
  check_amount m none s = done (record s { have_amountless_method = true })
  check_amount m (some amt) s = do
    reject_if (ltb max_msats (msats amt)) (invalid_instructions too_large)
    check_lightning m (msats amt) (widen s (msats amt))

  unfoldable pub check_loop :
      List (PaymentMethod x) → AmountState → Outcome (ParseError x) AmountState
  check_loop [] s = done s
  check_loop (m ∷ ms) s = do s' ← check_amount m (amount m) s; check_loop ms s'

  unfoldable pub check_range : AmountState → Outcome (ParseError x) (Unit {0})
  unfolding saturating_sub msats
  check_range s = do
    reject_if
        ((not (s.min_amt_msat == max_msats) || not (s.max_amt_msat == 0))
          && s.have_amountless_method)
        (inconsistent_instructions some_without)
    reject_if (ltb (msats max_amount_difference) (saturating_sub s.max_amt_msat s.min_amt_msat))
        (inconsistent_instructions "Payment methods differed in ")

  unfoldable pub check_amounts : List (PaymentMethod x) → Outcome (ParseError x) (Unit {0})
  unfolding check_loop check_range
  check_amounts methods = do s ← check_loop methods start; check_range s
