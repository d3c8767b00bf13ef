-- ===== src/Instructions/Consistent.antt =====
-- What holds of all instructions that a parse returns.
pub mod Parsed
use libbtcwallet.Base.{
  ◌+◌, ◌≤◌, ◌≡◌, ◌≢◌, ◌∙◌, sym, refl, arith, true, false, Option, none, some, List, [], ◌∷◌, All,
  All-map, All-zip, inl, inr,
}
use libbtcwallet.Amount.{Amount}
use libbtcwallet.Instructions.External.{Externals}
use libbtcwallet.Instructions.{
  PaymentMethod, PaymentInstructions, lightning_bolt11, lightning_bolt12, on_chain, amount,
  is_on_chain, max_amount_difference, max_amount, ln_payment_amount, onchain_payment_amount,
}
use libbtcwallet.Instructions.Amounts.{
  AtMost, max_amount_least, first_lightning_lem, first_on_chain_lem,
}
use libbtcwallet.Instructions.Check.Agree.{Agree}
use libbtcwallet.Instructions.Uri.Unpriced.{OnChainAsk}
use libbtcwallet.Instructions.Parse.{apply_amount}

-- At most 100 satoshis below the largest amount, and no amount where that is not one.
abbrev pub Near : Option Amount → Option Amount → Type 0
Near none o = o ≡ none
Near (some hi) o = (a : Amount) × (o ≡ some a) × (a ≤ hi) × (hi ≤ a + max_amount_difference)

-- Methods of one kind ask for one amount, which the accessor of the kind returns, and no two
-- methods are more than 100 satoshis apart.
pub record IsConsistent {x : Externals} (i : PaymentInstructions x) : Type 0 where
  pub payable : i.methods ≢ []
  pub near : All (λ m. Near (max_amount i) (amount m)) i.methods
  pub lightning : All (λ m. is_on_chain m ≡ false → amount m ≡ ln_payment_amount i) i.methods
  pub onchain : All (λ m. is_on_chain m ≡ true → amount m ≡ onchain_payment_amount i) i.methods

Near-none : (m : Option Amount) → AtMost none m → m ≡ none
Near-none none h = refl
Near-none (some a) h = absurd h

Near-some :
    (m o : Option Amount) (lo hi a : Amount)
    → hi ≤ lo + max_amount_difference
    → AtMost (some hi) m
    → AtMost m o
    → o ≡ some a
    → lo ≤ a
    → Near m o
Near-some none none lo hi a d h k e l = cc
Near-some none (some b) lo hi a d h k e l = absurd k
Near-some (some m) none lo hi a d h k e l = cc
Near-some (some m) (some b) lo hi a d h k e l =
    let same : b ≡ a = ground arith in (b, refl, k, omega arith)

module _ {x : Externals} where
  pub Agree-IsConsistent :
      (i : PaymentInstructions x) (oc : Option Amount)
      → i.methods ≢ []
      → OnChainAsk oc i.methods
      → Agree i.methods
      → IsConsistent i
  unfolding ln_payment_amount onchain_payment_amount
  Agree-IsConsistent i oc payable asks agree =
      let (bound, least) = max_amount_least i in
      elim agree [
        | inl nothing ↦
            let max : max_amount i ≡ none =
              Near-none (max_amount i) (least none (All-map (λ m e. rw e tt) i.methods nothing)) in
            record {
              payable = payable;
              near = rw max nothing;
              lightning =
                  first_lightning_lem i.methods none (All-map (λ m e _. e) i.methods nothing);
              onchain = first_on_chain_lem i.methods oc asks;
            }
        | inr (lo, hi, ln, range, all) ↦
            let below = least (some hi) (All-map (λ m (a, e, l, h, _). rw e h) i.methods all) in
            record {
              payable = payable;
              near =
                  All-map
                    (λ m (k, (a, e, l, _, _)).
                      Near-some (max_amount i) (amount m) lo hi a range below k e l)
                    i.methods (All-zip _ _ i.methods bound all);
              lightning =
                  first_lightning_lem i.methods ln
                    (All-map (λ m (a, e, _, _, l) k. e ∙ sym (l k)) i.methods all);
              onchain = first_on_chain_lem i.methods oc asks;
            }
      ]

  pub apply_amount-OnChainAsk :
      (o : Option Amount) (ms : List (PaymentMethod x))
      → OnChainAsk none ms
      → OnChainAsk o (apply_amount o ms)
  unfolding apply_amount amount
  apply_amount-OnChainAsk none ms h = h
  apply_amount-OnChainAsk (some a) [] h = tt
  apply_amount-OnChainAsk (some a) (lightning_bolt11 i ∷ ms) (h, hs) =
      (λ e. cc, apply_amount-OnChainAsk (some a) ms hs)
  apply_amount-OnChainAsk (some a) (lightning_bolt12 i ∷ ms) (h, hs) =
      (λ e. cc, apply_amount-OnChainAsk (some a) ms hs)
  apply_amount-OnChainAsk (some a) (on_chain o i ∷ ms) (h, hs) =
      (λ e. refl, apply_amount-OnChainAsk (some a) ms hs)
