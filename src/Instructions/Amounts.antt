-- ===== src/Instructions/Amounts.antt =====
-- What `max_amount`, `ln_payment_amount` and `onchain_payment_amount` return, over any methods.
use libbtcwallet.Base.{
  ◌≤◌, ◌≡◌, refl, arith, true, false, Option, none, some, List, [], ◌∷◌, All, All-map, ◌⊎◌, inl,
  inr, Bool-cases, ◌∙◌, sym,
}
use libbtcwallet.Amount.{Amount}
use libbtcwallet.Instructions.External.{Externals}
use libbtcwallet.Instructions.{
  PaymentMethod, PaymentInstructions, amount, larger, max_loop, max_amount, is_on_chain,
  first_lightning, first_on_chain,
}

-- An amount is asked for and is at most `hi`, or none is asked for.
abbrev pub AtMost : Option Amount → Option Amount → Type 0
AtMost hi none = Unit
AtMost none (some a) = ⊥
AtMost (some hi) (some a) = a ≤ hi

AtMost-trans : (a b c : Option Amount) → AtMost b a → AtMost c b → AtMost c a
AtMost-trans none b c h k = tt
AtMost-trans (some a) none c h k = absurd h
AtMost-trans (some a) (some b) none h k = absurd k
AtMost-trans (some a) (some b) (some c) h k = omega arith

AtMost-refl : (a : Option Amount) → AtMost a a
AtMost-refl none = tt
AtMost-refl (some a) = omega arith

larger-AtMost : (a b : Option Amount) → AtMost (larger a b) a × AtMost (larger a b) b
unfolding larger
larger-AtMost a none = (AtMost-refl a, tt)
larger-AtMost none (some b) = (tt, omega arith)
larger-AtMost (some a) (some b) = ground arith

larger_least : (a b hi : Option Amount) → AtMost hi a → AtMost hi b → AtMost hi (larger a b)
unfolding larger
larger_least a none hi h k = h
larger_least none (some b) hi h k = k
larger_least (some a) (some b) none h k = absurd h
larger_least (some a) (some b) (some hi) h k = ground arith

module _ {x : Externals} where
  max_loop-AtMost :
      (ms : List (PaymentMethod x)) (acc : Option Amount)
      → AtMost (max_loop ms acc) acc × All (λ m. AtMost (max_loop ms acc) (amount m)) ms
  unfolding max_loop
  max_loop-AtMost [] acc = (AtMost-refl acc, tt)
  max_loop-AtMost (m ∷ ms) acc =
      let (h, rest) = max_loop-AtMost ms (larger acc (amount m)) in
      let (old, new) = larger-AtMost acc (amount m) in
      (AtMost-trans acc _ _ old h, (AtMost-trans (amount m) _ _ new h, rest))

  max_loop_least :
      (ms : List (PaymentMethod x)) (acc hi : Option Amount)
      → AtMost hi acc
      → All (λ m. AtMost hi (amount m)) ms
      → AtMost hi (max_loop ms acc)
  unfolding max_loop
  max_loop_least [] acc hi h _ = h
  max_loop_least (m ∷ ms) acc hi h (hm, hs) =
      max_loop_least ms (larger acc (amount m)) hi (larger_least acc (amount m) hi h hm) hs

  -- `max_amount` is the least bound of the amounts that the methods ask for, and is `None` just if
  -- no method asks for one.
  pub max_amount_least :
      (i : PaymentInstructions x)
      → All (λ m. AtMost (max_amount i) (amount m)) i.methods
        × ((hi : Option Amount)
            → All (λ m. AtMost hi (amount m)) i.methods
            → AtMost hi (max_amount i))
  unfolding max_amount
  max_amount_least i =
      ((max_loop-AtMost i.methods none).1, λ hi h. max_loop_least i.methods none hi tt h)

  -- The first method of a kind has the amount that all of the kind have, if there is one.
  first_lightning-cases :
      (ms : List (PaymentMethod x)) (ln : Option Amount)
      → All (λ m. is_on_chain m ≡ false → amount m ≡ ln) ms
      → (first_lightning ms ≡ ln) ⊎ All (λ m. is_on_chain m ≡ true) ms
  unfolding first_lightning
  first_lightning-cases [] ln h = inr tt
  first_lightning-cases (m ∷ ms) ln (hm, hs) = elim (Bool-cases (is_on_chain m)) [
    | inl e ↦ rw e (elim (first_lightning-cases ms ln hs) [
      | inl same ↦ inl same
      | inr others ↦ inr (refl, others)
    ])
    | inr e ↦ inl (rw e (hm e))
  ]

  first_on_chain-cases :
      (ms : List (PaymentMethod x)) (oc : Option Amount)
      → All (λ m. is_on_chain m ≡ true → amount m ≡ oc) ms
      → (first_on_chain ms ≡ oc) ⊎ All (λ m. is_on_chain m ≡ false) ms
  unfolding first_on_chain
  first_on_chain-cases [] oc h = inr tt
  first_on_chain-cases (m ∷ ms) oc (hm, hs) = elim (Bool-cases (is_on_chain m)) [
    | inl e ↦ inl (rw e (hm e))
    | inr e ↦ rw e (elim (first_on_chain-cases ms oc hs) [
      | inl same ↦ inl same
      | inr others ↦ inr (refl, others)
    ])
  ]

  pub first_lightning_lem :
      (ms : List (PaymentMethod x)) (ln : Option Amount)
      → All (λ m. is_on_chain m ≡ false → amount m ≡ ln) ms
      → All (λ m. is_on_chain m ≡ false → amount m ≡ first_lightning ms) ms
  first_lightning_lem ms ln h = elim (first_lightning-cases ms ln h) [
    | inl same ↦ All-map (λ m k e. k e ∙ sym same) ms h
    | inr others ↦ All-map (λ m k e. cc) ms others
  ]

  pub first_on_chain_lem :
      (ms : List (PaymentMethod x)) (oc : Option Amount)
      → All (λ m. is_on_chain m ≡ true → amount m ≡ oc) ms
      → All (λ m. is_on_chain m ≡ true → amount m ≡ first_on_chain ms) ms
  first_on_chain_lem ms oc h = elim (first_on_chain-cases ms oc h) [
    | inl same ↦ All-map (λ m k e. k e ∙ sym same) ms h
    | inr others ↦ All-map (λ m k e. cc) ms others
  ]

-- What all amounts have, the first amount of a kind has, if there is one.
module _ {x : Externals} (P : Option Amount → Type 0) where
  pub first_lightning-All :
      (ms : List (PaymentMethod x))
      → All (λ m. P (amount m)) ms
      → (first_lightning ms ≡ none) ⊎ P (first_lightning ms)
  unfolding first_lightning
  first_lightning-All [] h = inl refl
  first_lightning-All (m ∷ ms) (h, hs) = elim (Bool-cases (is_on_chain m)) [
    | inl e ↦ rw e (first_lightning-All ms hs)
    | inr e ↦ rw e (inr h)
  ]

  pub first_on_chain-All :
      (ms : List (PaymentMethod x))
      → All (λ m. P (amount m)) ms
      → (first_on_chain ms ≡ none) ⊎ P (first_on_chain ms)
  unfolding first_on_chain
  first_on_chain-All [] h = inl refl
  first_on_chain-All (m ∷ ms) (h, hs) = elim (Bool-cases (is_on_chain m)) [
    | inl e ↦ rw e (inr h)
    | inr e ↦ rw e (first_on_chain-All ms hs)
  ]
