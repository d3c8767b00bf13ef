-- ===== src/Instructions/Check/Agree.antt =====
-- The amounts of methods that pass the check agree.
use libbtcwallet.Base.{
  ℕ, ◌+◌, ◌≤◌, ◌≡◌, refl, arith, Bool, true, false, Option, none, some, List, [], ◌∷◌, All, All-map,
  ◌⊎◌, inl, inr, done, >>=-eq-done, ◌>>=◌,
}
use libbtcwallet.Amount.{Amount, max_msats}
use libbtcwallet.Instructions.External.{Externals}
use libbtcwallet.Instructions.{
  PaymentMethod, lightning_bolt11, lightning_bolt12, on_chain, amount, is_on_chain,
  max_amount_difference,
}
use libbtcwallet.Instructions.Check.{
  AmountState, start, check_amount, check_loop, check_range, check_amounts,
}

-- What the variables say of a method that the loop has seen.
abbrev Seen : AmountState → Bool → Option Amount → Type 0
Seen t oc none = t.have_amountless_method ≡ true
Seen t oc (some a) =
    (t.min_amt_msat ≤ a)
    × (a ≤ t.max_amt_msat)
    × (a ≤ max_msats)
    × (oc ≡ false → t.ln_amt_msat ≡ some a)

-- What a round keeps of what the rounds before it found.
record Grows (s t : AmountState) : Type 0 where
  lower : t.min_amt_msat ≤ s.min_amt_msat
  upper : s.max_amt_msat ≤ t.max_amt_msat
  amountless : s.have_amountless_method ≡ true → t.have_amountless_method ≡ true
  ln : (v : ℕ) → s.ln_amt_msat ≡ some v → t.ln_amt_msat ≡ some v

Seen-Grows :
    (s t : AmountState) (oc : Bool) (o : Option Amount) → Grows s t → Seen s oc o → Seen t oc o
Seen-Grows s t oc none g h = g.amountless h
Seen-Grows s t oc (some a) g (lo, hi, cap, ln) =
    (omega (arith, g.lower), omega (arith, g.upper), cap, λ e. g.ln a (ln e))

Grows-trans : (s t u : AmountState) → Grows s t → Grows t u → Grows s u
Grows-trans s t u g h = record {
  lower = omega (arith, g.lower, h.lower);
  upper = omega (arith, g.upper, h.upper);
  amountless = λ e. h.amountless (g.amountless e);
  ln = λ v e. h.ln v (g.ln v e);
}

module _ (x : Externals) where
  round :
      (m : PaymentMethod x) (o : Option Amount) (s t : AmountState)
      → check_amount x m o s ≡ done t
      → Grows s t × Seen t (is_on_chain m) o
  unfolding check_amount ◌>>=◌
  round m none s t h = (
    record {
      lower = ground arith;
      upper = ground arith;
      amountless = λ e. ground arith;
      ln = λ v e. ground arith;
    },
    ground arith,
  )
  round (lightning_bolt11 i) (some a) s t h = (
    record {
      lower = ground arith;
      upper = ground arith;
      amountless = λ e. ground arith;
      ln = λ v e. ground arith;
    },
    (ground arith, ground arith, ground arith, λ e. ground arith),
  )
  round (lightning_bolt12 i) (some a) s t h = (
    record {
      lower = ground arith;
      upper = ground arith;
      amountless = λ e. ground arith;
      ln = λ v e. ground arith;
    },
    (ground arith, ground arith, ground arith, λ e. ground arith),
  )
  round (on_chain o i) (some a) s t h = (
    record {
      lower = ground arith;
      upper = ground arith;
      amountless = λ e. ground arith;
      ln = λ v e. ground arith;
    },
    (ground arith, ground arith, ground arith, λ e. ground arith),
  )

  loop :
      (ms : List (PaymentMethod x)) (s t : AmountState)
      → check_loop x ms s ≡ done t
      → Grows s t × All (λ m. Seen t (is_on_chain m) (amount m)) ms
  unfolding check_loop
  loop [] s t h = (
    record { lower = ground arith; upper = ground arith; amountless = λ e. cc; ln = λ v e. cc },
    tt,
  )
  loop (m ∷ ms) s t h =
      let (u, first, then_) = >>=-eq-done (check_amount x m (amount m) s) _ h in
      let (g, seen) = round m (amount m) s u first in
      let (g', rest) = loop ms u t then_ in
      (Grows-trans s u t g g', (Seen-Grows u t (is_on_chain m) (amount m) g' seen, rest))

-- Either no method asks for an amount, or all do, within 100 satoshis of each other, and those paid
-- over lightning for the same.
abbrev pub Agree : {x : Externals} → List (PaymentMethod x) → Type 0
Agree ms =
    All (λ m. amount m ≡ none) ms
    ⊎ ((lo : ℕ) × (hi : ℕ) × (ln : Option ℕ) × (hi ≤ lo + max_amount_difference)
        × All
            (λ m.
              (a : ℕ) × (amount m ≡ some a)
              × (lo ≤ a)
              × (a ≤ hi)
              × (is_on_chain m ≡ false → ln ≡ some a))
            ms)

-- With a method that asks for no amount in sight, no method has asked for one.
none-Seen :
    (t : AmountState) (oc : Bool) (o : Option Amount)
    → t.min_amt_msat ≡ max_msats
    → t.max_amt_msat ≡ 0
    → Seen t oc o
    → o ≡ none
none-Seen t oc none lo hi h = refl
none-Seen t oc (some a) lo hi h = absurd (omega arith)

some-Seen :
    (t : AmountState) (oc : Bool) (o : Option Amount)
    → t.have_amountless_method ≡ false
    → Seen t oc o
    → (a : ℕ) × (o ≡ some a)
      × (t.min_amt_msat ≤ a)
      × (a ≤ t.max_amt_msat)
      × (oc ≡ false → t.ln_amt_msat ≡ some a)
some-Seen t oc none e h = cc
some-Seen t oc (some a) e (lo, hi, cap, ln) = (a, refl, lo, hi, ln)

range_cases :
    (x : Externals) (t : AmountState)
    → check_range x t ≡ done tt
    → (t.max_amt_msat ≤ t.min_amt_msat + max_amount_difference)
      × ((t.have_amountless_method ≡ false) ⊎ ((t.min_amt_msat ≡ max_msats) × (t.max_amt_msat ≡ 0)))
unfolding check_range ◌>>=◌
range_cases x t h = ground arith

pub check_amounts-Agree :
    (x : Externals) (ms : List (PaymentMethod x)) → check_amounts x ms ≡ done tt → Agree ms
unfolding check_amounts
check_amounts-Agree x ms h =
    let (t, looped, ranged) = >>=-eq-done (check_loop x ms start) _ h in
    let (g, seen) = loop x ms start t looped in
    let (range, cases) = range_cases x t ranged in
    elim cases [
      | inl none_without ↦ inr (
        t.min_amt_msat,
        t.max_amt_msat,
        t.ln_amt_msat,
        range,
        All-map (λ m k. some-Seen t (is_on_chain m) (amount m) none_without k) ms seen,
      )
      | inr (lo, hi) ↦ inl (All-map (λ m k. none-Seen t (is_on_chain m) (amount m) lo hi k) ms seen)
    ]

-- The amount is at most 21 million bitcoin, or there is none.
abbrev pub Capped : Option Amount → Type 0
Capped none = Unit
Capped (some a) = a ≤ max_msats

Capped-Seen : (t : AmountState) (oc : Bool) (o : Option Amount) → Seen t oc o → Capped o
Capped-Seen t oc none h = tt
Capped-Seen t oc (some a) (_, _, cap, _) = cap

pub check_amounts-Capped :
    (x : Externals) (ms : List (PaymentMethod x))
    → check_amounts x ms ≡ done tt
    → All (λ m. Capped (amount m)) ms
unfolding check_amounts
check_amounts-Capped x ms h =
    let (t, looped, _) = >>=-eq-done (check_loop x ms start) _ h in
    All-map (λ m k. Capped-Seen t (is_on_chain m) (amount m) k) ms (loop x ms start t looped).1
