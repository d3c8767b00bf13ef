-- ===== src/Wallet/Tasks/Kept.antt =====
-- What no write to the metadata store breaks, no step of a running wallet breaks.
use libbtcwallet.Base.{
  Ensures-if, panic, on_fail, fail, on_panic, ◌≡◌, refl, Option, none, some, List, [], ◌∷◌, done,
  Result, ok, err, Outcome, Returns-at, Ensures, on_done, Ensures-bind, Ensures-at, ℕ,
}
use libbtcwallet.Amount.{Amount}
use libbtcwallet.Instructions.External.{Externals}
use libbtcwallet.Store.{
  TxType, transfer_to_non_custodial, payment_triggering_transfer_to_non_custodial, payment,
  IdExternals, PaymentId, custodial, lightning, Bytes32, TxMetadata,
}
use libbtcwallet.Store.Kv.{KvStore, Codec}
use libbtcwallet.Store.Metadata.{TxMetadataStore, expect_done}
use libbtcwallet.Wallet.Services.{Services}
use libbtcwallet.Wallet.Custodial
use libbtcwallet.Wallet.Custodial.{Payment}
use libbtcwallet.Wallet.Balance.{Tunables, get_balance_amt}
use libbtcwallet.Wallet.Pay.Recorded.{Writes}
use libbtcwallet.Wallet.Keeps.{Kept, pay-Kept}
use libbtcwallet.Wallet.Polling.{see_known, PollState, see_inbound, see_payments, victim}
use libbtcwallet.Wallet.Rebalance.{assign_fees}
use libbtcwallet.Wallet.Tasks.{
  Task, Begun, stopped, moves, Running, after_pay, charge_round, after_look, round_listed,
  start_round, take_lock, release, TaskStep, outside, pays, polls, locks, looks, wakes, loses,
  assigns, panics, TaskSteps, stay, also,
}

expect_done-Ensures :
    {E F A : Type 0} {P : A → Type 0} (o : Outcome F A)
    → Ensures P o
    → Ensures {E = E} P (expect_done o)
expect_done-Ensures o (on_done h) = on_done h
expect_done-Ensures o on_fail = on_panic
expect_done-Ensures o on_panic = on_panic

module _ {ids : IdExternals} (codec : Codec ids) (kv : KvStore) (writes : Writes kv)
    (P : TxMetadataStore ids kv → Type 0) (kept : Kept codec kv P) where
  eq-Ensures :
      {E A : Type 0} {Q : A → Type 0} (o : Outcome E A) → ((a : A) → o ≡ done a → Q a) → Ensures Q o
  eq-Ensures (done a) h = on_done (h a refl)
  eq-Ensures (fail e) h = on_fail
  eq-Ensures panic h = on_panic

  module _ {x : Externals} (s : Services x ids) where
    assign_fees-Kept :
        (trigger : PaymentId ids) (a : ids.CustodialPaymentId) (b : Bytes32) (w : s.World)
        (m : TxMetadataStore ids kv)
        → P m
        → Ensures (λ r. P r.2) (assign_fees s codec kv trigger a b w m)
    unfolding assign_fees
    assign_fees-Kept trigger a b w m h = Ensures-bind _ _ λ marked e.
        let h₀ =
          Ensures-at (expect_done-Ensures _ (eq-Ensures _ λ m' f. kept.marked m m' trigger f h))
            e in
        Ensures-bind _ _ λ m1 e1.
          let h₁ = kept.inserted marked m1 (custodial a) _ e1 h₀ in
          Ensures-bind _ _ λ m2 e2. on_done (kept.inserted m1 m2 (lightning b) _ e2 h₁)

  see_known-Kept :
      (ty : TxType ids) (time : ℕ) (id : ids.CustodialPaymentId) (st : PollState codec kv)
      → P st.tx_metadata
      → P (see_known codec kv ty time id st).tx_metadata
  unfolding see_known
  see_known-Kept (payment ty) time id st h = h
  see_known-Kept (payment_triggering_transfer_to_non_custodial ty) time id st h = h
  see_known-Kept (transfer_to_non_custodial a b c) time id st h = h

  see_inbound-Kept :
      (now : ℕ) (p : Payment ids) (o : Option (TxMetadata ids)) (st : PollState codec kv)
      → P st.tx_metadata
      → Ensures (λ st'. P st'.tx_metadata) (see_inbound codec kv now p o st)
  unfolding see_inbound
  see_inbound-Kept now p none st h =
      Ensures-bind _ _ λ m e. on_done (kept.inserted st.tx_metadata m (custodial p.id) _ e h)
  see_inbound-Kept now p (some md) st h = on_done (see_known-Kept md.ty md.time p.id st h)

  see_payments-Kept :
      (now : ℕ) (ps : List (Payment ids)) (st : PollState codec kv)
      → P st.tx_metadata
      → Ensures (λ st'. P st'.tx_metadata) (see_payments codec kv now ps st)
  unfolding see_payments
  see_payments-Kept now [] st h = on_done h
  see_payments-Kept now (p ∷ ps) st h = Ensures-bind _ _ λ st' e.
      see_payments-Kept now ps st'
        (Ensures-at (Ensures-if p.outbound (on_done h) (see_inbound-Kept now p _ st h)) e)

  module _ {x : Externals} (s : Services x ids) (tunables : Tunables) where
    abbrev KeptIn : Running s codec kv tunables → Type 0
    KeptIn r = P r.tx_metadata

    charge_round-Kept :
        (o : Option ids.CustodialPaymentId) (r : Running s codec kv tunables)
        → KeptIn r
        → KeptIn (charge_round s codec kv tunables o r)
    unfolding charge_round
    charge_round-Kept none r h = h
    charge_round-Kept (some c) r h = h

    after_look-Kept :
        (o : Option Amount) (st : PollState codec kv) (r : Running s codec kv tunables)
        → P st.tx_metadata
        → KeptIn (after_look s codec kv tunables o st r)
    unfolding after_look
    after_look-Kept none st r h = h
    after_look-Kept (some a) st r h = charge_round-Kept (victim codec kv st) _ h

    round_listed-Kept :
        (l : Result s.CustodialError (List (Payment ids)) × s.World)
        (r : Running s codec kv tunables)
        → KeptIn r
        → Ensures KeptIn (round_listed s codec kv tunables l r)
    unfolding round_listed
    round_listed-Kept (err e, w) r h = on_done h
    round_listed-Kept (ok ps, w) r h = Ensures-bind _ _ λ st e. on_done (
        after_look-Kept (get_balance_amt s tunables w) st _
          (Ensures-at (see_payments-Kept (s.now w) ps _ h) e))

    take_lock-Kept :
        (t : Task ids) (others : List (Task ids)) (b : Begun ids × s.World)
        (r : Running s codec kv tunables)
        → KeptIn r
        → KeptIn (take_lock s codec kv tunables t others b r)
    unfolding take_lock
    take_lock-Kept t others (stopped e, w) r h = h
    take_lock-Kept t others (moves id hash, w) r h = h

    step-Kept :
        {r r' : Running s codec kv tunables}
        → TaskStep s codec kv tunables r r'
        → KeptIn r
        → KeptIn r'
    unfolding start_round after_pay release
    step-Kept (outside w) h = h
    step-Kept {r = r} (pays info a st e) h =
        Returns-at (pay-Kept codec kv writes P kept s info r.world r.tx_metadata) e h
    step-Kept {r = r} (polls asleep e) h =
        Ensures-at (round_listed-Kept (Custodial.list_payments s r.world) r h) e
    step-Kept {r = r} (locks before after t q free) h = take_lock-Kept t _ _ r h
    step-Kept (looks before after t q k f) h = h
    step-Kept (wakes before after t q k) h = h
    step-Kept (loses before after t q k f) h = h
    step-Kept {r = r} (assigns before after t l e w m q k f g) h =
        Ensures-at (assign_fees-Kept s t.task.trigger t.rebalance_id l r.world r.tx_metadata h) g
    step-Kept (panics before after t l q k f g) h = h

    pub steps-Kept :
        {r r' : Running s codec kv tunables}
        → TaskSteps s codec kv tunables r r'
        → KeptIn r
        → KeptIn r'
    steps-Kept stay h = h
    steps-Kept (also rs t) h = step-Kept t (steps-Kept rs h)
