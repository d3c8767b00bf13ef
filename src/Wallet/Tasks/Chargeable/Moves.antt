-- ===== src/Wallet/Tasks/Chargeable/Moves.antt =====
-- Each step keeps the rebalances chargeable, if payments get ids of their own.
use mathlib.Core.Path.{subst}
use libbtcwallet.Base.{
  Bool, IfSome, ◌+◌, ◌≤◌, ◌≡◌, refl, ap, arith, true, false, Option, none, some, List, ◌∷◌, ◌++◌,
  All, map, Bool-cases, inl, inr, Result, ok, err, Returns-at, Ensures, on_done, Ensures-bind,
}
use libbtcwallet.Amount.{Amount}
use libbtcwallet.Instructions.External.{Externals}
use libbtcwallet.Store.{
  IdExternals, PaymentId, lightning, custodial, same_id, same_id_self, same_id_sound,
}
use libbtcwallet.Store.Kv.{KvStore, Codec}
use libbtcwallet.Wallet.Services.{Services}
use libbtcwallet.Wallet.Custodial.{Payment}
use libbtcwallet.Wallet.Balance.{Tunables, get_balance_amt}
use libbtcwallet.Wallet.Pay.Recorded.{
  Writes, Settled, settled_unpaid, settled_by_custody, settled_by_channels,
}
use libbtcwallet.Wallet.Polling.{PollState, victim}
use libbtcwallet.Wallet.Polling.Victims.{at_start, see_payments-victim}
use libbtcwallet.Wallet.Tasks.{
  Task, Mover, Begun, stopped, moves, Running, spawned_task, charge_round, after_look, round_listed,
  take_lock, awaiting, TaskStep, outside, pays, polls, locks, looks, wakes, loses, assigns, panics,
  TaskSteps, stay, also,
}
use libbtcwallet.Wallet.Tasks.Counts.{
  count, polled, polled_movers, charged_to, movers_charged_to, charged_to-append,
  movers_charged_to-append, foreign, foreign-append, foreign_movers, foreign_movers-append,
  charged_to_custodial, movers_charged_to_custodial,
}
use libbtcwallet.Wallet.Tasks.Chargeable.{
  CanMark, put_self-CanMark, see_payments-CanMark, Settled-CanMark,
}
use libbtcwallet.Wallet.Tasks.Chargeable.Lists.{
  Chargeable, added-Chargeable, fewer-Chargeable, kept-Chargeable,
}

module _ {x : Externals} {ids : IdExternals} (s : Services x ids) (codec : Codec ids) (kv : KvStore)
    (tunables : Tunables) where
  -- No rebalance is charged to the transaction.
  abbrev pub Uncharged : PaymentId ids → Running s codec kv tunables → Type 0
  Uncharged id r = charged_to id r.queued + movers_charged_to id r.moving ≡ 0

  -- A payment, and a rebalance, gets an id that no rebalance under way is charged to.
  abbrev pub HasOwnIds :
      {r r' : Running s codec kv tunables} → TaskStep s codec kv tunables r r' → Type 0
  HasOwnIds (outside w) = Unit
  HasOwnIds {r = r} (pays info a st e) = All (λ id. Uncharged id r) st.spawned
  HasOwnIds (polls asleep e) = Unit
  HasOwnIds (locks before after t q free) = Unit
  HasOwnIds (looks before after t e k f) = Unit
  HasOwnIds (wakes before after t e k) = Unit
  HasOwnIds (loses before after t e k f) = Unit
  HasOwnIds {r = r} (assigns before after t lightning_id e w m q k f g) =
      Uncharged (custodial t.rebalance_id) r × Uncharged (lightning lightning_id) r
  HasOwnIds (panics before after t lightning_id e k f g) = Unit

  abbrev pub HaveOwnIds :
      {r r' : Running s codec kv tunables} → TaskSteps s codec kv tunables r r' → Type 0
  HaveOwnIds stay = Unit
  HaveOwnIds (also rs t) = HaveOwnIds rs × HasOwnIds t

  abbrev pub IsChargeable : Running s codec kv tunables → Type 0
  IsChargeable r = Chargeable r.tx_metadata.tx_metadata r.queued r.moving

  module _ (writes : Writes kv) where
    pub Settled-Chargeable :
        (r : Running s codec kv tunables) (p : _)
        → Settled s codec kv r.tx_metadata p
        → All (λ id. Uncharged id r) p.1.spawned
        → IsChargeable r
        → Chargeable p.1.tx_metadata.tx_metadata
            (map (spawned_task s codec kv tunables) p.1.spawned ++ r.queued)
            r.moving
    Settled-Chargeable r p (settled_unpaid e f) u h = rw (e, f) h
    Settled-Chargeable r p (settled_by_custody id w ty e f) u h = rw f (
        kept-Chargeable r.tx_metadata.tx_metadata _ r.queued r.moving h
          λ j. Settled-CanMark s codec kv r.tx_metadata p j (settled_by_custody id w ty e f))
    Settled-Chargeable r p (settled_by_channels id w ty e f) u h =
        let u' = subst (All (λ id. Uncharged id r)) f u in
        rw f (
          added-Chargeable r.tx_metadata.tx_metadata _ r.queued r.moving
            (spawned_task s codec kv tunables (lightning id)) h u'.0 refl
            (rw e (put_self-CanMark r.tx_metadata.tx_metadata (lightning id) _ _))
            λ j. Settled-CanMark s codec kv r.tx_metadata p j (settled_by_channels id w ty e f))

    charge_round-Chargeable :
        (o : Option ids.CustodialPaymentId) (r : Running s codec kv tunables)
        → IfSome (λ c. CanMark r.tx_metadata.tx_metadata (custodial c)) o
        → polled r.queued + polled_movers r.moving ≡ 0
        → IsChargeable r
        → IsChargeable (charge_round s codec kv tunables o r)
    unfolding charge_round
    charge_round-Chargeable none r can idle h = h
    charge_round-Chargeable (some c) r can idle h =
        added-Chargeable r.tx_metadata.tx_metadata _ r.queued r.moving
          (record { trigger = custodial c; by_polling = true }) h
          (omega (
            arith,
            charged_to_custodial c r.queued,
            movers_charged_to_custodial c r.moving,
            h.own,
            idle,
          ))
          refl can (λ j k. k)

    after_look-Chargeable :
        (o : Option Amount) (st : PollState codec kv) (r : Running s codec kv tunables)
        → IfSome (λ c. CanMark st.tx_metadata.tx_metadata (custodial c)) (victim codec kv st)
        → polled r.queued + polled_movers r.moving ≡ 0
        → Chargeable st.tx_metadata.tx_metadata r.queued r.moving
        → IsChargeable (after_look s codec kv tunables o st r)
    unfolding after_look
    after_look-Chargeable none st r can idle h = h
    after_look-Chargeable (some a) st r can idle h =
        charge_round-Chargeable (victim codec kv st) _ can idle h

    pub round_listed-Chargeable :
        (l : Result s.CustodialError (List (Payment ids)) × s.World)
        (r : Running s codec kv tunables)
        → polled r.queued + polled_movers r.moving ≡ 0
        → IsChargeable r
        → Ensures IsChargeable (round_listed s codec kv tunables l r)
    unfolding round_listed
    round_listed-Chargeable (err e, w) r idle h = on_done h
    round_listed-Chargeable (ok ps, w) r idle h =
        let start = at_start codec kv r.tx_metadata in
        Ensures-bind _ _ λ st e. on_done (
          after_look-Chargeable (get_balance_amt s tunables w) st _
            (Returns-at (see_payments-victim codec kv writes (s.now w) ps r.tx_metadata) e) idle
            (kept-Chargeable r.tx_metadata.tx_metadata _ r.queued r.moving h
              λ j k. Returns-at (see_payments-CanMark codec kv writes j (s.now w) ps start k) e))

    pub locked-Chargeable :
        (before after : List (Task ids)) (t : Task ids) (b : Begun ids × s.World)
        (r : Running s codec kv tunables)
        → r.queued ≡ before ++ t ∷ after
        → IsChargeable r
        → IsChargeable (take_lock s codec kv tunables t (before ++ after) b r)
    unfolding take_lock
    locked-Chargeable before after t (stopped e, w) r q h =
        fewer-Chargeable r.tx_metadata.tx_metadata r.queued _ r.moving r.moving h
          (λ j. omega (
            arith,
            charged_to-append j before after,
            charged_to-append j before (t ∷ after),
            ap (charged_to j) q,
          ))
          (omega
            (arith, foreign-append before after, foreign-append before (t ∷ after), ap foreign q))
    locked-Chargeable before after t (moves id hash, w) r q h =
        fewer-Chargeable r.tx_metadata.tx_metadata r.queued _ r.moving _ h
          (λ j. omega (
            arith,
            charged_to-append j before after,
            charged_to-append j before (t ∷ after),
            ap (charged_to j) q,
          ))
          (omega
            (arith, foreign-append before after, foreign-append before (t ∷ after), ap foreign q))

    pub awaiting-Chargeable :
        (before after : List (Mover ids)) (t : Mover ids) (b : Bool)
        (r : Running s codec kv tunables)
        → r.moving ≡ before ++ t ∷ after
        → IsChargeable r
        → Chargeable r.tx_metadata.tx_metadata r.queued
            (before ++ awaiting s codec kv tunables b t ∷ after)
    awaiting-Chargeable before after t b r q h =
        let t' = awaiting s codec kv tunables b t in
        fewer-Chargeable r.tx_metadata.tx_metadata r.queued r.queued r.moving _ h
          (λ j. omega (
            arith,
            movers_charged_to-append j before (t ∷ after),
            movers_charged_to-append j before (t' ∷ after),
            ap (movers_charged_to j) q,
          ))
          (omega (
            arith,
            foreign_movers-append before (t ∷ after),
            foreign_movers-append before (t' ∷ after),
            ap foreign_movers q,
          ))

    -- The mark and the records of a rebalance take no other id than their own.
    pub not_own :
        (id j : PaymentId ids) (r : Running s codec kv tunables)
        → Uncharged id r
        → 1 ≤ charged_to j r.queued + movers_charged_to j r.moving
        → same_id ids id j ≡ false
    not_own id j r u n = elim (Bool-cases (same_id ids id j)) [
      | inl e ↦
          let u' : Uncharged j r = rw (← same_id_sound ids id j e) u in absurd (omega (arith, n))
      | inr e ↦ e
    ]

    pub mover-CanMark :
        (before after : List (Mover ids)) (t : Mover ids) (r : Running s codec kv tunables)
        → r.moving ≡ before ++ t ∷ after
        → IsChargeable r
        → CanMark r.tx_metadata.tx_metadata t.task.trigger
    mover-CanMark before after t r q h = h.markable t.task.trigger (
        omega (
          arith,
          movers_charged_to-append t.task.trigger before (t ∷ after),
          ap (movers_charged_to t.task.trigger) q,
          ap count (same_id_self ids t.task.trigger),
        ))
