-- ===== src/Wallet/Tasks/Chargeable/Marked.antt =====
-- No rebalance panics at its mark, if payments get ids of their own.
use libbtcwallet.Base.{
  false, true, ◌+◌, ◌≤◌, ◌≡◌, refl, ap, ◌∙◌, arith, ◌∷◌, put, ◌++◌, List, done, ◌>>=◌, Returns-at,
  Ensures-at,
}
use libbtcwallet.Instructions.External.{Externals}
use libbtcwallet.Store.{
  payment_triggering_transfer_to_non_custodial, id_key, TxMetadata, IdExternals, PaymentId,
  lightning, custodial,
}
use libbtcwallet.Store.Ids.{to_string}
use libbtcwallet.Store.Kv.{KvStore, Codec}
use libbtcwallet.Store.Metadata.{
  TxMetadataStore, set_tx_caused_rebalance, mark_found, mark, triggering,
}
use libbtcwallet.Wallet.Services.{Services}
use libbtcwallet.Wallet.Custodial
use libbtcwallet.Wallet.Balance.{Tunables}
use libbtcwallet.Wallet.Pay.Recorded.{Writes, pay-Settled}
use libbtcwallet.Wallet.Tasks.{
  Mover, Running, just_opened, after_pay, start_round, release, TaskStep, outside, pays, polls,
  locks, looks, wakes, loses, assigns, panics, TaskSteps, stay, also,
}
use libbtcwallet.Wallet.Tasks.Exclusive.{is_rebalancing, IsExclusive, steps-IsExclusive}
use libbtcwallet.Wallet.Tasks.Counts.{
  count, charged_to, movers_charged_to, movers_charged_to-append,
}
use libbtcwallet.Wallet.Tasks.Chargeable.{CanMark, assign_fees-CanMark}
use libbtcwallet.Wallet.Tasks.Chargeable.Lists.{ended-Chargeable}
use libbtcwallet.Wallet.Tasks.Chargeable.Moves.{
  HasOwnIds, HaveOwnIds, IsChargeable, Settled-Chargeable, round_listed-Chargeable,
  awaiting-Chargeable, locked-Chargeable, not_own, mover-CanMark,
}

module _ {x : Externals} {ids : IdExternals} (s : Services x ids) (codec : Codec ids) (kv : KvStore)
    (tunables : Tunables) (writes : Writes kv) where
  still_charged :
      (before after : List (Mover ids)) (t : Mover ids) (r : Running s codec kv tunables)
      (j : PaymentId ids)
      → r.moving ≡ before ++ t ∷ after
      → 1 ≤ charged_to j r.queued + movers_charged_to j (before ++ after)
      → 1 ≤ charged_to j r.queued + movers_charged_to j r.moving
  still_charged before after t r j q n = omega (
    arith,
    movers_charged_to-append j before after,
    movers_charged_to-append j before (t ∷ after),
    ap (movers_charged_to j) q,
  )

  step-Chargeable :
      {r r' : Running s codec kv tunables} (t : TaskStep s codec kv tunables r r')
      → HasOwnIds s codec kv tunables t
      → IsExclusive s codec kv tunables r
      → IsChargeable s codec kv tunables r
      → IsChargeable s codec kv tunables r'
  unfolding start_round after_pay release
  step-Chargeable (outside w) own ex h = h
  step-Chargeable {r = r} (pays info a st e) own ex h =
      Settled-Chargeable s codec kv tunables writes r (a, st)
        (Returns-at (pay-Settled s codec kv writes info r.world r.tx_metadata) e) own h
  step-Chargeable {r = r} (polls asleep e) own ex h =
      Ensures-at
        (round_listed-Chargeable s codec kv tunables writes (Custodial.list_payments s r.world) r
          (ex.own ∙ ap (λ p. count (is_rebalancing p)) asleep) h)
        e
  step-Chargeable {r = r} (locks before after t q free) own ex h =
      locked-Chargeable s codec kv tunables writes before after t _ r q h
  step-Chargeable {r = r} (looks before after t q k f) own ex h =
      awaiting-Chargeable s codec kv tunables writes before after t true r q h
  step-Chargeable {r = r} (wakes before after t q k) own ex h =
      awaiting-Chargeable s codec kv tunables writes before after t false r q h
  step-Chargeable {r = r} (loses before after t q waits f) own ex h =
      ended-Chargeable _ _ r.queued before after t (rw (← q) h) λ j ne n k. k
  step-Chargeable {r = r} (assigns before after t lightning_id e w m q waits f g) own ex h =
      ended-Chargeable r.tx_metadata.tx_metadata m.tx_metadata r.queued before after t (rw (← q) h)
        λ j ne n k.
          let still = still_charged before after t r j q n in
          Returns-at
            (assign_fees-CanMark s codec kv writes t.task.trigger t.rebalance_id lightning_id
              r.world r.tx_metadata j
              (mover-CanMark s codec kv tunables writes before after t r q h) ne
              (not_own s codec kv tunables writes (custodial t.rebalance_id) j r own.0 still)
              (not_own s codec kv tunables writes (lightning lightning_id) j r own.1 still) k)
            g
  step-Chargeable {r = r} (panics before after t lightning_id q waits f g) own ex h =
      ended-Chargeable _ _ r.queued before after t (rw (← q) h) λ j ne n k. k

  pub steps-Chargeable :
      (w : s.World) (m : TxMetadataStore ids kv) {r : Running s codec kv tunables}
      (run : TaskSteps s codec kv tunables (just_opened s codec kv tunables w m) r)
      → HaveOwnIds s codec kv tunables run
      → IsChargeable s codec kv tunables r
  steps-Chargeable w m stay own = record {
    once = λ id. omega arith;
    markable = λ id n. absurd (omega arith);
    own = refl;
  }
  steps-Chargeable w m (also rs t) (own, now) =
      step-Chargeable t now (steps-IsExclusive s codec kv tunables w m _ rs)
        (steps-Chargeable w m rs own)

  can_be_marked :
      (m : TxMetadataStore ids kv) (id : PaymentId ids)
      → CanMark m.tx_metadata id
      → (m' : TxMetadataStore ids kv) × (set_tx_caused_rebalance codec kv m id ≡ done m')
  unfolding set_tx_caused_rebalance mark_found mark triggering ◌>>=◌
  can_be_marked m id (time, ty, plain) =
      let value : TxMetadata ids = record {
        time = time;
        ty = payment_triggering_transfer_to_non_custodial ty;
      } in
      let (store, e) = writes m.store (to_string ids id) (codec.encode value) in
      (
        record { tx_metadata = put (id_key ids) m.tx_metadata id value; store = store },
        rw (plain, e) refl,
      )

  -- From the start of the wallet, whatever its tasks do and in any order, if the key-value store takes
  -- every write and each payment and each rebalance gets ids that no rebalance under way is charged
  -- to, the transaction that a rebalance past the lock is charged to can be marked, so that the
  -- rebalance does not panic there.
  pub steps_mark :
      (w : s.World) (m : TxMetadataStore ids kv) (r : Running s codec kv tunables)
      (run : TaskSteps s codec kv tunables (just_opened s codec kv tunables w m) r)
      (before after : List (Mover ids)) (t : Mover ids)
      → HaveOwnIds s codec kv tunables run
      → r.moving ≡ before ++ t ∷ after
      → (m' : TxMetadataStore ids kv) × (set_tx_caused_rebalance codec kv r.tx_metadata
            t.task.trigger
          ≡ done m')
  steps_mark w m r run before after t own q =
      can_be_marked r.tx_metadata t.task.trigger
        (mover-CanMark s codec kv tunables writes before after t r q (steps-Chargeable w m run own))
