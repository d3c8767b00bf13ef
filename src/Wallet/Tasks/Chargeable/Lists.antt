-- ===== src/Wallet/Tasks/Chargeable/Lists.antt =====
-- How the rebalances that wait or are past the lock change, and what stays chargeable.
use libbtcwallet.Base.{◌+◌, ◌≤◌, ◌≡◌, arith, false, List, ◌∷◌, ◌++◌, HashMap, Bool-cases, inl, inr}
use libbtcwallet.Store.{IdExternals, PaymentId, TxMetadata, same_id, same_id_sound}
use libbtcwallet.Wallet.Tasks.{Task, Mover}
use libbtcwallet.Wallet.Tasks.Counts.{
  count, charged_to, movers_charged_to, movers_charged_to-append, is_foreign, foreign,
  foreign_movers, foreign_movers-append,
}
use libbtcwallet.Wallet.Tasks.Chargeable.{CanMark}

module _ {ids : IdExternals} where
  -- A transaction has one rebalance at most that is under way, and can be marked if it has one; and
  -- only the polling task charges payments of custody.
  pub record Chargeable (m : HashMap (PaymentId ids) (TxMetadata ids)) (queued : List (Task ids))
      (moving : List (Mover ids)) : Type 0 where
    pub once : (id : PaymentId ids) → charged_to id queued + movers_charged_to id moving ≤ 1
    pub markable :
        (id : PaymentId ids) → 1 ≤ charged_to id queued + movers_charged_to id moving → CanMark m id
    pub own : foreign queued + foreign_movers moving ≡ 0

  pub added-Chargeable :
      (m m' : HashMap (PaymentId ids) (TxMetadata ids)) (queued : List (Task ids))
      (moving : List (Mover ids)) (t : Task ids)
      → Chargeable m queued moving
      → charged_to t.trigger queued + movers_charged_to t.trigger moving ≡ 0
      → is_foreign t ≡ false
      → CanMark m' t.trigger
      → ((j : PaymentId ids) → CanMark m j → CanMark m' j)
      → Chargeable m' (t ∷ queued) moving
  added-Chargeable m m' queued moving t h new_one ours can keep = record {
    once = λ j. elim (Bool-cases (same_id ids t.trigger j)) [
      | inl e ↦
          let e' = same_id_sound ids t.trigger j e in
          let none_yet : charged_to j queued + movers_charged_to j moving ≡ 0 = rw (← e') new_one in
          rw e (omega arith)
      | inr e ↦ rw e (omega (arith, h.once j))
    ];
    markable = λ j. elim (Bool-cases (same_id ids t.trigger j)) [
      | inl e ↦ λ _. rw (← same_id_sound ids t.trigger j e) can
      | inr e ↦ rw e λ n. keep j (h.markable j (omega arith))
    ];
    own = rw ours (omega (arith, h.own));
  }

  pub fewer-Chargeable :
      (m : HashMap (PaymentId ids) (TxMetadata ids)) (queued queued' : List (Task ids))
      (moving moving' : List (Mover ids))
      → Chargeable m queued moving
      → ((id : PaymentId ids)
          → charged_to id queued' + movers_charged_to id moving'
            ≤ charged_to id queued + movers_charged_to id moving)
      → foreign queued' + foreign_movers moving' ≤ foreign queued + foreign_movers moving
      → Chargeable m queued' moving'
  fewer-Chargeable m queued queued' moving moving' h less ours = record {
    once = λ j. omega (arith, h.once j, less j);
    markable = λ j n. h.markable j (omega (arith, less j));
    own = omega (arith, h.own);
  }

  pub kept-Chargeable :
      (m m' : HashMap (PaymentId ids) (TxMetadata ids)) (queued : List (Task ids))
      (moving : List (Mover ids))
      → Chargeable m queued moving
      → ((j : PaymentId ids) → CanMark m j → CanMark m' j)
      → Chargeable m' queued moving
  kept-Chargeable m m' queued moving h keep = record {
    once = h.once;
    markable = λ j n. keep j (h.markable j n);
    own = h.own;
  }

  -- With one mover gone, whose trigger is the only one that the writes took.
  pub ended-Chargeable :
      (m m' : HashMap (PaymentId ids) (TxMetadata ids)) (queued : List (Task ids))
      (before after : List (Mover ids)) (t : Mover ids)
      → Chargeable m queued (before ++ t ∷ after)
      → ((j : PaymentId ids)
          → same_id ids t.task.trigger j ≡ false
          → 1 ≤ charged_to j queued + movers_charged_to j (before ++ after)
          → CanMark m j
          → CanMark m' j)
      → Chargeable m' queued (before ++ after)
  ended-Chargeable m m' queued before after t h keep = record {
    once = λ j. omega (
      arith,
      h.once j,
      movers_charged_to-append j before after,
      movers_charged_to-append j before (t ∷ after),
    );
    markable = λ j. elim (Bool-cases (same_id ids t.task.trigger j)) [
      | inl e ↦ λ n.
          let one : 1 ≤ count (same_id ids t.task.trigger j) = rw e (omega arith) in
          absurd (
            omega (
              arith,
              h.once j,
              movers_charged_to-append j before after,
              movers_charged_to-append j before (t ∷ after),
            ))
      | inr e ↦ λ n. keep j e n (
          h.markable j (
            omega (
              arith,
              movers_charged_to-append j before after,
              movers_charged_to-append j before (t ∷ after),
            )))
    ];
    own = omega (
      arith,
      h.own,
      foreign_movers-append before after,
      foreign_movers-append before (t ∷ after),
    );
  }
