-- ===== src/Wallet/Tasks/Counts.antt =====
-- Lists of rebalances, counted by what they are charged to and who started them.
use libbtcwallet.Base.{
  ℕ, ◌+◌, ◌≤◌, ◌≡◌, arith, Bool, true, false, List, [], ◌∷◌, ◌++◌, if◌then◌else◌,
}
use libbtcwallet.Store.{IdExternals, PaymentId, lightning, custodial, same_id}
use libbtcwallet.Wallet.Tasks.{Task, Mover}

abbrev pub count : Bool → ℕ
count b = if b then 1 else 0

module _ {ids : IdExternals} where
  abbrev pub polled : List (Task ids) → ℕ
  polled [] = 0
  polled (t ∷ ts) = count t.by_polling + polled ts

  abbrev pub polled_movers : List (Mover ids) → ℕ
  polled_movers [] = 0
  polled_movers (t ∷ ts) = count t.task.by_polling + polled_movers ts

  pub polled-append : (ts us : List (Task ids)) → polled (ts ++ us) ≡ polled ts + polled us
  polled-append [] us = omega arith
  polled-append (t ∷ ts) us = omega (arith, polled-append ts us)

  pub polled_movers-append :
      (ts us : List (Mover ids)) → polled_movers (ts ++ us) ≡ polled_movers ts + polled_movers us
  polled_movers-append [] us = omega arith
  polled_movers-append (t ∷ ts) us = omega (arith, polled_movers-append ts us)

  -- the rebalances that are charged to a transaction
  abbrev pub charged_to : PaymentId ids → List (Task ids) → ℕ
  charged_to id [] = 0
  charged_to id (t ∷ ts) = count (same_id ids t.trigger id) + charged_to id ts

  abbrev pub movers_charged_to : PaymentId ids → List (Mover ids) → ℕ
  movers_charged_to id [] = 0
  movers_charged_to id (t ∷ ts) = count (same_id ids t.task.trigger id) + movers_charged_to id ts

  pub charged_to-append :
      (id : PaymentId ids) (ts us : List (Task ids))
      → charged_to id (ts ++ us) ≡ charged_to id ts + charged_to id us
  charged_to-append id [] us = omega arith
  charged_to-append id (t ∷ ts) us = omega (arith, charged_to-append id ts us)

  pub movers_charged_to-append :
      (id : PaymentId ids) (ts us : List (Mover ids))
      → movers_charged_to id (ts ++ us) ≡ movers_charged_to id ts + movers_charged_to id us
  movers_charged_to-append id [] us = omega arith
  movers_charged_to-append id (t ∷ ts) us = omega (arith, movers_charged_to-append id ts us)

  -- A rebalance that no round of the polling task started is charged to a payment over our channels.
  abbrev pub is_foreign : Task ids → Bool
  is_foreign t = elim t.trigger [
    | lightning b ↦ false
    | custodial c ↦ if t.by_polling then false else true
  ]

  abbrev pub foreign : List (Task ids) → ℕ
  foreign [] = 0
  foreign (t ∷ ts) = count (is_foreign t) + foreign ts

  abbrev pub foreign_movers : List (Mover ids) → ℕ
  foreign_movers [] = 0
  foreign_movers (t ∷ ts) = count (is_foreign t.task) + foreign_movers ts

  pub foreign-append : (ts us : List (Task ids)) → foreign (ts ++ us) ≡ foreign ts + foreign us
  foreign-append [] us = omega arith
  foreign-append (t ∷ ts) us = omega (arith, foreign-append ts us)

  pub foreign_movers-append :
      (ts us : List (Mover ids)) → foreign_movers (ts ++ us) ≡ foreign_movers ts + foreign_movers us
  foreign_movers-append [] us = omega arith
  foreign_movers-append (t ∷ ts) us = omega (arith, foreign_movers-append ts us)

  pub one_custodial :
      (c : ids.CustodialPaymentId) (id : PaymentId ids) (b : Bool)
      → count (same_id ids id (custodial c))
        ≤ count b + count (is_foreign (record { trigger = id; by_polling = b }))
  one_custodial c (lightning l) b = omega arith
  one_custodial c (custodial d) true = ground arith
  one_custodial c (custodial d) false = ground arith

  pub charged_to_custodial :
      (c : ids.CustodialPaymentId) (ts : List (Task ids))
      → charged_to (custodial c) ts ≤ polled ts + foreign ts
  charged_to_custodial c [] = omega arith
  charged_to_custodial c (t ∷ ts) =
      omega (arith, one_custodial c t.trigger t.by_polling, charged_to_custodial c ts)

  pub movers_charged_to_custodial :
      (c : ids.CustodialPaymentId) (ts : List (Mover ids))
      → movers_charged_to (custodial c) ts ≤ polled_movers ts + foreign_movers ts
  movers_charged_to_custodial c [] = omega arith
  movers_charged_to_custodial c (t ∷ ts) =
      omega
        (arith, one_custodial c t.task.trigger t.task.by_polling, movers_charged_to_custodial c ts)
