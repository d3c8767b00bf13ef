-- ===== src/Wallet/Tasks/Exclusive.antt =====
-- The lock of rebalances keeps them apart, and the polling task has one of its own at most.
use libbtcwallet.Base.{
  ℕ, ◌+◌, ◌≡◌, refl, ap, ◌∙◌, arith, Bool, true, false, Option, none, some, List, [], ◌∷◌, ◌++◌,
  map, length, length-append, Result, ok, err, Ensures, on_done, Ensures-bind, Ensures-at,
}
use libbtcwallet.Amount.{Amount}
use libbtcwallet.Instructions.External.{Externals}
use libbtcwallet.Store.{IdExternals, PaymentId}
use libbtcwallet.Store.Kv.{KvStore, Codec}
use libbtcwallet.Store.Metadata.{TxMetadataStore}
use libbtcwallet.Wallet.Services.{Services}
use libbtcwallet.Wallet.Custodial.{Payment}
use libbtcwallet.Wallet.Custodial
use libbtcwallet.Wallet.Balance.{Tunables, get_balance_amt}
use libbtcwallet.Wallet.Polling.{PollState, victim}
use libbtcwallet.Wallet.Tasks.{
  Task, Mover, Polling, sleeping, rebalancing, dead, Begun, stopped, moves, polling_then, Running,
  just_opened, spawned_task, after_pay, charge_round, after_look, round_listed, start_round,
  take_lock, release, awaiting, TaskStep, outside, pays, polls, locks, looks, wakes, loses, assigns,
  panics, TaskSteps, stay, also,
}
use libbtcwallet.Wallet.Tasks.Counts.{
  count, polled, polled_movers, polled-append, polled_movers-append,
}

abbrev pub is_rebalancing : Polling → Bool
is_rebalancing sleeping = false
is_rebalancing rebalancing = true
is_rebalancing dead = false

module _ {x : Externals} {ids : IdExternals} (s : Services x ids) (codec : Codec ids) (kv : KvStore)
    (tunables : Tunables) where
  -- As many rebalances are past the lock as it is held, so at most one; and of the polling task there
  -- is one, waiting or past the lock, exactly while that task is in its call.
  pub record IsExclusive (r : Running s codec kv tunables) : Type 0 where
    pub held : length r.moving ≡ count r.balance_mutex
    pub own : polled r.queued + polled_movers r.moving ≡ count (is_rebalancing r.polling)

  spawned-polled :
      (ts : List (PaymentId ids)) → polled (map (spawned_task s codec kv tunables) ts) ≡ 0
  spawned-polled [] = refl
  spawned-polled (t ∷ ts) = omega (arith, spawned-polled ts)

  after_pay-IsExclusive :
      (st : _) (r : Running s codec kv tunables)
      → IsExclusive r
      → IsExclusive (after_pay s codec kv tunables st r)
  unfolding after_pay
  after_pay-IsExclusive st r h = record {
    held = h.held;
    own = omega (
      arith,
      polled-append (map (spawned_task s codec kv tunables) st.spawned) r.queued,
      spawned-polled st.spawned,
      h.own,
    );
  }

  charge_round-IsExclusive :
      (o : Option ids.CustodialPaymentId) (r : Running s codec kv tunables)
      → r.polling ≡ sleeping
      → IsExclusive r
      → IsExclusive (charge_round s codec kv tunables o r)
  unfolding charge_round
  charge_round-IsExclusive none r asleep h = record {
    held = h.held;
    own = h.own ∙ ap (λ p. count (is_rebalancing p)) asleep;
  }
  charge_round-IsExclusive (some id) r asleep h = record {
    held = h.held;
    own = omega (arith, h.own ∙ ap (λ p. count (is_rebalancing p)) asleep);
  }

  after_look-IsExclusive :
      (o : Option Amount) (st : PollState codec kv) (r : Running s codec kv tunables)
      → r.polling ≡ sleeping
      → IsExclusive r
      → IsExclusive (after_look s codec kv tunables o st r)
  unfolding after_look
  after_look-IsExclusive none st r asleep h = record { held = h.held; own = h.own }
  after_look-IsExclusive (some a) st r asleep h =
      charge_round-IsExclusive (victim codec kv st) _ asleep (record { held = h.held; own = h.own })

  round_listed-IsExclusive :
      (l : Result s.CustodialError (List (Payment ids)) × s.World) (r : Running s codec kv tunables)
      → r.polling ≡ sleeping
      → IsExclusive r
      → Ensures IsExclusive (round_listed s codec kv tunables l r)
  unfolding round_listed
  round_listed-IsExclusive (err e, w) r asleep h = on_done (record { held = h.held; own = h.own })
  round_listed-IsExclusive (ok ps, w) r asleep h = Ensures-bind _ _ λ st _. on_done (
      after_look-IsExclusive (get_balance_amt s tunables w) st _ asleep
        (record { held = h.held; own = h.own }))

  -- A task of the polling task that ends lets it go on; another leaves it as it is.
  let_go :
      (b : Bool) (p next : Polling) (n : ℕ)
      → is_rebalancing next ≡ false
      → count b + n ≡ count (is_rebalancing p)
      → n ≡ count (is_rebalancing (polling_then next b p))
  let_go true p next n e h = ground arith
  let_go false p next n e h = omega arith

  took-polled :
      (before after : List (Task ids)) (t : Task ids) (r : Running s codec kv tunables)
      → r.queued ≡ before ++ t ∷ after
      → IsExclusive r
      → count t.by_polling + (polled (before ++ after) + polled_movers r.moving)
        ≡ count (is_rebalancing r.polling)
  took-polled before after t r e h =
      omega
        (arith, polled-append before after, polled-append before (t ∷ after), ap polled e, h.own)

  take_lock-IsExclusive :
      (before after : List (Task ids)) (t : Task ids) (b : Begun ids × s.World)
      (r : Running s codec kv tunables)
      → r.queued ≡ before ++ t ∷ after
      → r.balance_mutex ≡ false
      → IsExclusive r
      → IsExclusive (take_lock s codec kv tunables t (before ++ after) b r)
  unfolding take_lock
  take_lock-IsExclusive before after t (stopped e, w) r q free h = record {
    held = h.held;
    own = let_go t.by_polling r.polling sleeping _ refl (took-polled before after t r q h);
  }
  take_lock-IsExclusive before after t (moves id hash, w) r q free h =
      let none_moves : length r.moving ≡ 0 = h.held ∙ ap count free in
      record { held = omega arith; own = omega (arith, took-polled before after t r q h) }

  release-IsExclusive :
      (before after : List (Mover ids)) (t : Mover ids) (next : Polling)
      (r : Running s codec kv tunables)
      → r.moving ≡ before ++ t ∷ after
      → is_rebalancing next ≡ false
      → IsExclusive r
      → IsExclusive (release s codec kv tunables t (before ++ after) next r)
  unfolding release
  release-IsExclusive before after t next r e over h =
      let one : length (before ++ t ∷ after) ≡ count r.balance_mutex = rw (← e) h.held in
      record {
        held = ground (arith, length-append before after, length-append before (t ∷ after));
        own = let_go t.task.by_polling r.polling next _ over (
            omega (
              arith,
              polled_movers-append before after,
              polled_movers-append before (t ∷ after),
              ap polled_movers e,
              h.own,
            ));
      }

  awaiting-IsExclusive :
      (before after : List (Mover ids)) (t : Mover ids) (b : Bool) (w : s.World)
      (r : Running s codec kv tunables)
      → r.moving ≡ before ++ t ∷ after
      → IsExclusive r
      → IsExclusive
          (record r { world = w; moving = before ++ awaiting s codec kv tunables b t ∷ after })
  awaiting-IsExclusive before after t b w r e h =
      let t' = awaiting s codec kv tunables b t in
      record {
        held = omega (
          arith,
          length-append before (t ∷ after),
          length-append before (t' ∷ after),
          ap length e,
          h.held,
        );
        own = omega (
          arith,
          polled_movers-append before (t ∷ after),
          polled_movers-append before (t' ∷ after),
          ap polled_movers e,
          h.own,
        );
      }

  step-IsExclusive :
      {r r' : Running s codec kv tunables}
      → IsExclusive r
      → TaskStep s codec kv tunables r r'
      → IsExclusive r'
  unfolding start_round
  step-IsExclusive h (outside w) = record { held = h.held; own = h.own }
  step-IsExclusive {r = r} h (pays info a st e) = after_pay-IsExclusive st r h
  step-IsExclusive {r = r} h (polls asleep e) =
      Ensures-at (round_listed-IsExclusive (Custodial.list_payments s r.world) r asleep h) e
  step-IsExclusive {r = r} h (locks before after t q free) =
      take_lock-IsExclusive before after t _ r q free h
  step-IsExclusive {r = r} h (looks before after t e k f) =
      awaiting-IsExclusive before after t true r.world r e h
  step-IsExclusive {r = r} h (wakes before after t e k) =
      awaiting-IsExclusive before after t false (s.next_receipt r.world) r e h
  step-IsExclusive {r = r} h (loses before after t e k f) =
      release-IsExclusive before after t sleeping r e refl h
  step-IsExclusive h (assigns before after t l e w m q k f g) =
      release-IsExclusive before after t sleeping _ q refl (record { held = h.held; own = h.own })
  step-IsExclusive {r = r} h (panics before after t l e k f g) =
      release-IsExclusive before after t dead r e refl h

  -- From the start of the wallet, whatever its tasks do and in any order, as many rebalances are past
  -- the lock as it is held, so at most one; and the polling task has one rebalance, waiting or past
  -- the lock, while it is in its call, and else none.
  pub steps-IsExclusive :
      (w : s.World) (m : TxMetadataStore ids kv) (r : Running s codec kv tunables)
      → TaskSteps s codec kv tunables (just_opened s codec kv tunables w m) r
      → IsExclusive r
  steps-IsExclusive w m r run = kept run
    where
      kept :
          {r' : Running s codec kv tunables}
          → TaskSteps s codec kv tunables (just_opened s codec kv tunables w m) r'
          → IsExclusive r'
      kept stay = record { held = refl; own = refl }
      kept (also rs t) = step-IsExclusive (kept rs) t
