-- ===== src/Wallet/Tasks.antt =====
-- The tasks of a running wallet (libbtcwallet/src/lib.rs) and the lock `balance_mutex`: payments of the
-- user, the task that `Wallet::new` spawns, and the rebalances that both start, which wait for the lock
-- and hold it to their end. The code between two waits for others is one step; `pay` is one, and so is
-- a round of the task up to its rebalance. A waiting task may get the lock in any order. A
-- rebalance past the lock looks at the payments, and looks again once a received payment wakes it;
-- `outside` may also be a receipt that wakes none. What the awaits inside of `pay` let in between is
-- left out, and a write to the key-value store that fails, which panics, is no step.
pub mod Counts
pub mod Exclusive
pub mod Chargeable
pub mod Kept
pub mod Released
pub mod Stored
use libbtcwallet.Base.{
  ◌≡◌, Bool, true, false, Option, none, some, List, [], ◌∷◌, ◌++◌, map, Result, ok, err, Outcome,
  done, fail, ◌>>=◌,
}
use libbtcwallet.Amount.{Amount}
use libbtcwallet.Instructions.External.{Externals}
use libbtcwallet.Instructions.{lightning_bolt11}
use libbtcwallet.Store.{IdExternals, PaymentId, custodial, Bytes32}
use libbtcwallet.Store.Kv.{KvStore, Codec}
use libbtcwallet.Store.Metadata.{TxMetadataStore, set_tx_caused_rebalance}
use libbtcwallet.Wallet.Services.{Services}
use libbtcwallet.Wallet.Errors.{WalletError}
use libbtcwallet.Wallet.Lightning
use libbtcwallet.Wallet.Custodial
use libbtcwallet.Wallet.Custodial.{Payment, list_payments}
use libbtcwallet.Wallet.Balance.{Tunables, get_balance_amt}
use libbtcwallet.Wallet.Info.{PaymentInfo}
use libbtcwallet.Wallet.Pay.{PayState, pay}
use libbtcwallet.Wallet.Rebalance.{
  RebalanceEnd, not_needed, no_invoice, unpaid, find_receipt, not_yet, lost, received, assign_fees,
}
use libbtcwallet.Wallet.Polling.{PollState, see_payments, victim}

-- A call of `do_custodial_rebalance`, by the polling task or in a task of its own.
pub record Task (ids : IdExternals) : Type 0 where
  pub trigger : PaymentId ids
  pub by_polling : Bool

-- One that paid its invoice, with the lock held. It looks at the payments, and where they do not show
-- the one it waits for, it is in `await_payment_receipt`.
pub record Mover (ids : IdExternals) : Type 0 where
  pub task : Task ids
  pub rebalance_id : ids.CustodialPaymentId
  pub expected_hash : Bytes32
  pub is_awaiting : Bool

-- The polling task sleeps between two rounds, is in its call of `do_custodial_rebalance`, or panicked.
pub data Polling : Type 0 where
  sleeping rebalancing dead : Polling

-- How far a rebalance gets before it waits.
pub data Begun (ids : IdExternals) : Type 0 where
  stopped : RebalanceEnd ids → Begun ids
  moves : ids.CustodialPaymentId → Bytes32 → Begun ids

-- the polling task goes on where its own rebalance ended, and is gone where that panicked
abbrev pub polling_then : Polling → Bool → Polling → Polling
polling_then next true polling = next
polling_then next false polling = polling

module _ {x : Externals} {ids : IdExternals} (s : Services x ids) where
  unfoldable pub begin_payment :
      Bytes32 → Result s.CustodialError ids.CustodialPaymentId × s.World → Begun ids × s.World
  begin_payment expected_hash (err e, w) = (stopped unpaid, w)
  begin_payment expected_hash (ok rebalance_id, w) = (moves rebalance_id expected_hash, w)

  unfoldable pub begin_invoice :
      Amount → Result s.NodeError x.Bolt11Invoice × s.World → Begun ids × s.World
  unfolding begin_payment
  begin_invoice transfer_amt (err e, w) = (stopped no_invoice, w)
  begin_invoice transfer_amt (ok inv, w) =
      begin_payment (s.payment_hash inv) (Custodial.pay s w (lightning_bolt11 inv) transfer_amt)

  unfoldable pub begin_move : s.World → Option Amount → Begun ids × s.World
  unfolding begin_invoice
  begin_move w none = (stopped not_needed, w)
  begin_move w (some transfer_amt) =
      begin_invoice transfer_amt (Lightning.get_bolt11_invoice s w (some transfer_amt))

  -- `do_custodial_rebalance` up to its `while` loop.
  unfoldable pub begin : Tunables → s.World → Begun ids × s.World
  unfolding begin_move
  begin tunables w = begin_move w (get_balance_amt s tunables w)

  module _ (codec : Codec ids) (kv : KvStore) (tunables : Tunables) where
    pub record Running : Type 0 where
      pub world : s.World
      pub tx_metadata : TxMetadataStore ids kv
      pub balance_mutex : Bool
      -- the rebalances that wait for the lock, and those that are past it
      pub queued : List (Task ids)
      pub moving : List (Mover ids)
      pub polling : Polling

    -- What `Wallet::new` leaves.
    abbrev pub just_opened : s.World → TxMetadataStore ids kv → Running
    just_opened w m = record {
      world = w;
      tx_metadata = m;
      balance_mutex = false;
      queued = [];
      moving = [];
      polling = sleeping;
    }

    abbrev pub spawned_task : PaymentId ids → Task ids
    spawned_task trigger = record { trigger = trigger; by_polling = false }

    unfoldable pub after_pay : PayState s codec kv → Running → Running
    after_pay st r = record r {
      world = st.world;
      tx_metadata = st.tx_metadata;
      queued = map spawned_task st.spawned ++ r.queued;
    }

    -- A round of the polling task, up to its rebalance.
    unfoldable pub charge_round : Option ids.CustodialPaymentId → Running → Running
    charge_round none r = record r { polling = dead }
    charge_round (some victim_id) r = record r {
      polling = rebalancing;
      queued = record { trigger = custodial victim_id; by_polling = true } ∷ r.queued;
    }

    unfoldable pub after_look : Option Amount → PollState codec kv → Running → Running
    unfolding charge_round
    after_look none st r = record r { tx_metadata = st.tx_metadata }
    after_look (some transfer_amt) st r =
        charge_round (victim codec kv st) (record r { tx_metadata = st.tx_metadata })

    unfoldable pub round_listed :
        Result s.CustodialError (List (Payment ids)) × s.World
        → Running
        → Outcome (Unit {0}) Running
    unfolding after_look
    round_listed (err e, w) r = done (record r { world = w })
    round_listed (ok payments, w) r = do
      st ←
          see_payments codec kv (s.now w) payments
            (record { new_txn = []; latest_tx = none; tx_metadata = r.tx_metadata })
      done (after_look (get_balance_amt s tunables w) st (record r { world = w }))

    unfoldable pub start_round : Running → Outcome (Unit {0}) Running
    unfolding round_listed
    start_round r = round_listed (list_payments s r.world) r

    -- A task that got the lock keeps it if it moves something, and else is done.
    unfoldable pub take_lock : Task ids → List (Task ids) → Begun ids × s.World → Running → Running
    take_lock t others (stopped e, w) r = record r {
      world = w;
      queued = others;
      polling = polling_then sleeping t.by_polling r.polling;
    }
    take_lock t others (moves rebalance_id expected_hash, w) r = record r {
      world = w;
      queued = others;
      balance_mutex = true;
      moving =
          record {
            task = t;
            rebalance_id = rebalance_id;
            expected_hash = expected_hash;
            is_awaiting = false;
          }
          ∷ r.moving;
    }

    -- The guard of the lock is dropped, on a return and on a panic.
    unfoldable pub release : Mover ids → List (Mover ids) → Polling → Running → Running
    release t others next r = record r {
      balance_mutex = false;
      moving = others;
      polling = polling_then next t.task.by_polling r.polling;
    }

    abbrev pub awaiting : Bool → Mover ids → Mover ids
    awaiting b t = record t { is_awaiting = b }

    pub data TaskStep (r : Running) : Running → Type 0 where
      -- Something happens outside the wallet.
      outside : (w : s.World) → TaskStep r (record r { world = w })
      pays :
          (info : PaymentInfo x) (a : Result (WalletError s) (Unit {0})) (st : PayState s codec kv)
          → pay s codec kv info r.world r.tx_metadata ≡ done (a, st)
          → TaskStep r (after_pay st r)
      polls : {r' : Running} → r.polling ≡ sleeping → start_round r ≡ done r' → TaskStep r r'
      locks :
          (before after : List (Task ids)) (t : Task ids)
          → r.queued ≡ before ++ t ∷ after
          → r.balance_mutex ≡ false
          → TaskStep r (take_lock t (before ++ after) (begin tunables r.world) r)
      -- A look at the payments does not show the one for the rebalance, which then waits.
      looks :
          (before after : List (Mover ids)) (t : Mover ids)
          → r.moving ≡ before ++ t ∷ after
          → t.is_awaiting ≡ false
          → find_receipt t.expected_hash (s.list_payments r.world) ≡ not_yet
          → TaskStep r (record r { moving = before ++ awaiting true t ∷ after })
      -- A received payment, of any hash, wakes a rebalance that waits; it looks again.
      wakes :
          (before after : List (Mover ids)) (t : Mover ids)
          → r.moving ≡ before ++ t ∷ after
          → t.is_awaiting ≡ true
          → TaskStep r (record r {
            world = s.next_receipt r.world;
            moving = before ++ awaiting false t ∷ after;
          })
      -- A look at the payments shows that the one for the rebalance failed, or arrived.
      loses :
          (before after : List (Mover ids)) (t : Mover ids)
          → r.moving ≡ before ++ t ∷ after
          → t.is_awaiting ≡ false
          → find_receipt t.expected_hash (s.list_payments r.world) ≡ lost
          → TaskStep r (release t (before ++ after) sleeping r)
      assigns :
          (before after : List (Mover ids)) (t : Mover ids) (lightning_id : Bytes32)
          (e : RebalanceEnd ids) (w : s.World) (m : TxMetadataStore ids kv)
          → r.moving ≡ before ++ t ∷ after
          → t.is_awaiting ≡ false
          → find_receipt t.expected_hash (s.list_payments r.world) ≡ received lightning_id
          → assign_fees s codec kv t.task.trigger t.rebalance_id lightning_id r.world r.tx_metadata
            ≡ done (e, w, m)
          → TaskStep r
              (release t (before ++ after) sleeping (record r { world = w; tx_metadata = m }))
      -- The triggering transaction cannot be marked, which the code expects.
      panics :
          (before after : List (Mover ids)) (t : Mover ids) (lightning_id : Bytes32)
          → r.moving ≡ before ++ t ∷ after
          → t.is_awaiting ≡ false
          → find_receipt t.expected_hash (s.list_payments r.world) ≡ received lightning_id
          → set_tx_caused_rebalance codec kv r.tx_metadata t.task.trigger ≡ fail tt
          → TaskStep r (release t (before ++ after) dead r)

    pub data TaskSteps (r : Running) : Running → Type 0 where
      stay : TaskSteps r r
      also : {r' r'' : Running} → TaskSteps r r' → TaskStep r' r'' → TaskSteps r r''
