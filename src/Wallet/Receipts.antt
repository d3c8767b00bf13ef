-- ===== src/Wallet/Receipts.antt =====
-- How a receipt wakes a rebalance: the task that handles the events of the node, and
-- `await_payment_receipt` (lightning_wallet.rs), between two looks at the payments in
-- `do_custodial_rebalance` (lib.rs), as steps that may come in any order.
pub mod Awaited
pub mod Lost
use libbtcwallet.Base.{◌≡◌, Bool, true, false, List, [], ◌∷◌, ◌++◌, if◌then◌else◌}

-- `tokio::sync::watch`, with no value in it.
pub record Watch : Type 1 where
  pub Channel : Type 0
  pub Receiver : Type 0
  pub send : Channel → Channel
  pub mark_unchanged : Channel → Receiver → Receiver
  -- `changed().await` returns once this holds.
  pub has_changed : Channel → Receiver → Bool

-- There is no change at a mark; a value sent behind it is a change, and stays one.
pub record WatchLaws (t : Watch) : Type 0 where
  pub marked : (c : t.Channel) (r : t.Receiver) → t.has_changed c (t.mark_unchanged c r) ≡ false
  pub sent :
      (c : t.Channel) (r : t.Receiver) → t.has_changed (t.send c) (t.mark_unchanged c r) ≡ true
  pub kept :
      (c : t.Channel) (r : t.Receiver)
      → t.has_changed c r ≡ true
      → t.has_changed (t.send c) r ≡ true

-- `ldk_node::Event`
pub data Event : Type 0 where
  payment_successful payment_failed payment_received payment_forwarded : Event
  payment_claimable channel_pending channel_ready channel_closed : Event

-- What a rebalance that has paid its invoice is doing: looking for the payment, done with it, about to
-- call `mark_unchanged`, or waiting with its receiver.
pub data Waiter (t : Watch) : Type 0 where
  looking found marking : Waiter t
  waiting : t.Receiver → Waiter t

module _ (t : Watch) where
  -- The `match` of the task that handles events.
  unfoldable pub handle_event : Event → t.Channel → t.Channel
  handle_event payment_received c = t.send c
  handle_event payment_successful c = c
  handle_event payment_failed c = c
  handle_event payment_forwarded c = c
  handle_event payment_claimable c = c
  handle_event channel_pending c = c
  handle_event channel_ready c = c
  handle_event channel_closed c = c

  -- `await_payment_receipt` returns, where these events are handled while it waits.
  unfoldable pub handle_events : List Event → t.Channel → t.Channel
  unfolding handle_event
  handle_events [] c = c
  handle_events (e ∷ es) c = handle_events es (handle_event e c)

  unfoldable pub await_payment_receipt : t.Channel → t.Receiver → List Event → Bool
  unfolding handle_events
  await_payment_receipt c payment_receipt_flag while_waiting =
      let flag = t.mark_unchanged c payment_receipt_flag in
      t.has_changed (handle_events while_waiting c) flag

  pub record System : Type 0 where
    -- the events that the node has not been told to be handled
    pub events : List Event
    pub channel : t.Channel
    pub payment_receipt_flag : t.Receiver
    -- `list_payments` shows the payment that the rebalance waits for.
    pub shown : Bool
    pub waiter : Waiter t

  -- A look at the payments.
  unfoldable pub look : Bool → Waiter t
  look shown = if shown then found else marking

  pub data Step : System → System → Type 0 where
    -- The payment arrives, or the node has another event.
    arrives :
        {s : System}
        → Step s (record s { events = s.events ++ payment_received ∷ []; shown = true })
    other_event : {s : System} (e : Event) → Step s (record s { events = s.events ++ e ∷ [] })
    handles :
        {s : System} (e : Event) (es : List Event)
        → s.events ≡ e ∷ es
        → Step s (record s { events = es; channel = handle_event e s.channel })
    looks : {s : System} → s.waiter ≡ looking → Step s (record s { waiter = look s.shown })
    marks :
        {s : System}
        → s.waiter ≡ marking
        → Step s (record s { waiter = waiting (t.mark_unchanged s.channel s.payment_receipt_flag) })
    wakes :
        {s : System} {flag : t.Receiver}
        → s.waiter ≡ waiting flag
        → t.has_changed s.channel flag ≡ true
        → Step s (record s { waiter = looking })

  pub data Steps : System → System → Type 0 where
    stay : {s : System} → Steps s s
    step : {s s' s'' : System} → Step s s' → Steps s' s'' → Steps s s''
