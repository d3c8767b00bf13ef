-- ===== src/Wallet/Receipts/Awaited.antt =====
-- When `await_payment_receipt` returns.
use libbtcwallet.Base.{inr, inl, Bool-cases, ◌≡◌, refl, Bool, true, false, ◌||◌, List, [], ◌∷◌}
use libbtcwallet.Wallet.Receipts.{
  Watch, WatchLaws, Event, payment_successful, payment_failed, payment_received, payment_forwarded,
  payment_claimable, channel_pending, channel_ready, channel_closed, handle_event, handle_events,
  await_payment_receipt,
}

abbrev pub is_receipt : Event → Bool
is_receipt payment_received = true
is_receipt payment_successful = false
is_receipt payment_failed = false
is_receipt payment_forwarded = false
is_receipt payment_claimable = false
is_receipt channel_pending = false
is_receipt channel_ready = false
is_receipt channel_closed = false

abbrev pub any_receipt : List Event → Bool
any_receipt [] = false
any_receipt (e ∷ es) = is_receipt e || any_receipt es

module _ (t : Watch) where
  pub handle_event_lem : (e : Event) (c : t.Channel) → is_receipt e ≡ false → handle_event t e c ≡ c
  unfolding handle_event
  handle_event_lem payment_received c h = cc
  handle_event_lem payment_successful c h = refl
  handle_event_lem payment_failed c h = refl
  handle_event_lem payment_forwarded c h = refl
  handle_event_lem payment_claimable c h = refl
  handle_event_lem channel_pending c h = refl
  handle_event_lem channel_ready c h = refl
  handle_event_lem channel_closed c h = refl

  receipt_lem : (e : Event) (c : t.Channel) → is_receipt e ≡ true → handle_event t e c ≡ t.send c
  unfolding handle_event
  receipt_lem payment_received c h = refl
  receipt_lem payment_successful c h = cc
  receipt_lem payment_failed c h = cc
  receipt_lem payment_forwarded c h = cc
  receipt_lem payment_claimable c h = cc
  receipt_lem channel_pending c h = cc
  receipt_lem channel_ready c h = cc
  receipt_lem channel_closed c h = cc

  module _ (laws : WatchLaws t) where
    kept_event :
        (e : Event) (c : t.Channel) (flag : t.Receiver)
        → t.has_changed c flag ≡ true
        → t.has_changed (handle_event t e c) flag ≡ true
    kept_event e c flag h = elim (Bool-cases (is_receipt e)) [
      | inl r ↦ rw (receipt_lem e c r) (laws.kept c flag h)
      | inr q ↦ rw (handle_event_lem e c q) h
    ]

    kept_events :
        (es : List Event) (c : t.Channel) (flag : t.Receiver)
        → t.has_changed c flag ≡ true
        → t.has_changed (handle_events t es c) flag ≡ true
    unfolding handle_events
    kept_events [] c flag h = h
    kept_events (e ∷ es) c flag h = kept_events es (handle_event t e c) flag (kept_event e c flag h)

    changed_lem :
        (es : List Event) (c : t.Channel) (r : t.Receiver)
        → t.has_changed (handle_events t es c) (t.mark_unchanged c r) ≡ any_receipt es
    unfolding handle_events
    changed_lem [] c r = laws.marked c r
    changed_lem (e ∷ es) c r = elim (Bool-cases (is_receipt e)) [
      | inl h ↦ rw (receipt_lem e c h, h) (kept_events es (t.send c) _ (laws.sent c r))
      | inr h ↦ rw (handle_event_lem e c h, h) (changed_lem es c r)
    ]

    -- A call of `await_payment_receipt` has what it waits for exactly when one of the events that
    -- the task handles after its mark is a received payment: one that was handled before the call
    -- does not count, and no other event does.
    pub await_payment_receipt_lem :
        (c : t.Channel) (payment_receipt_flag : t.Receiver) (while_waiting : List Event)
        → await_payment_receipt t c payment_receipt_flag while_waiting ≡ any_receipt while_waiting
    unfolding await_payment_receipt
    await_payment_receipt_lem c payment_receipt_flag while_waiting =
        changed_lem while_waiting c payment_receipt_flag
