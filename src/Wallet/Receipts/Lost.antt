-- ===== src/Wallet/Receipts/Lost.antt =====
-- A receipt between the look at the payments and the wait wakes nobody.
use libbtcwallet.Base.{◌≡◌, ◌≢◌, refl, ap, true, false, [], ◌∷◌, ◌++◌, All, All-append}
use mathlib.Core.Path.{subst}
use libbtcwallet.Wallet.Receipts.{
  Watch, WatchLaws, Event, payment_received, Waiter, looking, found, marking, waiting, handle_event,
  System, look, Step, arrives, other_event, handles, looks, marks, wakes, Steps, stay, step,
}
use libbtcwallet.Wallet.Receipts.Awaited.{is_receipt, handle_event_lem}

module _ (t : Watch) where
  -- A step in which no payment is received.
  abbrev pub IsQuiet : {s s' : System t} → Step t s s' → Type 0
  IsQuiet arrives = ⊥
  IsQuiet (other_event e) = is_receipt e ≡ false
  IsQuiet (handles e es h) = Unit
  IsQuiet (looks h) = Unit
  IsQuiet (marks h) = Unit
  IsQuiet (wakes h w) = Unit

  pub data QuietSteps : System t → System t → Type 0 where
    quiet_stay : {s : System t} → QuietSteps s s
    quiet_step :
        {s s' s'' : System t} (st : Step t s s') → IsQuiet st → QuietSteps s' s'' → QuietSteps s s''

  -- Nothing wakes the waiter, who has not seen the payment.
  abbrev Deaf : t.Channel → Waiter t → Type 0
  Deaf c looking = ⊥
  Deaf c found = ⊥
  Deaf c marking = Unit
  Deaf c (waiting flag) = t.has_changed c flag ≡ false

  abbrev Lost : System t → Type 0
  Lost s = All (λ e. is_receipt e ≡ false) s.events × Deaf s.channel s.waiter

  handled-Deaf :
      (e : Event) (c : t.Channel) (w : Waiter t)
      → is_receipt e ≡ false
      → Deaf c w
      → Deaf (handle_event t e c) w
  handled-Deaf e c w q d = rw (handle_event_lem t e c q) d

  module _ (laws : WatchLaws t) where
    Step-Lost : {s s' : System t} (st : Step t s s') → IsQuiet st → Lost s → Lost s'
    Step-Lost arrives q l = absurd q
    Step-Lost (other_event {s = s} e) q (none, d) = (All-append _ s.events (e ∷ []) none (q, tt), d)
    Step-Lost (handles {s = s} e es h) q (none, d) =
        let (qe, rest) = subst (All (λ e. is_receipt e ≡ false)) h none in
        (rest, handled-Deaf e s.channel s.waiter qe d)
    Step-Lost (looks {s = s} h) q (none, d) = absurd (subst (Deaf s.channel) h d)
    Step-Lost (marks {s = s} h) q (none, d) = (none, laws.marked s.channel s.payment_receipt_flag)
    Step-Lost (wakes {s = s} h w) q (none, d) = let same = subst (Deaf s.channel) h d in cc

    QuietSteps-Lost : {s s' : System t} → QuietSteps s s' → Lost s → Lost s'
    QuietSteps-Lost quiet_stay l = l
    QuietSteps-Lost (quiet_step st q more) l = QuietSteps-Lost more (Step-Lost st q l)

    not_found : (s : System t) → Lost s → s.waiter ≢ found
    not_found s (none, d) h = subst (Deaf s.channel) h d

    -- From any state in which a rebalance looks for a payment that does not show yet, and all
    -- events are handled, steps are possible after which the payment shows, but the rebalance
    -- never finds it unless a further payment is received: its receipt is handled between the look
    -- and the mark of the wait.
    pub receipt_lost :
        (s : System t)
        → s.waiter ≡ looking
        → s.shown ≡ false
        → s.events ≡ []
        → (s' : System t) × Steps t s s'
          × (s'.shown ≡ true)
          × ((s'' : System t) → QuietSteps s' s'' → s''.waiter ≢ found)
    unfolding look
    receipt_lost s waiter shown events = (
      record s {
        events = [];
        channel = handle_event t payment_received s.channel;
        shown = true;
        waiter = look t s.shown;
      },
      step (looks waiter) (
          step arrives (
            step (handles payment_received [] (ap (λ es. es ++ payment_received ∷ []) events))
              stay)),
      refl,
      λ s'' quiet. not_found s'' (QuietSteps-Lost quiet (tt, rw shown tt)),
    )
