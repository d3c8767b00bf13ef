-- ===== src/Examples/Receipts.antt =====
-- The theorems on the wait for a receipt, with a channel that counts what was sent.
use libbtcwallet.Base.{ℕ, suc, ◌≡◌, ◌≢◌, refl, arith, true, false, [], ◌∷◌, ltb}
use libbtcwallet.Wallet.Receipts.{
  Watch, WatchLaws, payment_received, channel_ready, looking, found, System, Steps,
  await_payment_receipt,
}
use libbtcwallet.Wallet.Receipts.Awaited.{await_payment_receipt_lem}
use libbtcwallet.Wallet.Receipts.Lost.{QuietSteps, receipt_lost}

abbrev counting : Watch
counting = record {
  Channel = ℕ;
  Receiver = ℕ;
  send = suc;
  mark_unchanged = λ c r. c;
  has_changed = λ c r. ltb r c;
}

counting_laws : WatchLaws counting
counting_laws = record {
  marked = λ c r. ground arith;
  sent = λ c r. ground arith;
  kept = λ c r h. ground arith;
}

await_payment_receipt_lem_example :
    await_payment_receipt counting 3 1 (channel_ready ∷ payment_received ∷ []) ≡ true
await_payment_receipt_lem_example =
    await_payment_receipt_lem counting counting_laws 3 1 (channel_ready ∷ payment_received ∷ [])

abbrev started : System counting
started = record {
  events = [];
  channel = 0;
  payment_receipt_flag = 0;
  shown = false;
  waiter = looking;
}

receipt_lost_example :
    (s' : System counting) × Steps counting started s'
    × (s'.shown ≡ true)
    × ((s'' : System counting) → QuietSteps counting s' s'' → s''.waiter ≢ found)
receipt_lost_example = receipt_lost counting counting_laws started refl refl refl
