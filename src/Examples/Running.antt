-- ===== src/Examples/Running.antt =====
-- The theorems on a running wallet: a round of the polling task finds a payment of 150_000 satoshis, and
-- its rebalance takes the lock.
use libbtcwallet.Base.{
  inl, some, ◌≡◌, ◌≢◌, refl, true, false, none, [], ◌∷◌, ◌++◌, codes, ok, done, panic, get,
}
use libbtcwallet.Store.{
  PaymentId, custodial, incoming_lightning, payment, lightning,
  payment_triggering_transfer_to_non_custodial, transfer_to_non_custodial, id_key, TxMetadata,
}
use libbtcwallet.Store.Metadata.{TxMetadataStore, set_tx_caused_rebalance}
use libbtcwallet.Store.Synced.{IsSynced}
use libbtcwallet.Wallet.Services.{Services, Transfer, transfer_completed, bolt11}
use libbtcwallet.Wallet.Balance.{default, get_balance_amt}
use libbtcwallet.Wallet.Pay.Recorded.{Writes}
use libbtcwallet.Wallet.Rebalance.{do_custodial_rebalance, rebalanced}
use libbtcwallet.Wallet.Tasks.{
  Task, Mover, rebalancing, Running, just_opened, start_round, begin, take_lock, polls, locks,
  TaskSteps, stay, also,
}
use libbtcwallet.Wallet.Tasks.Exclusive.{IsExclusive, steps-IsExclusive}
use libbtcwallet.Wallet.Tasks.Chargeable.Marked.{steps_mark}
use libbtcwallet.Wallet.Tasks.Released.{Shows, IsReleased, steps-IsReleased}
use libbtcwallet.Wallet.Tasks.Stored.{steps_store}
use libbtcwallet.Instructions.{lightning_bolt11}
use libbtcwallet.Wallet.Lightning
use libbtcwallet.Wallet.Custodial
use libbtcwallet.Wallet.Lightning.{estimate_receivable_balance, status_of}
use libbtcwallet.Wallet.Rebalance.Twice.{second_rebalance_panics}
use libbtcwallet.Wallet.Rebalance.{received, await_receipt}
use libbtcwallet.Examples.Toys.{parsers, ids, memory, with_payments, arrived}
use libbtcwallet.Examples.Coding.{memory-KvLaws, ids-IdLaws, coding}

abbrev received_transfer : Transfer ids
received_transfer = record {
  id = 7 ∷ [];
  status = transfer_completed;
  total_value_sats = 150_000;
  from_us = false;
}

abbrev one_received : Services parsers ids
one_received = record (with_payments (arrived (bolt11 (codes "l") none) ∷ [])) {
  get_all_transfers = λ w. (ok (received_transfer ∷ []), w);
}

abbrev no_records : TxMetadataStore ids memory
no_records = record { tx_metadata = []; store = [] }

abbrev opened : Running one_received coding memory default
opened = just_opened one_received coding memory default 150_000 no_records

abbrev polled_task : Task ids
polled_task = record { trigger = custodial (7 ∷ []); by_polling = true }

abbrev received_metadata : TxMetadata ids
received_metadata = record { time = 7; ty = payment incoming_lightning }

abbrev polled : Running one_received coding memory default
polled = record opened {
  tx_metadata = record {
    tx_metadata = (custodial (7 ∷ []), received_metadata) ∷ [];
    store = (codes "CU-u" ++ 7 ∷ [], coding.encode received_metadata) ∷ [];
  };
  queued = polled_task ∷ [];
  polling = rebalancing;
}

round_starts : start_round one_received coding memory default opened ≡ done polled
unfolding start_round libbtcwallet.Wallet.Custodial.list_payments libbtcwallet.Base.◌>>=◌
    libbtcwallet.Wallet.Polling.see_payments libbtcwallet.Wallet.Polling.see_inbound get
    libbtcwallet.Store.Metadata.insert libbtcwallet.Store.Metadata.do_set
    libbtcwallet.Wallet.Balance.get_balance_amt default libbtcwallet.Wallet.Custodial.get_balance
    libbtcwallet.Wallet.Lightning.estimate_receivable_balance libbtcwallet.Wallet.Polling.victim
    libbtcwallet.Base.put libbtcwallet.Store.Ids.to_string
round_starts = refl

abbrev polls_once : TaskSteps one_received coding memory default opened polled
polls_once = also stay (polls refl round_starts)

abbrev moved : Running one_received coding memory default
unfolding take_lock
moved =
    take_lock one_received coding memory default polled_task [] (begin one_received default 150_000)
      polled

abbrev polled_mover : Mover ids
polled_mover = record {
  task = polled_task;
  rebalance_id = 1 ∷ [];
  expected_hash = codes "l";
  is_awaiting = false;
}

abbrev takes_it : TaskSteps one_received coding memory default opened moved
unfolding take_lock moved
takes_it = also polls_once (locks [] [] polled_task refl refl)

is_moving : moved.moving ≡ [] ++ polled_mover ∷ []
unfolding begin moved libbtcwallet.Wallet.Balance.get_balance_amt default
    libbtcwallet.Wallet.Custodial.get_balance
    libbtcwallet.Wallet.Lightning.estimate_receivable_balance
    libbtcwallet.Wallet.Lightning.get_bolt11_invoice libbtcwallet.Wallet.Custodial.pay
is_moving = refl

records : Writes memory
records st k v = (_, refl)

steps-IsExclusive_example : IsExclusive one_received coding memory default moved
steps-IsExclusive_example =
    steps-IsExclusive one_received coding memory default 150_000 no_records moved takes_it

steps_mark_example :
    (m : TxMetadataStore ids memory) × (set_tx_caused_rebalance coding memory moved.tx_metadata
        polled_mover.task.trigger
      ≡ done m)
unfolding takes_it
steps_mark_example =
    steps_mark one_received coding memory default records 150_000 no_records moved takes_it [] []
      polled_mover ((tt, tt), tt) is_moving

nothing-IsSynced : IsSynced coding memory no_records
unfolding get
nothing-IsSynced = record { mirrored = λ i. refl; named = λ k v e. cc }

steps_store_example :
    IsSynced coding memory moved.tx_metadata
    × ((id : PaymentId ids)
        → get (id_key ids) polled.tx_metadata.tx_metadata id ≢ none
        → get (id_key ids) moved.tx_metadata.tx_metadata id ≢ none)
unfolding take_lock moved
steps_store_example =
    steps_store coding memory records one_received default ids-IdLaws memory-KvLaws 150_000
      no_records polled moved nothing-IsSynced polls_once
      (also stay (locks [] [] polled_task refl refl))

abbrev trigger_metadata : TxMetadata ids
trigger_metadata = record {
  time = 7;
  ty = payment_triggering_transfer_to_non_custodial incoming_lightning;
}

abbrev half_metadata : TxMetadata ids
half_metadata = record {
  time = 7;
  ty = transfer_to_non_custodial (1 ∷ []) (5 ∷ []) (custodial (7 ∷ []));
}

abbrev recorded : TxMetadataStore ids memory
recorded = record {
  tx_metadata =
      (custodial (7 ∷ []), trigger_metadata)
      ∷ (custodial (1 ∷ []), half_metadata)
      ∷ (lightning (5 ∷ []), half_metadata)
      ∷ [];
  store =
      (codes "CU-u" ++ 7 ∷ [], coding.encode trigger_metadata)
      ∷ (codes "CU-u" ++ 1 ∷ [], coding.encode half_metadata)
      ∷ (codes "LN-x" ++ 5 ∷ [], coding.encode half_metadata)
      ∷ [];
}

rebalances :
    do_custodial_rebalance one_received coding memory polled_task.trigger 1 default 150_000
      polled.tx_metadata
    ≡ done (rebalanced (1 ∷ []) (5 ∷ []), 149_900, recorded)
unfolding do_custodial_rebalance libbtcwallet.Wallet.Rebalance.move_amount default
    libbtcwallet.Wallet.Custodial.get_balance
    libbtcwallet.Wallet.Lightning.estimate_receivable_balance
    libbtcwallet.Wallet.Rebalance.pay_invoice libbtcwallet.Wallet.Lightning.get_bolt11_invoice
    libbtcwallet.Wallet.Rebalance.after_payment libbtcwallet.Wallet.Custodial.pay
    libbtcwallet.Wallet.Rebalance.after_wait libbtcwallet.Wallet.Lightning.status_of
    libbtcwallet.Wallet.Rebalance.assign_fees libbtcwallet.Base.◌>>=◌ set_tx_caused_rebalance get
    libbtcwallet.Store.Metadata.insert libbtcwallet.Store.Metadata.do_set libbtcwallet.Base.put
    libbtcwallet.Store.Ids.to_string libbtcwallet.Store.Metadata.mark
    libbtcwallet.Store.Metadata.mark_found libbtcwallet.Store.Metadata.triggering
    libbtcwallet.Wallet.Balance.get_balance_amt libbtcwallet.Wallet.Rebalance.await_receipt
    libbtcwallet.Wallet.Rebalance.find_receipt libbtcwallet.Wallet.Rebalance.has_hash
    libbtcwallet.Wallet.Rebalance.keep_waiting libbtcwallet.Wallet.Rebalance.receipt_of
rebalances = refl

balance_again : get_balance_amt one_received default 150_000 ≡ some 150_000_000
unfolding get_balance_amt default Custodial.get_balance estimate_receivable_balance
balance_again = refl

invoice_again :
    Lightning.get_bolt11_invoice one_received 150_000 (some 150_000_000) ≡ (ok (codes "l"), 150_000)
unfolding Lightning.get_bolt11_invoice
invoice_again = refl

pays_again :
    Custodial.pay one_received 150_000 (lightning_bolt11 (codes "l")) 150_000_000
    ≡ (ok (1 ∷ []), 149_900)
unfolding Custodial.pay
pays_again = refl

arrives_again : await_receipt one_received 1 (codes "l") 149_900 ≡ (received (5 ∷ []), 149_900)
unfolding await_receipt status_of
arrives_again = refl

received_plain :
    get (id_key ids) polled.tx_metadata.tx_metadata polled_task.trigger
    ≡ some (record { time = 7; ty = payment incoming_lightning })
unfolding get
received_plain = refl

second_rebalance_panics_example :
    do_custodial_rebalance one_received coding memory polled_task.trigger 1 default 150_000 recorded
    ≡ panic
second_rebalance_panics_example =
    second_rebalance_panics one_received coding memory polled_task.trigger 7 incoming_lightning
      records default 1 1 150_000 149_900 150_000 150_000 149_900 149_900 polled.tx_metadata
      recorded (1 ∷ []) (1 ∷ []) (5 ∷ []) (5 ∷ []) 150_000_000 (codes "l") received_plain rebalances
      refl refl balance_again invoice_again pays_again arrives_again

listed_at_last :
    Shows one_received coding memory default polled_mover.expected_hash
      (one_received.list_payments (one_received.next_receipt 149_900))
listed_at_last = record {
  before = [];
  payment = arrived (bolt11 (codes "l") none);
  later = [];
  listed = refl;
  elsewhere = tt;
  preimage = none;
  same_hash = refl;
  is_over = inl refl;
}

steps-IsReleased_example : IsReleased one_received coding memory default moved
unfolding takes_it
steps-IsReleased_example =
    steps-IsReleased one_received coding memory default records 150_000 no_records moved takes_it []
      [] polled_mover 149_900 ((tt, tt), tt) is_moving listed_at_last
