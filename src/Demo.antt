-- ===== src/Demo.antt =====
-- demo/src/main.rs: the loop over the lines that a user types, with a wallet behind it. What is printed
-- is kept as the value that it shows.
pub mod Sent
use libbtcwallet.Base.{
  ℕ, Option, none, some, List, [], ◌∷◌, ◌++◌, ◌||◌, Bytes, codes, beq, split, parse_u64, Result, ok,
  err, Outcome, done, fail, panic, ◌>>=◌, if◌then◌else◌,
}
use libbtcwallet.Amount.{from_sats, from_milli_sats}
use libbtcwallet.Instructions.External.{Externals, HrnResolver}
use libbtcwallet.Instructions.{PaymentInstructions, ParseError}
use libbtcwallet.Store.{IdExternals, PaymentId, Transaction}
use libbtcwallet.Store.Kv.{KvStore, Codec}
use libbtcwallet.Store.Metadata.{TxMetadataStore}
use libbtcwallet.Wallet.Services.{Services}
use libbtcwallet.Wallet.Errors.{WalletError}
use libbtcwallet.Wallet.Balance.{Tunables, Balances, get_balance}
use libbtcwallet.Wallet.Info.{PaymentInfo, set_amount}
use libbtcwallet.Wallet.Pay.{pay}
use libbtcwallet.Wallet.Parse.{parse_payment_instructions}
use libbtcwallet.Wallet.ReceiveUri.{get_single_use_receive_uri}
use libbtcwallet.Wallet.Listing.{list_transactions}

module _ {x : Externals} {ids : IdExternals} (s : Services x ids) (kv : KvStore) where
  -- The wallet between two lines, with the rebalances that its payments started.
  pub record Session : Type 0 where
    pub world : s.World
    pub tx_metadata : TxMetadataStore ids kv
    pub spawned : List (PaymentId ids)

  pub data Printed : Type 0 where
    uri : Result (WalletError s) Bytes → Printed
    instructions : Result (ParseError x) (PaymentInstructions x) → Printed
    payment_result : Result (WalletError s) (Unit {0}) → Printed
    transactions : List Transaction → Printed
    balances : Balances → Printed
    bad_amount bad_payment_instructions amount_mismatch unknown_instruction : Printed

-- `words.next().unwrap_or("")`
abbrev pub next_word : List Bytes → Bytes
next_word [] = []
next_word (w ∷ ws) = w

abbrev pub later_words : List Bytes → List Bytes
later_words [] = []
later_words (w ∷ ws) = ws

module _ {x : Externals} {ids : IdExternals} (s : Services x ids) (codec : Codec ids) (kv : KvStore)
    (network : x.Network) (tunables : Tunables) (resolver : HrnResolver x) where
  abbrev pub Answer : Type 0
  Answer = Outcome (Unit {0}) (Printed s kv × Session s kv)

  unfoldable pub deposit : Option ℕ → Session s kv → Answer
  unfolding from_sats
  deposit none st = done (bad_amount, st)
  deposit (some amt) st =
      let (printed, w) = get_single_use_receive_uri s tunables (some (from_sats amt)) st.world in
      done (uri printed, record st { world = w })

  unfoldable pub show_instructions :
      Outcome (ParseError x) (PaymentInstructions x) → Session s kv → Answer
  show_instructions (done i) st = done (instructions (ok i), st)
  show_instructions (fail e) st = done (instructions (err e), st)
  show_instructions panic st = panic

  unfoldable pub send_info : Result (Unit {0}) (PaymentInfo x) → Session s kv → Answer
  send_info (err _) st = done (amount_mismatch, st)
  send_info (ok info) st = do
    (res, p) ← pay s codec kv info st.world st.tx_metadata
    done (
      payment_result res,
      record { world = p.world; tx_metadata = p.tx_metadata; spawned = p.spawned ++ st.spawned },
    )

  unfoldable pub send_amount : PaymentInstructions x → Option ℕ → Session s kv → Answer
  unfolding send_info from_milli_sats
  send_amount i none st = done (bad_amount, st)
  send_amount i (some amt) st = send_info (set_amount i (from_milli_sats amt)) st

  unfoldable pub send :
      Outcome (ParseError x) (PaymentInstructions x) → Option ℕ → Session s kv → Answer
  unfolding send_amount
  send (done i) amt st = send_amount i amt st
  send (fail e) amt st = done (bad_payment_instructions, st)
  send panic amt st = panic

  -- `list_transactions().await.unwrap()`
  unfoldable pub show_transactions :
      Result (WalletError s) (List Transaction) × s.World → Session s kv → Answer
  show_transactions (ok ts, w) st = done (transactions ts, record st { world = w })
  show_transactions (err e, w) st = panic

  -- The `match` on the first word.
  unfoldable pub run_command : Bytes → List Bytes → Session s kv → Answer
  unfolding deposit show_instructions send show_transactions
  run_command command words st =
      let parsed = parse_payment_instructions x network resolver (next_word words) in
      if beq command (codes "deposit")
      then deposit (parse_u64 (next_word words)) st
      else if beq command (codes "parse")
      then show_instructions parsed st
      else if beq command (codes "send")
      then send parsed (parse_u64 (next_word (later_words words))) st
      else if beq command (codes "transactions") || beq command (codes "txn")
      then show_transactions (list_transactions ids s st.tx_metadata.tx_metadata st.world) st
      else if beq command (codes "balance") || beq command (codes "bal")
      then done (balances (get_balance s st.world), st)
      else done (unknown_instruction, st)

  unfoldable pub handle_line : Bytes → Session s kv → Answer
  unfolding run_command
  handle_line line st =
      let words = split b' ' line in run_command (next_word words) (later_words words) st

  -- The loop ends at the end of the input, or where it cannot be read.
  unfoldable pub demo_loop {ℓ} :
      {E : Type ℓ}
      → List (Result E Bytes)
      → Session s kv
      → Outcome (Unit {0}) (List (Printed s kv) × Session s kv)
  unfolding handle_line
  demo_loop [] st = done ([], st)
  demo_loop (err e ∷ lines) st = done ([], st)
  demo_loop (ok line ∷ lines) st = do
    (printed, st') ← handle_line line st
    (later, st'') ← demo_loop lines st'
    done (printed ∷ later, st'')
