-- ===== src/Lib.antt =====
-- libbtcwallet: a wallet that keeps small balances with a custodian and moves larger ones to its own
-- lightning channels, and the parser of payment instructions that it pays by.
--
-- The parts, with the code that each stands for:
--
-- - Amount: bitcoin-payment-instructions/src/amount.rs. `Amount` is the number of milli-satoshis
--   inside the Rust newtype; each operation has its name there. `Amount.Format` is the `Display` of
--   `FormattedAmount`.
-- - Instructions: bitcoin-payment-instructions/src/lib.rs. `Instructions` has the data types and the
--   accessors of amounts; `Percent` is `un_percent_encode`; `Uri` and `Meta` are the two loops over the
--   parameters of a `bitcoin:` URI, one function per arm of their `if` chains; `Check` is the
--   comparison of the amounts at the end of that branch; `Parse` puts them together into
--   `parse_resolved_instructions` and `parse_payment_instructions`.
-- - Receive: bitcoin-payment-instructions/src/receive.rs, `parse_receive_instructions`, which uses the
--   helpers of `Instructions.Uri`.
-- - Resolvers: `Http` is bitcoin-payment-instructions/src/http_resolver.rs, the lookup of a name by
--   DNS queries over HTTPS, `resolve_dns`; `Onion` is onion_message_resolver.rs beside it, which
--   queues queries as onion messages. `Wallet.Parse` uses the first with the parser.
-- - Store: libbtcwallet/src/store.rs. `Store.Ids` is the text of a `PaymentId` and its parser;
--   `Store.Encoding` is how a record is written, with the ids of the variants and fields that the
--   source gives; `Store.Metadata` is `TxMetadataStore`, the map and the key-value store that
--   mirrors it.
-- - Wallet: libbtcwallet/src/lib.rs, lightning_wallet.rs and custodial_wallet.rs. `Wallet.Lightning` and
--   `Wallet.Custodial` are the two sides; `Wallet.Balance` decides what moves from one to the other;
--   `Wallet.Info` is `PaymentInfo::set_amount`; `Wallet.Pay` is `Wallet::pay`, which tries the methods
--   of parsed instructions on both sides and records what was paid in the store; `Wallet.Rebalance` is
--   `do_custodial_rebalance`, which moves custodial balance into the channels, and `Wallet.Listing` is
--   `list_transactions`, which shows what both sides and the store know; `Wallet.Polling` is a round
--   of the task that `Wallet::new` spawns, which starts rebalances; `Wallet.ReceiveUri` is
--   `get_single_use_receive_uri`, with the text that it writes; `Wallet.Receipts` has the task that
--   handles the node's events and `await_payment_receipt`, as steps that interleave with the wait of
--   a rebalance; `Wallet.Tasks` has the payments of the user, the polling task and the rebalances
--   that both start as steps of one system, with the lock `balance_mutex`; `Wallet.Init` is
--   `Wallet::new` up to that task, with the `init` of both sides.
-- - Demo: demo/src/main.rs, the loop over the lines that a user types, with what a line prints as a
--   value; the words are parted and the numbers read as by `split` and `u64::from_str`.
-- - Base: what all share, Rust's strings as their UTF-8 bytes with the panics of slicing, `Result` and
--   an outcome that may also be a panic, hash maps as association lists. Examples: concrete parsers,
--   stores and services that the theorems are applied to.
--
-- Code of other crates is a parameter: the parsers of addresses, invoices and offers
-- (`Instructions.External`), DNS proofs, HTTP requests and base64 (`Resolvers.Http`), the network
-- graph (`Resolvers.Onion`), the parsers of keys and refunds (`Receive`), the texts of ids
-- (`Store`), the key-value store (`Store.Kv`), the macros that encode fields and variants
-- (`Store.Encoding`), the watch channel (`Wallet.Receipts`), what the start calls (`Wallet.Init`),
-- and the Spark SDK and ldk-node (`Wallet.Services`), whose calls take a world and return the next
-- one. What is relied on is a hypothesis: `IdLaws`, `KvLaws`, `CodecLaws`, `TlvLaws`, `Writes`,
-- `UriLaws`, `QueryBound`, `HttpHrnResolver`, `WatchLaws`.
--
-- Arithmetic is that of a release build: unchecked operations of `u64` wrap at 2 ^ 64, and debug
-- assertions are off. Four loops run on fuel: the digits of a number, by the number itself, and
-- the stripping of zeros behind the decimal point, by the 8 places there are, enough for every
-- amount by the round trip of `Amount.Format`; the wait of a rebalance, one unit for each look
-- at the payments, which the code does not bound; and the lookup of a name, one unit for each
-- query, enough where the proof builder bounds its queries. All other loops recurse on a list.
--
-- An `async` function is what it returns once its futures are done, in one task: `Wallet::pay`
-- reads the balances once, and nothing else runs in between. `Wallet.Receipts` and `Wallet.Tasks`
-- are what runs at once: there a rebalance is cut where it waits, at the lock and at its payment,
-- and the world may change at any time. A lock is given to any of those that wait for it, which
-- allows more orders than tokio's queue. In `Wallet.Tasks` `pay` with its awaits is one step, and
-- so is a round of the polling task, which reads the clock once, in whole seconds; the panics of a
-- write that fails are no steps, and the theorems on the store and on marks ask for writes that
-- succeed. A `Bytes32` is a list of bytes whose length is not kept. Not modelled: the second that
-- the polling task sleeps, and the `sync` behind it, which only calls the SDK; what the node writes
-- to the store it shares; the constants of the demo's configuration; logging.
pub mod Base
pub mod Amount
pub mod Instructions
pub mod Receive
pub mod Resolvers
pub mod Store
pub mod Wallet
pub mod Demo
pub mod Examples
