-- ===== src/Wallet.antt =====
-- The wallet (libbtcwallet/src): its two sides, and what it does with both.
pub mod Services
pub mod Errors
pub mod Lightning
pub mod Custodial
pub mod Balance
pub mod Info
pub mod Keeps
pub mod Tasks
pub mod Pay
pub mod Rebalance
pub mod Listing
pub mod Polling
pub mod ReceiveUri
pub mod Parse
pub mod Receipts
pub mod Init
