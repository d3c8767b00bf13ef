-- ===== src/Examples.antt =====
-- Concrete parsers, stores and services, and the theorems on them.
pub mod Toys
pub mod Coding
pub mod Demos
pub mod Encoding
pub mod Amounts
pub mod Parsing
pub mod Storing
pub mod Paying
pub mod Rebalancing
pub mod Running
pub mod Listings
pub mod Polls
pub mod Starting
pub mod Receipts
pub mod Resolving
pub mod Receiving
