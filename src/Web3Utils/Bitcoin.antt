-- ===== src/Web3Utils/Bitcoin.antt =====
-- The Go package web3utils/bitcoin.
pub mod Coins
pub mod Select
pub mod Unspent
pub mod Listing
pub mod Amount
pub mod AmountTrip
pub mod Sweep
pub mod InputTotals
pub mod Paid
pub mod Spent
pub mod Fees
pub mod FeeChoice
pub mod Transfers
pub mod Waits
mod Tests
