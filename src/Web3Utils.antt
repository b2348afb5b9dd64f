-- ===== src/Web3Utils.antt =====
-- The Go packages under web3utils.
pub mod Bitcoin
