-- ===== src/ProxyPool.antt =====
-- The Go package proxypool.
pub mod Types
pub mod Item
pub mod Pool
pub mod Manager
pub mod Default
mod Tests
