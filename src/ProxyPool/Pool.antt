-- ===== src/ProxyPool/Pool.antt =====
-- proxypool/pool.go.
pub mod State
pub mod Refresh
pub mod Get
pub mod Queries
pub mod Keys
pub mod Steps
pub mod Safety
pub mod Limits
pub mod Serving
pub mod Rotation
pub mod Counts
pub mod RefreshLaws
