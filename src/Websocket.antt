-- ===== src/Websocket.antt =====
-- The Go package websocket.
pub mod Codec
pub mod HexTrip
pub mod Config
pub mod Normalize
pub mod Proxy
pub mod Client
pub mod Frames
pub mod Wellformed
pub mod Calls
pub mod Sessions
pub mod Peer
pub mod Deliveries
pub mod Runs
pub mod HexRelay
pub mod Listen
mod Tests
