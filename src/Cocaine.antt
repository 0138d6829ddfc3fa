-- ===== src/Cocaine.antt =====
-- cocaine/: the framework of the older protocol.
pub mod Message
pub mod Pair
pub mod Service
pub mod Relay
pub mod Worker
pub mod Socket
pub mod Http
pub mod Resolve
