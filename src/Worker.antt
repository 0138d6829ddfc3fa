-- ===== src/Worker.antt =====
-- The worker of cocaine12: the protocol dispatcher, the streams of requests and responses, and
-- the event loop.
pub mod Tokens
pub mod Dispatch
pub mod Stream
pub mod Response
pub mod State
pub mod Loop
pub mod Events
