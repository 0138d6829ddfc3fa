-- ===== src/Service.antt =====
-- The client side of cocaine12: services, their channels and sessions.
pub mod Dispatch
pub mod Sessions
pub mod Channel
pub mod Connect
pub mod Locators
pub mod Client
