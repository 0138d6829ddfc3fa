-- ===== src/Http.antt =====
-- HTTP over the worker's streams (cocaine12).
pub mod Reader
pub mod Writer
pub mod Header
pub mod Handler
