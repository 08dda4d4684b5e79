-- ===== src/Session.antt =====
-- The wrapper's session (src/main.rs): its clients, and the view that they share.
pub mod Client
pub mod View
pub mod Sweep
pub mod Handler
pub mod Admission
pub mod Output
mod Examples
