-- ===== src/Mirror.antt =====
-- The mirror of src/mirror.rs: the translation between the wrapped app's output and its viewers.
pub mod State
pub mod Staging
pub mod HostSide
pub mod Views
pub mod Process
pub mod Keeps
pub mod Valid
pub mod Held
pub mod Chunks
pub mod Device
pub mod Archived
pub mod Harvested
pub mod Captured
pub mod Crop
pub mod Region
pub mod Model
pub mod Ticker
mod Tests
