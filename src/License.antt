-- ===== src/License.antt =====
-- The crate crates/cursdel-license: signed licences, their validation on one machine, and which of
-- the licences that are installed is in effect.
pub mod Editions
pub mod Algorithms
pub mod Formats
pub mod Keys
pub mod Envelope
pub mod Claims
pub mod Validate
pub mod Resolve
pub mod Disk
pub mod Store
pub mod Service
pub mod Http
pub mod Commands
