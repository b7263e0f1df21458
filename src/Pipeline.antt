-- ===== src/Pipeline.antt =====
-- crates/cursdel-core/src/pipeline.rs. `Delete` is one object with its retries, `Log` the failures
-- kept, `Files` and `Dirs` the workers and the coordinator, `Single` an operation on one object.
pub mod Delete
pub mod Retries
pub mod Tries
pub mod Tally
pub mod Log
pub mod Files
pub mod Dirs
pub mod Single
pub mod DryRun
pub mod System
pub mod Outcomes
