-- ===== src/Target.antt =====
-- crates/cursdel-core/src/target.rs: root protection. `Lexical` is its pure layer, `Validate` the
-- one that asks the file system.
pub mod Lexical
pub mod Depth
pub mod Validate
pub mod Safety
pub mod Ascii
