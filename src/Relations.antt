-- ===== src/Relations.antt =====
-- crates/zeb-runtime/src/relations.rs: relations between entities as tables, with a journal that
-- undoes a failed turn. The definitions are in `Table`, `Query`, `Walk` and `Update`.
pub mod Table
pub mod Partners
pub mod Rows
pub mod Undo
pub mod Over
pub mod Steps
pub mod Displace
pub mod Free
pub mod Set
pub mod Turn
pub mod Query
pub mod Walk
pub mod Update
pub mod Revert
pub mod Create
pub mod Reach
pub mod Declared
pub mod Native
mod Tests
