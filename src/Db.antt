-- ===== src/Db.antt =====
-- crates/oxidarr-db: the SQLite persistence layer. `Kinds` has the enumerations and how a column
-- stores them, `Rows` the typed and the stored rows, `Conn` the tables and how a statement runs on
-- them, and one module for each repository.
pub mod Kinds
pub mod Rows
pub mod Conn
pub mod Indexers
pub mod Applications
pub mod Mappings
pub mod Config
pub mod Statements
pub mod Integrity
