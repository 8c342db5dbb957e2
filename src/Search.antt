-- ===== src/Search.antt =====
-- crates/oxidarr-indexer/src/query.rs, builder.rs, cardigann.rs and indexer.rs: the requests of a search.
pub mod Query
pub mod Settings
pub mod Paths
pub mod Inputs
pub mod Build
pub mod Laws
pub mod Carried
pub mod Requests
pub mod Errors
pub mod Session
pub mod Api
