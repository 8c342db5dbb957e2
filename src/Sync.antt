-- ===== src/Sync.antt =====
-- crates/oxidarr-prowl/src/sync.rs: the application sync. `World` is what it reads and writes,
-- `Payload` what it sends, `Remote` one request each, and `Run` the passes over the rows. The
-- modules below those state what they do.
pub mod World
pub mod Payload
pub mod Remote
pub mod Run
pub mod Rules
pub mod OnTables
pub mod Requests
pub mod Frame
pub mod Report
pub mod Mapped
pub mod Outcomes
pub mod Results
