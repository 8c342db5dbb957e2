-- ===== src/Examples.antt =====
-- The theorems at concrete inputs, and the data that they run on.
pub mod Data
pub mod Run
mod Syncs
mod Database
mod Requests
mod Templates
mod Searches
mod Filters
mod Configs
mod Updates
mod Pages
mod Extractions
mod Logins
