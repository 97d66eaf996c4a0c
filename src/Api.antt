-- ===== src/Api.antt =====
-- apps/api: the indexer, the health monitor and the HTTP answers.
pub mod Health
pub mod Indexer
pub mod App
pub mod Routes
