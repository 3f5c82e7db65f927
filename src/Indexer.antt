-- ===== src/Indexer.antt =====
-- The service that projects graph-element events into ArangoDB
-- (services/servicegraph-indexer/src/servicegraph_indexer).
pub mod Json
pub mod Schema
pub mod Failures
pub mod Events
pub mod Intake
pub mod Plans
pub mod Poll
pub mod Writer
pub mod Database
pub mod Initialize
pub mod Startup
mod Tests
