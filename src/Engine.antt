-- ===== src/Engine.antt =====
-- crates/cluster-engine: the aggregator, the bus that fans its frames out, and the task between them.
pub mod Aggregator
pub mod Bus
pub mod Task
