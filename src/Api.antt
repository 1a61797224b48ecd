-- ===== src/Api.antt =====
-- crates/cluster-api: what its REST and gRPC handlers decide.
pub mod Timeframes
pub mod Range
pub mod Stream
pub mod Auth
