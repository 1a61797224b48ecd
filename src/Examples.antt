-- ===== src/Examples.antt =====
-- Concrete runs of the program's parts, to which the theorems are applied.
pub mod Engine
pub mod Storage
pub mod Api
pub mod Access
pub mod Supervisor
pub mod Mexc
pub mod Documents
pub mod Adapters
pub mod Contracts
