-- ===== src/Mexc.antt =====
-- crates/exchange-mexc: the adapter of the MEXC exchange.
pub mod Protobuf
pub mod Trades
pub mod Futures
pub mod Instruments
