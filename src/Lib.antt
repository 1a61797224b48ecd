-- ===== src/Lib.antt =====
-- The trading terminal's cluster pipeline: exchange trades become footprint clusters (volume per
-- price bucket and window), which are streamed live, stored in ClickHouse and served as history.
--
-- The parts and their files. A session of crates/cluster-ingest receives trades, with prices and
-- quantities scaled to integers by an exchange adapter, and sends them to one task per symbol and
-- window of crates/cluster-engine. The task drives an aggregator and publishes its frames on the
-- bus, from which the gRPC stream of crates/cluster-api and the sink of crates/clickhouse-sink read.
-- The history endpoint of crates/cluster-api reads ClickHouse back.
--   Core: crates/exchange-core/src/types.rs, and in Core/Wire the parsers of wire names of
--     crates/cluster-api/src/stream_server.rs.
--   Engine/Aggregator: crates/cluster-engine/src/aggregator.rs. `record_trade`, `update_ohlc` and
--     `add_trade` are parts of `Aggregator::ingest`; `step` and `run` are the calls of the task.
--   Engine/Bus, Engine/Task: bus.rs and task.rs of the same crate. An event is what wakes the
--     select loop; `close` is the turn on which the channel is closed.
--   Wal: crates/wal. `next_payload` is the second half of `WalReader::next_frame`.
--   Sink: crates/clickhouse-sink/src/lib.rs. A `Writer` holds the locals of `ChWriter::run`, and
--     `on_row`, `on_tick` and `on_close` are the arms of its loop; an `Env` holds what a turn reads.
--   Scale: crates/exchange-binance/src/scale.rs.
--   Adapters: the parsers of trades, of instruments and of volumes of crates/exchange-bybit,
--     exchange-bitget, exchange-okx (Okx: scale.rs with the table of contract values in the parent,
--     okx_trade.rs in Trades, instruments_info.rs in Instruments), exchange-hyperliquid,
--     exchange-bingx and exchange-kucoin (their instruments in Bingx/Instruments and
--     Kucoin/Instruments). `read_print` is the body that the `parse_trade` of Bybit, Bitget and OKX
--     have in common, `listed` or `turn` a turn of the loop over instruments.
--     Ingest/Discovery joins them with a cycle of the supervisor.
--   Ingest: the frame handler and the gap detection of crates/cluster-ingest/src/binance_session.rs;
--     config.rs of the same crate (Ingest/Config: Retention holds the TTL clauses, Startup the
--     checks of main.rs), and binance_supervisor.rs: Ingest/Universe picks the symbols,
--     Ingest/Supervisor holds one discovery cycle (`reconcile` is `reconcile_once` after the fetch)
--     and in Backoff the turns of `run_session_loop`; Ingest/Fanout is the loop that `spawn_symbol`
--     starts to give each trade to every timeframe, over tokio's `try_send` as a parameter.
--   Mexc: pb.rs, the two parsers of mexc_trade.rs (the futures in Futures) and the two of
--     instruments_info.rs of crates/exchange-mexc. `while_fields` is the loop that the three decoders
--     share, and an `_arm` is the body of its match.
--   Api: crates/cluster-api/src/timeframes.rs, cluster_history.rs (Api/Range: the parameters in
--     the parent, the query in Sql, the rows in Rows, `cluster_range` in Handler; Query and Columns
--     are about the query's conditions and the answer's columns),
--     stream_server.rs (Api/Stream) and auth.rs (Api/Auth).
--   Common: integers of a machine's width, maps, texts and lists. Examples: concrete runs.
--
-- Representation. An i64 is an integer and a u32 or u64 a natural number, with the wrapping or
-- saturation of each operation written out; hash maps and sets are association lists and lists;
-- text is a list of code points, and in Api/Auth, in MEXC's decoder and in its spot
-- parser of bytes; a panic is `none`; the arithmetic is a release build's, which wraps; instants are milliseconds that a turn reads.
-- Fields named open, close, high and low in the program end in _price here.
--
-- Bounds and fuel. Printing an integer takes 20 rounds, enough for 64 bits (Common/Show). A replay
-- of the log takes one round per frame and one more (Wal/Replay). A loop over the fields of a
-- message takes as many rounds as the message has bytes, and Mexc/Protobuf/Ending shows that this is
-- enough. Printing an i128 takes 40 rounds. Euclid's loop for contract values (Adapters/Okx) takes one
-- round more than its second number, which each round makes smaller. All other loops follow their
-- input.
--
-- Parameters. crc32fast, tokio's broadcast channel, serde_json (the record Json of Common/Json
-- gives a value's accessors), ClickHouse's answers and the outcomes of sends and inserts are
-- arguments, and so are an HTTP header's text, the change of case of a text, the order of volumes,
-- which of them are NaN, and the text of an f64, and the answers of an exchange. A `sort_by` that
-- compares a NaN may panic or leave any order: `rank_specs` gives nothing then. An insert that
-- returns an error may have been applied nevertheless, so the sink's theorems speak of inserts that
-- succeeded.
--
-- Not modelled: sockets, timers, HTTP, TOML, the file system's errors, log texts; a supervisor's
-- rows for ClickHouse and its shutdown, the metrics of crates/cluster-api; of the exchange adapters
-- the connections, and what serde derives for Binance and Aster. The
-- adapters' copies of `parse_scaled` are not modelled again.
pub mod Common
pub mod Core
pub mod Engine
pub mod Wal
pub mod Sink
pub mod Scale
pub mod Api
pub mod Ingest
pub mod Mexc
pub mod Adapters
pub mod Examples
