-- ===== src/Examples/Storage.antt =====
-- Concrete runs of crates/wal and crates/clickhouse-sink.
use trading_terminal_cluster.Common.{
  ℕ, ◌+◌, ◌^◌, ◌%◌, ◌<◌, ◌≤◌, List, [], ◌∷◌, ◌≡◌, refl, arith, Option, none, some, false, true,
  Bool,
}
use trading_terminal_cluster.Common.Int.{ℤ, pos}
use trading_terminal_cluster.Common.Lists.{All, length, take}
use trading_terminal_cluster.Common.Text.{Text, codes, all_chars}
use trading_terminal_cluster.Wal.{
  max_frame_len, to_le_bytes, WalWriter, WalReader, open_writer, open_reader, ok,
}
use trading_terminal_cluster.Wal.Replay.{
  append_all, encode_all, replay, clean, Recovers, replay-cut, replay-append_all,
}
use trading_terminal_cluster.Sink.{
  ClusterRow, ChWriterConfig, Writer, Env, Event, row, pulse, start, run, turns,
}
use trading_terminal_cluster.Sink.Batch.{Ledger, received, run-Ledger}
use trading_terminal_cluster.Sink.Bounds.{Bounded, start-turns-Bounded}
use trading_terminal_cluster.Sink.Json.{
  Serialized, no_rows, one_more, serialize_jsoneachrow, lines, serialize_jsoneachrow-lines,
}
use trading_terminal_cluster.Sink.Url.{urlencode, url_decode, url_decode-urlencode}

-- A checksum into 32 bits.
abbrev add_bytes : List ℕ → ℕ
add_bytes [] = 0
add_bytes (b ∷ bs) = b + add_bytes bs

abbrev checksum : List ℕ → ℕ
checksum bs = add_bytes bs % 2 ^ 32

checksum_u32 : (bs : List ℕ) → checksum bs < 2 ^ 32
checksum_u32 bs = omega arith

abbrev frames : List (List ℕ)
frames = codes "first" ∷ codes "second" ∷ []

frames_fit : All (λ p. length p ≤ max_frame_len) frames
frames_fit = (omega arith, (omega arith, tt))

frames_small : length (encode_all checksum frames) < 2 ^ 64
unfolding to_le_bytes
frames_small = omega arith

replay-cut_example :
    (w : WalWriter) × (append_all checksum (open_writer []) frames ≡ ok w)
    × Recovers checksum checksum_u32 3 20 (open_reader (take 20 w.file)) frames
replay-cut_example = replay-cut checksum checksum_u32 frames 20 frames_fit frames_small

replay-append_all_example :
    (w : WalWriter) × (append_all checksum (open_writer []) frames ≡ ok w)
    × (r : WalReader) × (replay checksum 3 (open_reader w.file) ≡ (frames, clean, r))
replay-append_all_example = replay-append_all checksum checksum_u32 frames frames_fit

abbrev a_row : ℤ → ClusterRow
a_row price = record {
  exchange = codes "BINANCEF";
  market_type = codes "perp";
  quote = codes "USDT";
  symbol = codes "BTCUSDT";
  window_start = pos 60_000;
  price = price;
  price_scale = 2;
  bid_qty = pos 5;
  ask_qty = pos 0;
  trades = 1;
  qty_scale = 3;
  ingest_region = codes "tokyo";
  open_price = pos 100;
  close_price = pos 100;
  high_price = pos 100;
  low_price = pos 100;
}

abbrev small_config : ChWriterConfig
small_config = record { batch_size = 2; flush_interval = 2000; max_buffer_rows = 2 }

abbrev clock_at : ℕ → Bool → Env
clock_at now up = record {
  drop_time = now;
  gate_time = now;
  flush_time = now;
  accepts = λ rows. up;
}

-- ClickHouse is down, then up again.
abbrev outage : List Event
outage =
    row (a_row (pos 1)) (clock_at 0 false)
    ∷ row (a_row (pos 2)) (clock_at 10 false)
    ∷ row (a_row (pos 3)) (clock_at 20 false)
    ∷ pulse (clock_at 5000 true)
    ∷ row (a_row (pos 4)) (clock_at 5001 true)
    ∷ []

run-Ledger_example :
    Ledger
      (run small_config 0 outage (clock_at 6000 true)).0
      (run small_config 0 outage (clock_at 6000 true)).1
      (received outage)
run-Ledger_example = run-Ledger small_config 0 outage (clock_at 6000 true) (omega arith)

start-turns-Bounded_example :
    Bounded small_config (turns small_config outage (start small_config 0)).0
start-turns-Bounded_example = start-turns-Bounded small_config 0 outage

abbrev waiting : Writer
waiting = record {
  batch = a_row (pos 1) ∷ a_row (pos 2) ∷ [];
  stats = record { batches_ok = 0; batches_err = 1; rows_ok = 0; rows_dropped = 0 };
  next_attempt = 4000;
  backoff = 4000;
  last_drop_warn = none;
}

abbrev row_text : ClusterRow → Option Text
row_text r = some r.symbol

serialize_jsoneachrow-lines_example :
    (body : Text) × (serialize_jsoneachrow row_text (a_row (pos 1) ∷ a_row (pos 2) ∷ [])
      ≡ some body)
    × (lines body ≡ codes "BTCUSDT" ∷ codes "BTCUSDT" ∷ [])
serialize_jsoneachrow-lines_example =
    serialize_jsoneachrow-lines row_text (a_row (pos 1)) (a_row (pos 2) ∷ [])
      (codes "BTCUSDT" ∷ codes "BTCUSDT" ∷ []) serialized
  where
    serialized :
        Serialized row_text
          (a_row (pos 1) ∷ a_row (pos 2) ∷ [])
          (codes "BTCUSDT" ∷ codes "BTCUSDT" ∷ [])
    serialized = unfold all_chars in one_more refl refl (one_more refl refl no_rows)

url_decode-urlencode_example : url_decode (urlencode (codes "SELECT 1")) ≡ some (codes "SELECT 1")
url_decode-urlencode_example = url_decode-urlencode (codes "SELECT 1") bytes
  where
    bytes : All (λ b. b < 256) (codes "SELECT 1")
    bytes = (
      omega arith,
      (
        omega arith,
        (
          omega arith,
          (omega arith, (omega arith, (omega arith, (omega arith, (omega arith, tt))))),
        ),
      ),
    )
