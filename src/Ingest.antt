-- ===== src/Ingest.antt =====
-- crates/cluster-ingest/src/binance_session.rs: what a session does with a frame and a trade. JSON
-- and the parser, the routes and the trade channels are given by their results; times are
-- milliseconds.
pub mod Gaps
pub mod Config
pub mod Universe
pub mod Discovery
pub mod Supervisor
pub mod Fanout
use trading_terminal_cluster.Common.{
  ℕ, ◌+◌, ◌-◌, ◌%◌, ◌^◌, List, [], ◌∷◌, Bool, true, false, Option, none, some,
}
use trading_terminal_cluster.Common.Tests.{if◌then◌else◌, ltb, leb}
use trading_terminal_cluster.Common.Machine.{add_u64, max_u64}
use trading_terminal_cluster.Common.Eq.{nat_eq, list_eq}
use trading_terminal_cluster.Common.Map.{lookup, insert}
use trading_terminal_cluster.Common.Text.{Text}

pub record SessionStats : Type 0 where
  pub trades_emitted : ℕ
  pub trades_dropped_backpressure : ℕ
  pub trades_dropped_closed : ℕ
  pub parse_errors : ℕ
  pub frames_undecodable : ℕ
  pub pongs_sent : ℕ
  pub gaps_detected : ℕ
  pub trades_missing : ℕ

abbrev pub no_stats : SessionStats
no_stats = record {
  trades_emitted = 0;
  trades_dropped_backpressure = 0;
  trades_dropped_closed = 0;
  parse_errors = 0;
  frames_undecodable = 0;
  pongs_sent = 0;
  gaps_detected = 0;
  trades_missing = 0;
}

pub record Session : Type 0 where
  pub stats : SessionStats
  pub gap_state : List (Text × ℕ)
  pub last_gap_warn : Option ℕ

abbrev pub gap_warn_interval : ℕ
gap_warn_interval = 5000

-- `a - b` and `saturating_add` on u64.
unfoldable pub sub_u64 : ℕ → ℕ → ℕ
sub_u64 a b = (a + 2 ^ 64 - b) % 2 ^ 64

unfoldable pub saturating_add_u64 : ℕ → ℕ → ℕ
saturating_add_u64 a b = if leb (a + b) max_u64 then a + b else max_u64

unfoldable pub warned_at : Option ℕ → ℕ → Option ℕ
warned_at none now = some now
warned_at (some t) now = if leb gap_warn_interval (now - t) then some now else some t

-- The counters of a hole.
unfoldable pub count_gap : ℕ → ℕ → ℕ → Session → Session
unfolding sub_u64 saturating_add_u64 warned_at
count_gap now last trade_id s =
    let missed = sub_u64 (sub_u64 trade_id last) 1 in
    record s {
      stats = record s.stats {
        gaps_detected = add_u64 s.stats.gaps_detected 1;
        trades_missing = saturating_add_u64 s.stats.trades_missing missed;
      };
      last_gap_warn = warned_at s.last_gap_warn now;
    }

unfoldable pub detect_gap : ℕ → Text → ℕ → Session → Session
unfolding count_gap
detect_gap now symbol trade_id s = elim (lookup symbol s.gap_state) [
  | none ↦ record s { gap_state = insert symbol trade_id s.gap_state }
  | some last ↦
      let counted = if ltb (add_u64 last 1) trade_id then count_gap now last trade_id s else s in
      if ltb last trade_id
      then record counted { gap_state = insert symbol trade_id counted.gap_state }
      else counted
]

-- What `try_send` of a trade returns.
pub data Sent : Type 0 where
  sent full closed : Sent

unfoldable pub count_sent : Sent → SessionStats → SessionStats
count_sent sent s = record s { trades_emitted = add_u64 s.trades_emitted 1 }
count_sent full s = record s {
  trades_dropped_backpressure = add_u64 s.trades_dropped_backpressure 1;
}
count_sent closed s = record s { trades_dropped_closed = add_u64 s.trades_dropped_closed 1 }

-- A frame, by how far it gets: no JSON; no symbol, no route or no trade; a trade that does not
-- parse; a trade with its symbol and id, and what the channel does with it.
pub data Payload : Type 0 where
  undecodable ignored unparsable : Payload
  parsed : Text → ℕ → Sent → Payload

unfoldable pub handle_payload : ℕ → Payload → Session → Session
unfolding detect_gap count_sent
handle_payload now undecodable s = record s {
  stats = record s.stats { frames_undecodable = add_u64 s.stats.frames_undecodable 1 };
}
handle_payload now ignored s = s
handle_payload now unparsable s = record s {
  stats = record s.stats { parse_errors = add_u64 s.stats.parse_errors 1 };
}
handle_payload now (parsed symbol trade_id outcome) s =
    let d = detect_gap now symbol trade_id s in record d { stats = count_sent outcome d.stats }

-- The frames of a session, each at its time.
unfoldable pub handle_all : List (ℕ × Payload) → Session → Session
unfolding handle_payload
handle_all [] s = s
handle_all ((now, p) ∷ ps) s = handle_all ps (handle_payload now p s)
