-- ===== src/Core.antt =====
-- crates/exchange-core/src/types.rs: the data that the crates exchange.
pub mod Wire
use trading_terminal_cluster.Common.{ℕ, List, Bool, true, false, ◌&&◌}
use trading_terminal_cluster.Common.Int.{ℤ}
use trading_terminal_cluster.Common.Text.{Text, codes}

pub data Exchange : Type 0 where
  binance binance_f bybit bybit_f bitget bitget_f okx okx_f hyperliquid hyperliquid_f : Exchange
  kucoin kucoin_f gate gate_f aster aster_f mexc mexc_f bingx bingx_f : Exchange

unfoldable pub wire_id : Exchange → Text
wire_id binance = codes "BINANCE"
wire_id binance_f = codes "BINANCEF"
wire_id bybit = codes "BYBIT"
wire_id bybit_f = codes "BYBITF"
wire_id bitget = codes "BITGET"
wire_id bitget_f = codes "BITGETF"
wire_id okx = codes "OKX"
wire_id okx_f = codes "OKXF"
wire_id hyperliquid = codes "HYPERLIQUID"
wire_id hyperliquid_f = codes "HYPERLIQUIDF"
wire_id kucoin = codes "KUCOIN"
wire_id kucoin_f = codes "KUCOINF"
wire_id gate = codes "GATE"
wire_id gate_f = codes "GATEF"
wire_id aster = codes "ASTER"
wire_id aster_f = codes "ASTERF"
wire_id mexc = codes "MEXC"
wire_id mexc_f = codes "MEXCF"
wire_id bingx = codes "BINGX"
wire_id bingx_f = codes "BINGXF"

unfoldable pub is_futures : Exchange → Bool
is_futures binance_f = true
is_futures bybit_f = true
is_futures bitget_f = true
is_futures okx_f = true
is_futures hyperliquid = true
is_futures hyperliquid_f = true
is_futures kucoin_f = true
is_futures gate_f = true
is_futures aster_f = true
is_futures mexc_f = true
is_futures bingx_f = true
is_futures _ = false

pub data MarketType : Type 0 where
  spot perp : MarketType

pub data Quote : Type 0 where
  usdt usdc : Quote

-- The direction of the aggressor: `bid` bought, `ask` sold.
pub data AggressorSide : Type 0 where
  bid ask : AggressorSide

pub record SymbolSpec : Type 0 where
  pub exchange : Exchange
  pub market_type : MarketType
  pub quote : Quote
  pub symbol : Text
  pub price_scale : ℕ
  pub qty_scale : ℕ
  pub tick_size : ℤ
  pub step_size : ℤ

pub record TradePrint : Type 0 where
  pub exchange_ts_ns : ℤ
  pub aggressor : AggressorSide
  pub price : ℤ
  pub qty : ℤ
  pub trade_id : ℕ

pub record ClusterBucket : Type 0 where
  pub price : ℤ
  pub bid_qty : ℤ
  pub ask_qty : ℤ
  pub trades : ℕ

pub record SymbolKey : Type 0 where
  pub exchange : Exchange
  pub market_type : MarketType
  pub symbol : Text

pub record StreamKey : Type 0 where
  pub symbol : SymbolKey
  pub interval_seconds : ℕ

pub record AnalyticsSnapshot : Type 0 where
  pub window_start_ns : ℤ
  pub sequence : ℤ
  pub clusters : List ClusterBucket
  pub open_price : ℤ
  pub close_price : ℤ
  pub high_price : ℤ
  pub low_price : ℤ

pub record AnalyticsDiff : Type 0 where
  pub window_start_ns : ℤ
  pub sequence : ℤ
  pub upserts : List ClusterBucket
  pub removes : List ℤ

pub data ClusterFrame : Type 0 where
  snapshot : AnalyticsSnapshot → ClusterFrame
  diff : AnalyticsDiff → ClusterFrame

unfoldable pub sequence : ClusterFrame → ℤ
sequence (snapshot s) = s.sequence
sequence (diff d) = d.sequence
