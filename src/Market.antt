-- ===== src/Market.antt =====
-- The market data that the other components read (backend/app/market/models.py).
-- Time stamps, sizes and the counts that no modelled component reads are left out.
use alpha_council.Base.{ℕ, String, Bool, ◌&&◌, Option, List}
use alpha_council.Decimal.{Decimal, decimal, leb, ltb, nought, add, sub, div}

pub data SignalDirection : Type 0 where
  bullish bearish : SignalDirection

pub data Trend : Type 0 where
  strong_up up neutral down strong_down unknown : Trend

pub data DataQualityStatus : Type 0 where
  good degraded insufficient stale : DataQualityStatus

pub record OhlcvBar (D : Type 0) : Type 0 where
  pub open_price : D
  pub high : D
  pub low : D
  pub close : D
  pub volume : ℕ

pub record QuoteSnapshot (D : Type 0) : Type 0 where
  pub bid_price : D
  pub ask_price : D

pub record TradeSnapshot (D : Type 0) : Type 0 where
  pub price : D

pub record MarketSnapshot (D : Type 0) : Type 0 where
  pub quote : Option (QuoteSnapshot D)
  pub trade : Option (TradeSnapshot D)
  pub daily_bar : Option (OhlcvBar D)

pub record TechnicalFeatures (D : Type 0) : Type 0 where
  pub return_1d : Option D
  pub return_5d : Option D
  pub return_20d : Option D
  pub momentum_5d : Option D
  pub momentum_20d : Option D
  pub sma_20 : Option D
  pub sma_50 : Option D
  pub ema_20 : Option D
  pub ema_50 : Option D
  pub distance_sma20_pct : Option D
  pub distance_sma50_pct : Option D
  pub rsi_14 : Option D
  pub atr_14 : Option D
  pub atr_pct : Option D
  pub realized_vol_20 : Option D
  pub avg_volume_20 : Option D
  pub volume_ratio : Option D
  pub volume_zscore : Option D
  pub current_drawdown : Option D
  pub trend_short : Trend
  pub trend_medium : Trend

pub record DataQuality : Type 0 where
  pub status : DataQualityStatus
  pub bars_requested : ℕ
  pub bars_received : ℕ
  pub warnings : List String

pub record MarketState (D : Type 0) : Type 0 where
  pub symbol : String
  pub snapshot : MarketSnapshot D
  pub latest_bar : Option (OhlcvBar D)
  pub features : TechnicalFeatures D
  pub data_quality : DataQuality

module _ {D : Type 0} ⦃d : Decimal D⦄ where
  abbrev pub spread : QuoteSnapshot D → D
  spread q = sub q.ask_price q.bid_price

  abbrev pub midpoint : QuoteSnapshot D → D
  midpoint q = div (add q.bid_price q.ask_price) (decimal 20_000)

  abbrev pub is_valid : QuoteSnapshot D → Bool
  is_valid q = leb nought (spread q) && (ltb nought q.bid_price && ltb nought q.ask_price)
