-- ===== src/Committee/Evidence.antt =====
-- The evidence that the committee's agents share (backend/app/committee/evidence.py). How numbers
-- are written as text is the parameter `Format`.
use Prim.Native.String.{◌++◌ as join}
use alpha_council.Base.{ℕ, String, Option, none, some, List, [], ◌∷◌, ◌++◌, if◌then◌else◌, is_empty}
use alpha_council.Base.Int.{ℤ}
use alpha_council.Decimal.{Decimal, nought, int}
use alpha_council.Market.{
  Trend, strong_up, up, neutral, down, strong_down, unknown, DataQualityStatus, good, degraded,
  insufficient, stale, MarketState, TechnicalFeatures, OhlcvBar, midpoint, is_valid,
}
use alpha_council.Discovery.Models.{SignalDirection, bullish, bearish, mixed, Candidate}
use alpha_council.Committee.Models.{
  EvidenceCategory, price, returns, momentum, trend, volatility, volume, liquidity, technical,
  data_quality, discovery, EvidenceSource, m1_feature, m2_discovery, market_snapshot, EvidenceItem,
  EvidencePacket,
}

pub record Format (D : Type 0) : Type 0 where
  -- f"{float(v):.{n}f}"
  pub fixed : ℕ → D → String
  -- str(n), of an integer
  pub whole_text : ℤ → String
  pub count_text : ℕ → String
  -- the text of a price times a volume, in millions of dollars
  pub dollar_text : D → ℕ → String

abbrev trend_text : Trend → String
trend_text strong_up = "STRONG_UP"
trend_text up = "UP"
trend_text neutral = "NEUTRAL"
trend_text down = "DOWN"
trend_text strong_down = "STRONG_DOWN"
trend_text unknown = "UNKNOWN"

abbrev status_text : DataQualityStatus → String
status_text good = "GOOD"
status_text degraded = "DEGRADED"
status_text insufficient = "INSUFFICIENT"
status_text stale = "STALE"

abbrev direction_text : SignalDirection → String
direction_text bullish = "BULLISH"
direction_text bearish = "BEARISH"
direction_text mixed = "MIXED"
direction_text SignalDirection.neutral = "NEUTRAL"

-- `separator.join(texts)`
abbrev join_all : String → List String → String
join_all separator [] = ""
join_all separator (t ∷ []) = t
join_all separator (t ∷ u ∷ ts) = join t (join separator (join_all separator (u ∷ ts)))

-- `"; ".join(texts)` where there are any
abbrev joined : List String → Option String
joined texts = if is_empty texts then none else some (join_all "; " texts)

-- An item that is appended where its value is there.
pub record Slot : Type 0 where
  pub id : String
  pub category : EvidenceCategory
  pub label : String
  pub value : Option String
  pub unit : Option String
  pub source : EvidenceSource

abbrev slot :
    String → EvidenceCategory → String → Option String → Option String → EvidenceSource → Slot
slot id category label value unit source = record {
  id = id;
  category = category;
  label = label;
  value = value;
  unit = unit;
  source = source;
}

abbrev pub with_item : Slot → Option String → List EvidenceItem → List EvidenceItem
with_item s none items = items
with_item s (some value) items =
    record {
      id = s.id;
      category = s.category;
      label = s.label;
      value = value;
      unit = s.unit;
      source = s.source;
    }
    ∷ items

unfoldable pub items_of : List Slot → List EvidenceItem
items_of [] = []
items_of (s ∷ slots) = with_item s s.value (items_of slots)

module _ {D : Type 0} ⦃d : Decimal D⦄ where
  abbrev fmt_pct : Format D → D → String
  fmt_pct fmt v = join (fmt.fixed 2 v) "%"

  abbrev shown : (D → String) → Option D → Option String
  shown text none = none
  shown text (some v) = some (text v)

  abbrev close_price : Option (OhlcvBar D) → D
  close_price none = nought
  close_price (some bar) = bar.close

  abbrev current_price : MarketState D → D
  current_price ms = elim ms.snapshot.trade [
    | some t ↦ t.price
    | none ↦ elim ms.snapshot.quote [
      | some q ↦ if is_valid q then midpoint q else close_price ms.latest_bar
      | none ↦ close_price ms.latest_bar
    ]
  ]

  abbrev pub price_slots : Format D → TechnicalFeatures D → List Slot
  price_slots fmt f =
      slot "E_RET_1D" returns "1-Day Return" (shown (fmt_pct fmt) f.return_1d) (some "%") m1_feature
      ∷ slot "E_RET_5D" returns "5-Day Return" (shown (fmt_pct fmt) f.return_5d) (some "%")
          m1_feature
      ∷ slot "E_RET_20D" returns "20-Day Return" (shown (fmt_pct fmt) f.return_20d) (some "%")
          m1_feature
      ∷ slot "E_MOM_5D" momentum "5-Day Momentum" (shown (fmt.fixed 4) f.momentum_5d) (some "USD")
          m1_feature
      ∷ slot "E_MOM_20D" momentum "20-Day Momentum" (shown (fmt.fixed 4) f.momentum_20d)
          (some "USD") m1_feature
      ∷ []

  abbrev pub average_slots : Format D → TechnicalFeatures D → List Slot
  average_slots fmt f =
      slot "E_SMA_20" technical "SMA(20)" (shown (fmt.fixed 2) f.sma_20) (some "USD") m1_feature
      ∷ slot "E_SMA_50" technical "SMA(50)" (shown (fmt.fixed 2) f.sma_50) (some "USD") m1_feature
      ∷ slot "E_EMA_20" technical "EMA(20)" (shown (fmt.fixed 2) f.ema_20) (some "USD") m1_feature
      ∷ slot "E_EMA_50" technical "EMA(50)" (shown (fmt.fixed 2) f.ema_50) (some "USD") m1_feature
      ∷ slot "E_SMA20_DIST" trend "Distance from SMA(20)" (shown (fmt_pct fmt) f.distance_sma20_pct)
          (some "%") m1_feature
      ∷ slot "E_SMA50_DIST" trend "Distance from SMA(50)" (shown (fmt_pct fmt) f.distance_sma50_pct)
          (some "%") m1_feature
      ∷ slot "E_RSI_14" technical "RSI(14)" (shown (fmt.fixed 1) f.rsi_14) (some "") m1_feature
      ∷ []

  abbrev pub range_slots : Format D → TechnicalFeatures D → List Slot
  range_slots fmt f =
      slot "E_ATR_14" volatility "ATR(14)" (shown (fmt.fixed 2) f.atr_14) (some "USD") m1_feature
      ∷ slot "E_ATR_PCT" volatility "ATR %" (shown (fmt_pct fmt) f.atr_pct) (some "%") m1_feature
      ∷ slot "E_VOL_20" volatility "Realized Vol(20)" (shown (fmt_pct fmt) f.realized_vol_20)
          (some "% (ann.)") m1_feature
      ∷ slot "E_AVG_VOL_20" volume "Avg Volume(20)"
          (shown (λ v. fmt.whole_text (int v)) f.avg_volume_20) (some "shares") m1_feature
      ∷ slot "E_VOL_RATIO" volume "Volume Ratio"
          (shown (λ v. join (fmt.fixed 2 v) "x") f.volume_ratio) (some "x") m1_feature
      ∷ slot "E_VOL_ZSCORE" volume "Volume Z-Score" (shown (fmt.fixed 2) f.volume_zscore) (some "σ")
          m1_feature
      ∷ slot "E_DRAWDOWN" technical "Current Drawdown" (shown (fmt_pct fmt) f.current_drawdown)
          (some "%") m1_feature
      ∷ slot "E_TREND_SHORT" trend "Short Trend" (some (trend_text f.trend_short)) none m1_feature
      ∷ slot "E_TREND_MEDIUM" trend "Medium Trend" (some (trend_text f.trend_medium)) none
          m1_feature
      ∷ []

  abbrev dollar_volume : Format D → Option (OhlcvBar D) → Option String
  dollar_volume fmt none = none
  dollar_volume fmt (some bar) = some (fmt.dollar_text bar.close bar.volume)

  abbrev pub context_slots : Format D → Candidate D → List Slot
  context_slots fmt c =
      let dq = c.market_state.data_quality in
      let score = c.opportunity_score in
      slot "E_DOLLAR_VOL" liquidity "Daily Dollar Volume"
        (dollar_volume fmt c.market_state.snapshot.daily_bar) (some "USD") market_snapshot
      ∷ slot "E_OPP_SCORE" discovery "Opportunity Score" (some (fmt.fixed 2 score.total))
          (some "/100") m2_discovery
      ∷ slot "E_OPP_DIR" discovery "Discovery Direction" (some (direction_text score.direction))
          none m2_discovery
      ∷ slot "E_DQ_STATUS" data_quality "Data Quality" (some (status_text dq.status)) none
          m1_feature
      ∷ slot "E_DQ_BARS" data_quality "Bars Received"
          (some
            (join (fmt.count_text dq.bars_received) (join "/" (fmt.count_text dq.bars_requested))))
          none m1_feature
      ∷ slot "E_DQ_WARNINGS" data_quality "Data Quality Warnings" (joined dq.warnings) none
          m1_feature
      ∷ slot "E_DISCOVERY_REASONS" discovery "Discovery Reasons" (joined score.reasons) none
          m2_discovery
      ∷ []

  unfoldable pub slots_of : Format D → Candidate D → List Slot
  slots_of fmt c =
      let f = c.market_state.features in
      slot "E_PRICE" price "Current Price" (some (fmt.fixed 2 (current_price c.market_state)))
          (some "USD") market_snapshot
        ∷ price_slots fmt f
      ++ (average_slots fmt f ++ (range_slots fmt f ++ context_slots fmt c))

  unfoldable pub build_evidence_packet : Format D → Candidate D → EvidencePacket
  build_evidence_packet fmt c = record {
    symbol = c.symbol;
    candidate_rank = some c.rank;
    discovery_direction = some (direction_text c.opportunity_score.direction);
    evidence = items_of (slots_of fmt c);
    data_quality_status = some (status_text c.market_state.data_quality.status);
    data_quality_warnings = c.market_state.data_quality.warnings;
    discovery_reasons = c.opportunity_score.reasons;
  }
