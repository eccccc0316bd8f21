-- ===== src/Positions/Metrics.antt =====
-- The snapshot of a position on fresh prices (backend/app/positions/metrics.py, PositionMetrics).
use alpha_council.Base.{ℕ, ◌-◌, ◌&&◌, Option, none, some, if◌then◌else◌}
use alpha_council.Decimal.{Decimal, ltb, nought, sub, mul, div, truthy}
use alpha_council.Decimal.Quotient.{quotient}
use alpha_council.Alpaca.{Outcome, answered, raised}
use alpha_council.Market.{MarketState, midpoint}
use alpha_council.Positions.Models.{Side, long, short}
use alpha_council.Positions.Records.{ManagedPosition, PositionSnapshot}

-- Bid, ask and their midpoint.
pub record Prices (D : Type 0) : Type 0 where
  pub bid : D
  pub ask : D
  pub mid : D

module _ {D : Type 0} ⦃d : Decimal D⦄ where
  abbrev at_current : D → Prices D
  at_current price = record { bid = price; ask = price; mid = price }

  abbrev pub fresh_prices : ManagedPosition D → Option (MarketState D) → Prices D
  fresh_prices p none = at_current p.current_price
  fresh_prices p (some m) = elim m.snapshot.quote [
    | none ↦ at_current p.current_price
    | some q ↦ record { bid = q.bid_price; ask = q.ask_price; mid = midpoint q }
  ]

  -- the gain per share of a position on its side
  abbrev gain : Side → D → D → D
  gain long entry price = sub price entry
  gain short entry price = sub entry price

  -- the watermarks move in the same way on both sides
  abbrev pub higher : Option D → D → D
  higher none price = price
  higher (some h) price = if ltb h price then price else h

  abbrev pub lower : Option D → D → D
  lower none price = price
  lower (some l) price = if ltb price l then price else l

  unfoldable pub update_watermarks : ManagedPosition D → D → D × D
  update_watermarks p price =
      (higher p.highest_price_since_entry price, lower p.lowest_price_since_entry price)

  -- the excursions above and below the entry, in shares of it; an entry price of 0 is not tested for
  abbrev pub above : D → D → Outcome D
  above entry high =
      if truthy high && ltb entry high then quotient (sub high entry) entry else answered nought

  abbrev pub below : D → D → Outcome D
  below entry low =
      if truthy low && ltb low entry then quotient (sub entry low) entry else answered nought

  abbrev pub compute_mfe : Side → D → D → D → Outcome D
  compute_mfe long entry high low = above entry high
  compute_mfe short entry high low = below entry low

  abbrev pub compute_mae : Side → D → D → D → Outcome D
  compute_mae long entry high low = below entry low
  compute_mae short entry high low = above entry high

  abbrev stop_gap : Side → D → D → D
  stop_gap long stop mid = div (sub mid stop) mid
  stop_gap short stop mid = div (sub stop mid) mid

  abbrev distance_to_stop : ManagedPosition D → D → Option D
  distance_to_stop p mid = elim p.current_stop_reference [
    | none ↦ none
    | some stop ↦ if truthy stop && ltb nought mid then some (stop_gap p.side stop mid) else none
  ]

  abbrev atr_of : Option (MarketState D) → Option D
  atr_of none = none
  atr_of (some m) = m.features.atr_14

  abbrev atr_movement : ManagedPosition D → Option D → D → Option D
  atr_movement p atr mid = elim p.initial_stop_reference [
    | none ↦ none
    | some stop ↦ elim atr [
      | none ↦ none
      | some a ↦ if truthy stop && truthy a then some (div (sub mid p.entry_price) a) else none
    ]
  ]

  -- the snapshot around its two excursions
  abbrev pub snapshot_on :
      ℕ
      → ManagedPosition D
      → Option (MarketState D)
      → Outcome D
      → Outcome D
      → Outcome (PositionSnapshot D)
  snapshot_on now p market_state raised mae = raised
  snapshot_on now p market_state (answered mfe) raised = raised
  snapshot_on now p market_state (answered mfe) (answered mae) =
      let prices = fresh_prices p market_state in
      let mid = prices.mid in
      let high = higher p.highest_price_since_entry mid in
      let low = lower p.lowest_price_since_entry mid in
      answered record {
        current_price = mid;
        bid_price = some prices.bid;
        ask_price = some prices.ask;
        midpoint = some mid;
        market_value = mul mid p.current_quantity;
        unrealized_pnl = mul (gain p.side p.entry_price mid) p.current_quantity;
        unrealized_pnl_pct =
            if ltb nought p.entry_price
            then div (gain p.side p.entry_price mid) p.entry_price
            else nought;
        time_in_trade_seconds = now - p.entry_timestamp;
        highest_price_since_entry = some high;
        lowest_price_since_entry = some low;
        distance_to_stop_pct = distance_to_stop p mid;
        distance_to_high_watermark_pct =
            if truthy high && ltb nought mid then some (div (sub high mid) high) else none;
        distance_to_low_watermark_pct =
            if truthy low && ltb nought mid then some (div (sub mid low) low) else none;
        mfe = mfe;
        mae = mae;
        current_atr = atr_of market_state;
        atr_movement_pct = atr_movement p (atr_of market_state) mid;
      }

  unfoldable pub compute_snapshot :
      ℕ → ManagedPosition D → Option (MarketState D) → Outcome (PositionSnapshot D)
  compute_snapshot now p market_state =
      let mid = (fresh_prices p market_state).mid in
      let high = higher p.highest_price_since_entry mid in
      let low = lower p.lowest_price_since_entry mid in
      snapshot_on now p market_state (compute_mfe p.side p.entry_price high low)
        (compute_mae p.side p.entry_price high low)
