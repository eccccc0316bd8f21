-- ===== src/Risk/Service.antt =====
-- `RiskEvaluationService` (backend/app/risk/service.py): the context from live data, and the
-- evaluation. What the gateways answer is a parameter; `raised` is any exception.
use alpha_council.Base.{String, false, ◌&&◌, Option, none, some, [], map, if◌then◌else◌}
use alpha_council.Decimal.{
  Decimal, decimal, ltb, add, sub, mul, nought, whole, abs, truthy, if_truthy,
}
use alpha_council.Decimal.Quotient.{quotient}
use alpha_council.Alpaca.{Outcome, answered, raised, PositionSnapshot, AccountAnswers}
use alpha_council.Market.{QuoteSnapshot, TradeSnapshot, OhlcvBar, MarketState, midpoint, up, good}
use alpha_council.Committee.Models.{TradeThesis}
use alpha_council.Risk.Models.{
  long, short, NormalizedPosition, AccountSnapshot, PortfolioSnapshot, RiskState, RiskContext,
  RiskEvaluation, or_else, total_unrealized_pnl,
}
use alpha_council.Risk.Decision.{evaluate_context}

module _ {D : Type 0} ⦃d : Decimal D⦄ where
  unfoldable pub default_account_snapshot : AccountSnapshot D
  default_account_snapshot = record {
    equity = whole 100_000;
    buying_power = whole 200_000;
    cash = whole 100_000;
    portfolio_value = whole 100_000;
  }

  unfoldable pub get_account_snapshot : Option (AccountAnswers D) → AccountSnapshot D
  unfolding default_account_snapshot
  get_account_snapshot none = default_account_snapshot
  get_account_snapshot (some g) = elim g.account [
    | raised ↦ default_account_snapshot
    | answered a ↦ record {
      equity = or_else a.equity nought;
      buying_power = or_else a.buying_power nought;
      cash = or_else a.cash nought;
      portfolio_value = or_else a.portfolio_value nought;
    }
  ]

  -- `Decimal(market_value) if market_value else qty * 100`; the text "0" is truthy
  abbrev value_of : PositionSnapshot D → D
  value_of p = or_else p.market_value (mul p.qty (whole 100))

  unfoldable pub normalize_position : PositionSnapshot D → NormalizedPosition D
  normalize_position p = record {
    symbol = p.symbol;
    qty = abs p.qty;
    market_value = abs (value_of p);
    side = if ltb nought p.qty then long else short;
    unrealized_pnl = p.unrealized_pl;
  }

  unfoldable pub get_portfolio_snapshot : Option (AccountAnswers D) → PortfolioSnapshot D
  unfolding normalize_position
  get_portfolio_snapshot none = record { positions = [] }
  get_portfolio_snapshot (some g) = elim g.positions [
    | raised ↦ record { positions = [] }
    | answered ps ↦ record { positions = map normalize_position ps }
  ]

  unfoldable pub build_risk_state : AccountSnapshot D → PortfolioSnapshot D → RiskState D
  build_risk_state account portfolio = record {
    session_start_equity = account.equity;
    peak_equity = account.equity;
    current_equity = account.equity;
    daily_realized_pnl = nought;
    daily_unrealized_pnl = total_unrealized_pnl portfolio;
    kill_switch_active = false;
    kill_switch_reason = none;
  }

  reference_from :
      Option (QuoteSnapshot D)
      → Option (TradeSnapshot D)
      → Option (OhlcvBar D)
      → Option (OhlcvBar D)
      → D
  reference_from (some q) _ _ _ = midpoint q
  reference_from none (some t) _ _ = t.price
  reference_from none none (some b) _ = b.close
  reference_from none none none (some b) = b.close
  reference_from none none none none = nought

  unfoldable pub get_reference_price : MarketState D → D
  unfolding reference_from
  get_reference_price m =
      reference_from m.snapshot.quote m.snapshot.trade m.latest_bar m.snapshot.daily_bar

  -- The average volume in dollars, if the price is positive.
  abbrev dollar_volume : Option D → D → Option D
  dollar_volume none price = none
  dollar_volume (some volume) price = if ltb nought price then some (mul volume price) else none

  abbrev bid_of : Option (QuoteSnapshot D) → Option D
  bid_of none = none
  bid_of (some q) = some q.bid_price

  abbrev ask_of : Option (QuoteSnapshot D) → Option D
  ask_of none = none
  ask_of (some q) = some q.ask_price

  abbrev some_spread : Outcome D → Outcome (Option D)
  some_spread raised = raised
  some_spread (answered pct) = answered (some pct)

  -- The midpoint is zero where the ask is the negative of the bid.
  abbrev pub spread_of : Option (QuoteSnapshot D) → Outcome (Option D)
  spread_of none = answered none
  spread_of (some q) =
      if truthy q.bid_price && truthy q.ask_price && ltb nought q.bid_price
      then some_spread (quotient (sub q.ask_price q.bid_price) (midpoint q))
      else answered none

  -- the context, where the spread could be computed
  abbrev pub context_on :
      MarketState D
      → AccountSnapshot D
      → PortfolioSnapshot D
      → TradeThesis D
      → Outcome (Option D)
      → Outcome (RiskContext D)
  context_on market account portfolio thesis raised = raised
  context_on market account portfolio thesis (answered spread_pct) =
      let price = get_reference_price market in
      answered record {
        trade_thesis = thesis;
        reference_price = price;
        atr_14 = if_truthy market.features.atr_14;
        bid_price = bid_of market.snapshot.quote;
        ask_price = ask_of market.snapshot.quote;
        spread_pct = spread_pct;
        avg_dollar_volume_20 = dollar_volume market.features.avg_volume_20 price;
        realized_vol_20 = if_truthy market.features.realized_vol_20;
        account = account;
        portfolio = portfolio;
        risk_state = build_risk_state account portfolio;
      }

  unfoldable pub build_context :
      MarketState D → Option (AccountAnswers D) → TradeThesis D → Outcome (RiskContext D)
  build_context market alpaca thesis =
      context_on market (get_account_snapshot alpaca) (get_portfolio_snapshot alpaca) thesis
        (spread_of market.snapshot.quote)

  abbrev pub evaluated : Outcome (RiskContext D) → Outcome (RiskEvaluation D)
  evaluated raised = raised
  evaluated (answered ctx) = answered (evaluate_context ctx)

  unfoldable evaluate :
      MarketState D → Option (AccountAnswers D) → TradeThesis D → Outcome (RiskEvaluation D)
  evaluate market alpaca thesis = evaluated (build_context market alpaca thesis)

  -- What stands in for the market without a gateway.
  unfoldable pub minimal_market_state : String → MarketState D
  minimal_market_state symbol =
      let price = whole 100 in
      let bar : OhlcvBar D = record {
        open_price = price;
        high = mul price (decimal 10_100);
        low = mul price (decimal 9900);
        close = price;
        volume = 1_000_000;
      } in
      record {
        symbol = symbol;
        snapshot = record {
          quote =
              some (record {
                bid_price = sub price (decimal 100);
                ask_price = add price (decimal 100);
              });
          trade = some (record { price = price });
          daily_bar = some bar;
        };
        latest_bar = some bar;
        features = record {
          return_1d = none;
          return_5d = none;
          return_20d = none;
          momentum_5d = none;
          momentum_20d = none;
          sma_20 = none;
          sma_50 = none;
          ema_20 = none;
          ema_50 = none;
          distance_sma20_pct = none;
          distance_sma50_pct = none;
          rsi_14 = none;
          atr_14 = some (decimal 20_000);
          atr_pct = none;
          realized_vol_20 = some (decimal 200);
          avg_volume_20 = some (whole 1_000_000);
          volume_ratio = none;
          volume_zscore = none;
          current_drawdown = none;
          trend_short = up;
          trend_medium = up;
        };
        data_quality = record {
          status = good;
          bars_requested = 100;
          bars_received = 100;
          warnings = [];
        };
      }
