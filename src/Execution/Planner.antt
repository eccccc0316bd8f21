-- ===== src/Execution/Planner.antt =====
-- `ExecutionPlanner` (backend/app/execution/planner.py). What the market and the broker answer is
-- an argument; `none` for the broker is a planner without one.
use alpha_council.Base.{
  ℕ, ◌+◌, String, Bool, true, false, not, ◌||◌, Option, none, some, if◌then◌else◌,
}
use alpha_council.Decimal.{Decimal, decimal, leb, ltb, add, sub, mul, div, nought, one, whole, abs}
use alpha_council.Alpaca.{Outcome, answered, raised, AssetInfo, MarketClock}
use alpha_council.Market.{QuoteSnapshot, midpoint}
use alpha_council.Instruments.Models.{
  EquitySide, long, short, EquityInstrumentPlan, OptionInstrumentPlan, InstrumentPlan,
  is_stock_type, is_option_type,
}
use alpha_council.Risk.Models.{RiskBudget, RiskEvaluation}
use alpha_council.Execution.Models.{
  ExecutionReasonCode, market_closed, invalid_quote, spread_too_wide, price_moved_too_far,
  asset_not_tradable, asset_not_shortable, limit, day, OrderSide, buy, sell, stock, option,
  ExecutionPlan, key_to_string,
}
use alpha_council.Execution.Validation.{Settings}

-- `MarketDataError` with its reason code, `ExecutionError`, and an exception of a gateway.
pub data PlanError : Type 0 where
  market_data_error : ExecutionReasonCode → PlanError
  execution_error gateway_error : PlanError

pub data Planned (A : Type 0) : Type 0 where
  ok : A → Planned A
  err : PlanError → Planned A

infixl 5 ◌>>=◌ ◌>>◌
abbrev pub ◌>>=◌ : {A B : Type 0} → Planned A → (A → Planned B) → Planned B
ok a >>= f = f a
err e >>= f = err e

abbrev pub ◌>>◌ : {B : Type 0} → Planned (Unit {0}) → Planned B → Planned B
m >> k = m >>= λ _. k

-- `if bad: raise MarketDataError(..., reason_code=reason)`
abbrev pub raise_if : Bool → ExecutionReasonCode → Planned (Unit {0})
raise_if bad reason = if bad then err (market_data_error reason) else ok tt

abbrev pub from_gateway : {A : Type 0} → Outcome A → Planned A
from_gateway (answered a) = ok a
from_gateway raised = err gateway_error

-- What the broker answers while one plan is built.
pub record BrokerAnswers : Type 0 where
  pub asset : Outcome AssetInfo
  pub clock : Outcome MarketClock

abbrev pub is_short : EquitySide → Bool
is_short short = true
is_short long = false

abbrev pub side_of : EquitySide → OrderSide
side_of long = buy
side_of short = sell

-- `_get_asset_info`: without a broker, a tradable asset
unfoldable pub get_asset_info : String → Option BrokerAnswers → Planned AssetInfo
get_asset_info symbol none = ok (record { symbol = symbol; tradable = true })
get_asset_info symbol (some b) = from_gateway b.asset

unfoldable pub check_market_open : Option BrokerAnswers → Planned (Unit {0})
check_market_open none = ok tt
check_market_open (some b) = do
  clock ← from_gateway b.clock
  raise_if (not clock.is_open) market_closed

unfoldable pub validate_asset_tradability : AssetInfo → Planned (Unit {0})
validate_asset_tradability asset = raise_if (not asset.tradable) asset_not_tradable

-- `getattr(asset, "shortable", False)`, and the same for `easy_to_borrow`: `AssetInfo` has
-- neither attribute, so both defaults are what is read.
abbrev shortable : AssetInfo → Bool
shortable asset = false

abbrev easy_to_borrow : AssetInfo → Bool
easy_to_borrow asset = false

unfoldable pub validate_shortable : AssetInfo → Planned (Unit {0})
validate_shortable asset =
    raise_if (not (shortable asset) || not (easy_to_borrow asset)) asset_not_shortable

-- The side, the quantity and the expected notional of the order.
pub record Sizing (D : Type 0) : Type 0 where
  pub side : OrderSide
  pub quantity : D
  pub expected_notional : D

module _ {D : Type 0} ⦃d : Decimal D⦄ where
  unfoldable pub validate_quote_freshness : QuoteSnapshot D → Planned (Unit {0})
  validate_quote_freshness q =
      raise_if (leb q.bid_price nought || leb q.ask_price nought) invalid_quote

  unfoldable pub validate_quote_quality : Settings D → QuoteSnapshot D → Planned (Unit {0})
  validate_quote_quality s q = do
    raise_if (leb q.ask_price q.bid_price) invalid_quote
    let mid = div (add q.bid_price q.ask_price) (decimal 20_000)
    let spread_pct = if ltb nought mid then div (sub q.ask_price q.bid_price) mid else nought
    raise_if (ltb s.max_execution_spread_pct spread_pct) spread_too_wide

  -- A stock plan for the short side has to be shortable.
  unfoldable pub needs_short : Bool → Option (EquityInstrumentPlan D) → Bool
  needs_short true (some e) = is_short e.side
  needs_short _ _ = false

  unfoldable pub validate_short_side : InstrumentPlan D → AssetInfo → Planned (Unit {0})
  unfolding needs_short validate_shortable
  validate_short_side ip asset =
      if needs_short (is_stock_type ip.instrument_type) ip.equity_plan
      then validate_shortable asset
      else ok tt

  unfoldable pub m5_reference : InstrumentPlan D → D
  m5_reference ip = elim ip.equity_plan [ none ↦ nought | some e ↦ e.reference_price ]

  unfoldable pub validate_price_deviation : Settings D → InstrumentPlan D → D → Planned (Unit {0})
  validate_price_deviation s ip fresh_mid =
      let ref = m5_reference ip in
      if leb ref nought
      then ok tt
      else raise_if (ltb s.max_execution_price_deviation_pct (div (abs (sub fresh_mid ref)) ref))
          price_moved_too_far

  unfoldable pub round_to_tick : D → D
  round_to_tick price = if leb one price then d.quantize 2 price else d.quantize 4 price

  -- `_calculate_limit_price`
  unfoldable pub limit_price_of : QuoteSnapshot D → D
  limit_price_of q = round_to_tick (midpoint q)

  abbrev pub budget_or_nought : Option (RiskBudget D) → (RiskBudget D → D) → D
  budget_or_nought none field = nought
  budget_or_nought (some b) field = field b

  unfoldable pub sizing_of :
      Bool
      → Bool
      → Option (EquityInstrumentPlan D)
      → Option (OptionInstrumentPlan D)
      → D
      → Planned (Sizing D)
  sizing_of true is_opt (some e) o price = ok (record {
    side = side_of e.side;
    quantity = e.estimated_quantity;
    expected_notional = mul price e.estimated_quantity;
  })
  sizing_of true true none (some o) price = ok (record {
    side = buy;
    quantity = whole o.planned_contracts;
    expected_notional = mul (mul price (whole o.planned_contracts)) (whole o.multiplier);
  })
  sizing_of false true e (some o) price = ok (record {
    side = buy;
    quantity = whole o.planned_contracts;
    expected_notional = mul (mul price (whole o.planned_contracts)) (whole o.multiplier);
  })
  sizing_of _ _ _ _ price = err execution_error

  unfoldable pub plan_of :
      Settings D
      → ℕ
      → InstrumentPlan D
      → RiskEvaluation D
      → QuoteSnapshot D
      → D
      → Sizing D
      → ExecutionPlan D
  plan_of s now ip e quote price z = record {
    execution_plan_id = key_to_string (record {
      instrument_plan_id = ip.plan_id;
      symbol = ip.symbol;
      side = z.side;
      quantity = z.quantity;
      risk_authorization_version = e.constitution_version;
    });
    instrument_plan_id = ip.plan_id;
    created_at = now;
    expires_at = now + s.execution_plan_ttl_seconds;
    symbol = ip.symbol;
    instrument_type = if is_stock_type ip.instrument_type then stock else option;
    direction = ip.thesis_direction;
    side = z.side;
    quantity = z.quantity;
    order_type = limit;
    time_in_force = day;
    m5_reference_price = m5_reference ip;
    fresh_bid = quote.bid_price;
    fresh_ask = quote.ask_price;
    fresh_mid = midpoint quote;
    limit_price = price;
    expected_notional = z.expected_notional;
    risk_budget = budget_or_nought e.risk_budget (λ b. b.adjusted_risk_budget);
    max_authorized_notional = budget_or_nought e.risk_budget (λ b. b.max_position_notional);
    constitution_version = e.constitution_version;
  }

  unfoldable pub build_execution_plan :
      Settings D
      → ℕ
      → Outcome (QuoteSnapshot D)
      → Option BrokerAnswers
      → InstrumentPlan D
      → RiskEvaluation D
      → Planned (ExecutionPlan D)
  build_execution_plan s now latest_quote broker ip e = do
    quote ← from_gateway latest_quote
    asset ← get_asset_info ip.symbol broker
    check_market_open broker
    validate_quote_freshness quote
    validate_quote_quality s quote
    validate_asset_tradability asset
    validate_short_side ip asset
    validate_price_deviation s ip (midpoint quote)
    let price = limit_price_of quote
    z ←
        sizing_of (is_stock_type ip.instrument_type) (is_option_type ip.instrument_type)
          ip.equity_plan ip.option_plan price
    ok (plan_of s now ip e quote price z)
