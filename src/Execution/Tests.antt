-- ===== src/Execution/Tests.antt =====
-- Runs of the execution layer against a provider that accepts every order.
use alpha_council.Base.{◌≡◌, refl, ◌↔◌, ◌⊎◌, true, false, Option, none, some, [], ◌∷◌}
use alpha_council.Base.Int.{ℤ}
use alpha_council.Decimal.{decimal, whole}
use alpha_council.Decimal.Fixed.{fixed}
use alpha_council.Alpaca.{Outcome}
use alpha_council.Market.{bullish, bearish, QuoteSnapshot}
use alpha_council.Instruments.Models.{
  InstrumentPlan, EquityInstrumentPlan, EquitySide, InstrumentType,
}
use alpha_council.Risk.Models.{approved, within_limits, RiskBudget, RiskEvaluation}
use alpha_council.Execution.Models.{
  buy, ExecutionPlan, IdempotencyKey, is_authorized, key_to_string, client_order_id_of,
}
use alpha_council.Execution.Validation.{Settings, authorize}
use alpha_council.Execution.Planner.{
  Planned, BrokerAnswers, get_asset_info, check_market_open, validate_quote_freshness,
  validate_quote_quality, validate_asset_tradability, validate_short_side, needs_short,
  m5_reference, validate_price_deviation, round_to_tick, limit_price_of, sizing_of, plan_of,
  build_execution_plan,
}
use alpha_council.Execution.World.{
  AlpacaOrderStatus, AlpacaOrder, OrderRequest, answered, not_found, TradingClient, World,
  execution_error, ok, err,
}
use alpha_council.Execution.Gateway.{submit_order, get_order_by_id, get_order_by_client_id}
use alpha_council.Execution.Idempotency.{generate_idempotency_key}
use alpha_council.Execution.Results.{Surroundings, request_of}
use alpha_council.Execution.Service.{execute}
use alpha_council.Execution.Reconciliation.{reconcile_pending_executions}
use alpha_council.Execution.Quiet.{Quiet, Quiet-reconcile_pending_executions}
use alpha_council.Execution.AtMostOne.{execute_sends}
use alpha_council.Execution.Authorization.{IsPaper, IsBacked, IsWithin, authorize_exactly}
use alpha_council.Execution.Planning.{IsSound, built_plan-IsSound, short_never_builds}
use alpha_council.Execution.Orders.{cancel_order, list_orders, get_account}
use alpha_council.Execution.PaperMode.{unpaper_is_inert}

abbrev pub paper : Settings ℤ
paper = record {
  trading_mode = "paper";
  enable_execution = true;
  enable_paper_execution = true;
  alpaca_live_trade = false;
  max_execution_price_deviation_pct = decimal 200;
  max_execution_spread_pct = decimal 50;
  execution_plan_ttl_seconds = 300;
  execution_track_timeout_seconds = 60;
}

abbrev live : Settings ℤ
live = record paper { alpaca_live_trade = true }

abbrev order : OrderRequest ℤ → AlpacaOrder ℤ
order r = record {
  id = "order-1";
  client_order_id = r.client_order_id;
  symbol = r.symbol;
  is_buy = true;
  qty = r.qty;
  is_limit = true;
  is_day = true;
  limit_price = r.limit_price;
  status = AlpacaOrderStatus.filled;
  status_text = "FILLED";
  submitted_at = 1000;
  filled_at = some 1000;
  filled_qty = r.qty;
  filled_avg_price = r.limit_price;
}

-- The provider's state is the last request that it has accepted.
abbrev pub accepting : TradingClient ℤ (Option (OrderRequest ℤ))
accepting = record {
  get_account = λ p. (answered true, p);
  submit_order = λ r p. (answered (order r), some r);
  get_order_by_id = λ id p. (not_found, p);
  get_order_by_client_id = λ id p. (not_found, p);
  cancel_order_by_id = λ id p. (not_found, p);
  get_orders = λ p. (answered [], p);
}

abbrev pub empty : World ℤ (Option (OrderRequest ℤ))
empty = record { store = []; provider = none; journal = [] }

abbrev equity : EquityInstrumentPlan ℤ
equity = record {
  side = EquitySide.long;
  reference_price = whole 100;
  max_notional = whole 10_000;
  planned_notional = whole 900;
  estimated_quantity = whole 9;
  risk_budget_used = whole 20;
  estimated_loss_at_risk_stop = whole 20;
}

abbrev pub instrument_plan : InstrumentPlan ℤ
instrument_plan = record {
  plan_id = "plan-0001";
  symbol = "AAPL";
  thesis_direction = bullish;
  instrument_type = InstrumentType.stock;
  equity_plan = some equity;
  option_plan = none;
  no_trade_reason = none;
}

abbrev short_plan : InstrumentPlan ℤ
short_plan = record instrument_plan {
  thesis_direction = bearish;
  equity_plan = some (record equity { side = EquitySide.short });
}

abbrev budget : RiskBudget ℤ
budget = record {
  base_risk_budget = whole 1000;
  confidence_reduction = whole 1;
  volatility_reduction = whole 1;
  liquidity_reduction = whole 1;
  concentration_reduction = whole 1;
  exposure_reduction = whole 1;
  correlation_reduction = whole 1;
  adjusted_risk_budget = whole 1000;
  atr_stop_distance = none;
  max_position_notional = whole 10_000;
  shares = 100;
  limiting_rule = none;
}

abbrev pub evaluation : RiskEvaluation ℤ
evaluation = record {
  symbol = "AAPL";
  decision = approved;
  reason_code = within_limits;
  checks = [];
  risk_budget = some budget;
  constitution_version = "1.0.0";
}

abbrev quote : QuoteSnapshot ℤ
quote = record { bid_price = decimal 999_900; ask_price = decimal 1_000_100 }

abbrev broker : Option BrokerAnswers
broker = some (record {
  asset = Outcome.answered (record { symbol = "AAPL"; tradable = true });
  clock = Outcome.answered (record { is_open = true });
})

abbrev pub surroundings : Surroundings ℤ
surroundings = record {
  planned_at = 1000;
  authorized_at = 1001;
  written_at = 1002;
  elapsed = λ i. i;
  latest_quote = Outcome.answered quote;
  broker = broker;
  error_text = λ e. "error";
}

abbrev pub plan : ExecutionPlan ℤ
plan =
    plan_of paper 1000 instrument_plan evaluation quote (whole 100)
      (record { side = buy; quantity = whole 9; expected_notional = whole 900 })

plan-built :
    build_execution_plan paper 1000 (Outcome.answered quote) broker instrument_plan evaluation
    ≡ Planned.ok plan
unfolding build_execution_plan get_asset_info check_market_open validate_quote_freshness
    validate_quote_quality validate_asset_tradability validate_short_side needs_short m5_reference
    validate_price_deviation round_to_tick limit_price_of sizing_of
plan-built = refl

built_plan-IsSound_example : IsSound paper 1000 (Outcome.answered quote) broker instrument_plan plan
built_plan-IsSound_example =
    built_plan-IsSound paper 1000 (Outcome.answered quote) broker instrument_plan evaluation plan
      plan-built

short_never_builds_example : ¬ (
    build_execution_plan paper 1000 (Outcome.answered quote) broker short_plan evaluation
    ≡ Planned.ok plan)
short_never_builds_example =
    short_never_builds paper 1000 (Outcome.answered quote) broker short_plan evaluation
      (record equity { side = EquitySide.short }) plan refl refl refl

authorize_exactly_example :
    (is_authorized (authorize paper 1001 plan instrument_plan evaluation none) ≡ true) ↔ (
      IsPaper paper × IsBacked instrument_plan evaluation none × IsWithin 1001 plan instrument_plan)
authorize_exactly_example = authorize_exactly paper 1001 plan instrument_plan evaluation none

execute_sends_example :
    let after =
      (execute paper accepting surroundings instrument_plan evaluation none false true
        empty).1.journal in
    (after ≡ [])
    ⊎ ((p : ExecutionPlan ℤ) × (k : IdempotencyKey ℤ) × (build_execution_plan paper 1000
            (Outcome.answered quote)
            broker
            instrument_plan
            evaluation
          ≡ Planned.ok p)
        × (is_authorized (authorize paper 1001 p instrument_plan evaluation none) ≡ true)
        × (generate_idempotency_key instrument_plan evaluation ≡ ok k)
        × (false ≡ false)
        × (after ≡ request_of p (client_order_id_of (key_to_string k)) ∷ []))
execute_sends_example =
    execute_sends paper accepting surroundings instrument_plan evaluation none false true empty

Quiet-reconcile_pending_executions_example :
    Quiet (reconcile_pending_executions paper accepting 1000)
Quiet-reconcile_pending_executions_example = Quiet-reconcile_pending_executions paper accepting 1000

abbrev request : OrderRequest ℤ
request = request_of plan "ac-1"

unpaper_is_inert_example :
    (submit_order live accepting request empty ≡ (err execution_error, empty))
    × (get_order_by_id live accepting "order-1" empty ≡ (err execution_error, empty))
    × (get_order_by_client_id live accepting "order-1" empty ≡ (err execution_error, empty))
    × (cancel_order live accepting "order-1" empty ≡ (err execution_error, empty))
    × (list_orders live accepting empty ≡ (err execution_error, empty))
    × (get_account live accepting empty ≡ (err execution_error, empty))
unpaper_is_inert_example = unpaper_is_inert live accepting request "order-1" empty refl
