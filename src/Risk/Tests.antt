-- ===== src/Risk/Tests.antt =====
-- Runs of the risk layer on concrete contexts, with decimals of four places.
use alpha_council.Base.{select, ◌≡◌, refl, ◌≢◌, ◌↔◌, inl, true, false, none, some, [], arith}
use alpha_council.Base.Int.{ℤ}
use alpha_council.Decimal.{decimal, nought, whole}
use alpha_council.Decimal.Fixed.{fixed, fixed-IsDecimal}
use alpha_council.Market.{bullish}
use alpha_council.Committee.Models.{propose_long, TradeThesis, no_disagreement}
use alpha_council.Risk.Models.{
  RiskCheckResult, RiskReasonCode, hard_rejections, get_primary_reason, total_unrealized_pnl,
  approved, reduced, rejected, RiskContext, RiskBudget, RiskState, AccountSnapshot, daily_return,
  current_drawdown, gross_exposure_of, net_exposure_of,
}
use alpha_council.Risk.HardGates.{
  check_kill_switch, check_m3_no_trade, check_thesis_valid, check_data_quality, quote_is_bad,
  spread_too_wide, check_committee_confidence, check_price_valid, check_daily_loss,
  check_max_drawdown,
}
use alpha_council.Risk.SoftReductions.{
  soft_failed, check_volatility, check_liquidity, check_confidence_reduction,
  check_symbol_concentration, check_gross_exposure, check_net_exposure, check_max_positions,
  check_group_concentration, check_correlation_redundancy, concentration_on, exposure_on, floored,
  liquidity_on, volatility_on,
}
use alpha_council.Risk.Rules.{hard_checks, soft_checks, evaluate_all}
use alpha_council.Risk.Sizer.{
  apply_check, apply_factor, apply_reason, collect, total_of, stop_distance, stop_distance_pct,
  shares_of, zero_budget, position_notional, budget_of, compute_budget,
}
use alpha_council.Risk.Decision.{decide, decide_on, evaluate_context}
use alpha_council.Risk.Gates.{IsCleared, evaluate_all-IsCleared}
use alpha_council.Risk.Outcomes.{Grants, IsWithinCaps, tradable_is_safe, reason_is_primary}
use alpha_council.Risk.Bounds.{IsStop, stop_distance-IsStop}
use alpha_council.Risk.Service.{
  build_context, get_reference_price, get_account_snapshot, get_portfolio_snapshot,
  build_risk_state, default_account_snapshot, minimal_market_state,
}
use alpha_council.Risk.LiveData.{live_gates_pass}
use alpha_council.Alpaca.{answered}

abbrev thesis : TradeThesis ℤ
thesis = record {
  symbol = "AAPL";
  proposed_direction = bullish;
  committee_confidence = decimal 9000;
  supporting_evidence_ids = [];
  contradicting_evidence_ids = [];
  key_risks = [];
  invalidation_conditions = [];
  candidate_score = whole 70;
  committee_decision = record {
    symbol = "AAPL";
    decision = propose_long;
    direction = some bullish;
    committee_score = whole 75;
    committee_confidence = decimal 9000;
    initial_disagreement = no_disagreement;
    final_disagreement = no_disagreement;
    participating_agents = [];
    abstained_agents = [];
    failed_agents = [];
    supporting_evidence_ids = [];
    contradicting_evidence_ids = [];
    unresolved_risks = [];
    no_trade_reason = none;
  };
}

abbrev account : AccountSnapshot ℤ
account = record {
  equity = whole 100_000;
  buying_power = whole 200_000;
  cash = whole 100_000;
  portfolio_value = whole 100_000;
}

abbrev calm : RiskState ℤ
calm = record {
  session_start_equity = whole 100_000;
  peak_equity = whole 100_000;
  current_equity = whole 100_000;
  daily_realized_pnl = nought;
  daily_unrealized_pnl = nought;
  kill_switch_active = false;
  kill_switch_reason = none;
}

abbrev context : RiskContext ℤ
context = record {
  trade_thesis = thesis;
  reference_price = whole 100;
  atr_14 = some (whole 2);
  bid_price = some (decimal 999_900);
  ask_price = some (decimal 1_000_100);
  spread_pct = some (decimal 2);
  avg_dollar_volume_20 = some (whole 100_000_000);
  realized_vol_20 = some (decimal 100);
  account = account;
  portfolio = record { positions = [] };
  risk_state = calm;
}

-- The kill switch is on.
abbrev stopped : RiskContext ℤ
stopped = record context { risk_state = record calm { kill_switch_active = true } }

-- A stock that moves five percent a day.
abbrev volatile : RiskContext ℤ
volatile = record context { realized_vol_20 = some (decimal 500) }

run_decisions :
    ((evaluate_context context).decision ≡ approved)
    × ((evaluate_context volatile).decision ≡ reduced)
    × ((evaluate_context stopped).decision ≡ rejected)
unfolding evaluate_context decide decide_on evaluate_all hard_checks soft_checks select
    check_kill_switch check_m3_no_trade check_thesis_valid check_data_quality quote_is_bad
    spread_too_wide check_committee_confidence check_price_valid check_daily_loss daily_return
    check_max_drawdown current_drawdown check_volatility check_liquidity check_confidence_reduction
    check_symbol_concentration check_gross_exposure check_net_exposure check_max_positions
    check_group_concentration check_correlation_redundancy concentration_on exposure_on floored
    liquidity_on volatility_on gross_exposure_of net_exposure_of apply_check apply_factor
    apply_reason collect total_of stop_distance stop_distance_pct shares_of zero_budget
    position_notional budget_of compute_budget
run_decisions = (refl, refl, refl)

context-traded : (evaluate_context context).decision ≢ rejected
context-traded h = ground (arith, run_decisions.0)

stopped-uncleared : ¬ IsCleared stopped
stopped-uncleared c = ground (arith, c.kill_switch_off)

abbrev halved : RiskCheckResult ℤ
halved = soft_failed "test" RiskReasonCode.volatility_reduction (decimal 5000)

tradable_is_safe_example :
    IsCleared context
    × ((b : RiskBudget ℤ) × Grants (evaluate_context context) b × IsWithinCaps context b)
tradable_is_safe_example = tradable_is_safe fixed-IsDecimal context context-traded

reason_is_primary_example :
    (evaluate_context stopped).reason_code ≡ get_primary_reason (evaluate_context stopped)
reason_is_primary_example = reason_is_primary fixed-IsDecimal stopped (inl stopped-uncleared)

evaluate_all-IsCleared_example : (hard_rejections (evaluate_all context) ≡ []) ↔ IsCleared context
evaluate_all-IsCleared_example = evaluate_all-IsCleared fixed-IsDecimal context

stop_distance-IsStop_example :
    IsStop {D = ℤ} (whole 100) (stop_distance (whole 100) (some (whole 20)))
stop_distance-IsStop_example =
    stop_distance-IsStop fixed-IsDecimal (whole 100) (some (whole 20)) refl

-- What the service builds for the minimal market without a broker.
abbrev live : RiskContext ℤ
live = record {
  trade_thesis = thesis;
  reference_price = whole 100;
  atr_14 = some (whole 2);
  bid_price = some (decimal 999_900);
  ask_price = some (decimal 1_000_100);
  spread_pct = some (decimal 2);
  avg_dollar_volume_20 = some (whole 100_000_000);
  realized_vol_20 = some (decimal 200);
  account = record {
    equity = whole 100_000;
    buying_power = whole 200_000;
    cash = whole 100_000;
    portfolio_value = whole 100_000;
  };
  portfolio = record { positions = [] };
  risk_state = record {
    session_start_equity = whole 100_000;
    peak_equity = whole 100_000;
    current_equity = whole 100_000;
    daily_realized_pnl = nought;
    daily_unrealized_pnl = nought;
    kill_switch_active = false;
    kill_switch_reason = none;
  };
}

live-built : build_context (minimal_market_state "AAPL") none thesis ≡ answered live
unfolding build_context minimal_market_state get_reference_price get_account_snapshot
    get_portfolio_snapshot build_risk_state total_unrealized_pnl default_account_snapshot
live-built = refl

live_gates_pass_example :
    ((check_kill_switch live).passed ≡ true) × ((check_max_drawdown live).passed ≡ true)
live_gates_pass_example =
    live_gates_pass fixed-IsDecimal (minimal_market_state "AAPL") none thesis live live-built
