-- ===== src/Positions/Tests.antt =====
-- Runs of the position layer on concrete positions, with decimals of four places.
use alpha_council.Base.{◌≡◌, refl, true, ◌&&◌, none, some, [], ◌∷◌, All, any, str_eq, select}
use alpha_council.Base.Int.{ℤ}
use alpha_council.Base.Dict.{get}
use alpha_council.Decimal.{nought, whole}
use alpha_council.Decimal.Fixed.{fixed, fixed-IsDecimal}
use alpha_council.Alpaca.{answered, raised}
use alpha_council.Market.{QuoteSnapshot}
use alpha_council.Risk.Models.{RiskState}
use alpha_council.Positions.Models.{
  stock, long, open_position, no_exit, exit, immediate, hard_stop_triggered, kill_switch, status_of,
  exit_of, side_of,
}
use alpha_council.Positions.Records.{
  ManagedPosition, PositionSnapshot, ExitDecision, ExitPlan, PositionReconciliationResult,
  to_store_record, store_record_to_managed_position,
}
use alpha_council.Positions.Metrics.{compute_snapshot}
use alpha_council.Positions.ExitRules.{
  default_rules, evaluate, trailing_stop, hard_stop, max_loss, held_too_long, take_profit_reached,
}
use alpha_council.Positions.Store.{Table, get_open_positions, row_to_record}
use alpha_council.Positions.Reconciliation.{
  Provider, reconcile_all, reconcile_record, missing_result,
}
use alpha_council.Positions.Monitor.{Markets, needs_action, evaluate_position, monitor_once}
use alpha_council.Positions.Demands.{demands}
use alpha_council.Positions.Exits.{IsJudged, evaluate-IsJudged}
use alpha_council.Positions.KillSwitch.{IsClosing, kill_switch_closes}
use alpha_council.Positions.Dropped.{IsOtherDecision, listed, mismatch_is_dropped}
use alpha_council.Positions.Roundtrip.{store_record_to_managed_position-to_store_record}
use alpha_council.Positions.ExitPlanner.{Parts, Answers, build_exit_plan}
use alpha_council.Positions.Plans.{IsWithin, build_exit_plan-le}

abbrev position : ManagedPosition ℤ
position = record {
  position_id = "p-1";
  symbol = "AAPL";
  instrument_type = stock;
  side = long;
  entry_execution_id = "e-1";
  entry_order_id = "o-1";
  instrument_plan_id = "i-1";
  entry_timestamp = 0;
  entry_price = whole 100;
  initial_quantity = whole 10;
  current_quantity = whole 10;
  current_price = whole 100;
  initial_notional = whole 1_000;
  current_notional = whole 1_000;
  risk_budget_at_entry = whole 50;
  constitution_version = "v1.0.0";
  initial_stop_reference = some (whole 95);
  current_stop_reference = some (whole 95);
  highest_price_since_entry = some (whole 104);
  lowest_price_since_entry = some (whole 99);
  unrealized_pnl = nought;
  unrealized_pnl_pct = nought;
  realized_pnl = nought;
  status = open_position;
  exit_state = no_exit;
  created_at = 0;
  updated_at = 0;
  mfe = nought;
  mae = nought;
}

-- The kill switch is on.
abbrev stopped : RiskState ℤ
stopped = record {
  session_start_equity = whole 100_000;
  peak_equity = whole 100_000;
  current_equity = whole 100_000;
  daily_realized_pnl = nought;
  daily_unrealized_pnl = nought;
  kill_switch_active = true;
  kill_switch_reason = none;
}

abbrev no_markets : Markets ℤ
no_markets symbol = none

-- The broker holds nothing.
abbrev nothing_held : Provider ℤ
nothing_held id = answered []

abbrev table : Table ℤ
table = to_store_record position ∷ []

-- The price fell to the stop, and the kill switch is on.
abbrev snapshot : PositionSnapshot ℤ
snapshot = record {
  current_price = whole 94;
  bid_price = some (whole 94);
  ask_price = some (whole 94);
  midpoint = some (whole 94);
  market_value = whole 940;
  unrealized_pnl = nought;
  unrealized_pnl_pct = nought;
  time_in_trade_seconds = 0;
  highest_price_since_entry = some (whole 104);
  lowest_price_since_entry = some (whole 94);
  distance_to_stop_pct = none;
  distance_to_high_watermark_pct = none;
  distance_to_low_watermark_pct = none;
  mfe = nought;
  mae = nought;
  current_atr = none;
  atr_movement_pct = none;
}

two_reasons :
    evaluate default_rules 0 position snapshot stopped none
    ≡ answered record {
      reasons = kill_switch ∷ hard_stop_triggered ∷ [];
      max_urgency = immediate;
      decision = exit;
    }
unfolding evaluate trailing_stop hard_stop max_loss held_too_long take_profit_reached
two_reasons = refl

evaluate-IsJudged_example :
    IsJudged {D = ℤ}
      (whole 100)
      (demands default_rules 0 position snapshot stopped none)
      (evaluate default_rules 0 position snapshot stopped none)
evaluate-IsJudged_example = evaluate-IsJudged default_rules 0 position snapshot stopped none

-- An entry price of zero ends the evaluation, whatever the kill switch says.
abbrev gift : ManagedPosition ℤ
gift = record position { entry_price = nought }

gift_raises : evaluate_position default_rules 0 no_markets stopped gift ≡ raised
unfolding evaluate_position compute_snapshot
gift_raises = refl

kill_switch_closes_example :
    IsClosing position (evaluate_position default_rules 0 no_markets stopped position)
kill_switch_closes_example =
    kill_switch_closes default_rules 0 no_markets stopped position refl refl

reconcile_table :
    reconcile_all nothing_held table
    ≡ answered (missing_result (to_store_record position) long ∷ [])
unfolding reconcile_all get_open_positions select to_store_record row_to_record status_of exit_of
    reconcile_record side_of get
reconcile_table = refl

mismatch_found :
    any
      (λ r. str_eq r.position_id "p-1" && needs_action r)
      (missing_result (to_store_record position) long ∷ [])
    ≡ true
unfolding to_store_record
mismatch_found = refl

mismatch_is_dropped_example :
    All
      (IsOtherDecision "p-1")
      (listed (monitor_once default_rules nothing_held 0 no_markets stopped table).0)
mismatch_is_dropped_example =
    mismatch_is_dropped default_rules nothing_held 0 no_markets stopped table "p-1"
      (missing_result (to_store_record position) long ∷ []) reconcile_table mismatch_found

store_record_to_managed_position-to_store_record_example :
    store_record_to_managed_position (to_store_record position) ≡ some position
store_record_to_managed_position-to_store_record_example =
    store_record_to_managed_position-to_store_record position

abbrev decision : ExitDecision ℤ
decision = record {
  position_id = "p-1";
  symbol = "AAPL";
  decision = exit;
  reason_codes = hard_stop_triggered ∷ [];
  urgency = immediate;
  target_quantity_to_close = whole 10;
  quantity_remaining = nought;
  reference_price = whole 94;
  fresh_bid = none;
  fresh_ask = none;
  fresh_mid = none;
}

abbrev quote : QuoteSnapshot ℤ
quote = record { bid_price = whole 94; ask_price = whole 95 }

-- The broker holds four of the ten.
abbrev held : PositionReconciliationResult ℤ
held = record (missing_result (to_store_record position) long) { provider_quantity = whole 4 }

abbrev answers : Answers ℤ
answers = record {
  quote = answered quote;
  clock = answered (record { is_open = true });
  reconciliation = answered (some held);
}

abbrev all_parts : Parts
all_parts = record { has_alpaca = true; has_store = true }

build_exit_plan-le_example :
    (plan : ExitPlan ℤ) × (build_exit_plan fixed.quantize all_parts answers decision position true
        300 0
      ≡ answered plan)
    × IsWithin (whole 10) (some held) plan.quantity
build_exit_plan-le_example =
    build_exit_plan-le fixed.quantize fixed-IsDecimal all_parts answers decision position true 300 0
      quote (record { is_open = true }) (some held) refl refl refl refl
