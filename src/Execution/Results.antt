-- ===== src/Execution/Results.antt =====
-- The records that `ExecutionService` builds: its requests, results and the row that it writes first
-- (backend/app/execution/service.py), and what the outside answers during a call.
use alpha_council.Base.{ℕ, String, Option, none, some, List, [], ◌∷◌}
use alpha_council.Alpaca.{Outcome}
use alpha_council.Market.{QuoteSnapshot}
use alpha_council.Execution.Models.{
  ExecutionStatus, ExecutionAuthorizationState, ExecutionReasonCode, OrderType, limit, market,
  PositionIntent, buy_to_open, InstrumentType, ExecutionPlan, ExecutionAuthorization,
  ExecutionOrder, ExecutionResult, ExecutionStoreRecord,
}
use alpha_council.Execution.Planner.{PlanError, Planned, BrokerAnswers}
use alpha_council.Execution.World.{
  OrderRequest, Error, execution_error, market_data_error, gateway_error, Result, ok, err, Exec,
}

-- What the outside answers during one call of `execute`: the clock at planning, at authorization
-- and at each write of the store, the market, the broker, the tracker's clock, and the text of an
-- exception.
pub record Surroundings (D : Type 0) : Type 0 where
  pub planned_at : ℕ
  pub authorized_at : ℕ
  pub written_at : ℕ
  pub elapsed : ℕ → ℕ
  pub latest_quote : Outcome (QuoteSnapshot D)
  pub broker : Option BrokerAnswers
  pub error_text : Error → String

abbrev pub plan_error : PlanError → Error
plan_error (PlanError.market_data_error reason) = market_data_error
plan_error PlanError.execution_error = execution_error
plan_error PlanError.gateway_error = gateway_error

abbrev pub of_planned : {A : Type 0} → Planned A → Result A
of_planned (Planned.ok a) = ok a
of_planned (Planned.err e) = err (plan_error e)

abbrev pub lift : {D P A : Type 0} → Result A → Exec D P A
lift r w = (r, w)

abbrev pub position_intent_of : InstrumentType → Option PositionIntent
position_intent_of InstrumentType.option = some buy_to_open
position_intent_of _ = none

-- A limit order carries its price, a market order none.
abbrev pub price_for : {D : Type 0} → OrderType → D → Option D
price_for limit price = some price
price_for market price = none

module _ {D : Type 0} where
  abbrev pub request_of : ExecutionPlan D → String → OrderRequest D
  request_of p client_id = record {
    symbol = p.symbol;
    qty = p.quantity;
    side = p.side;
    order_type = p.order_type;
    time_in_force = p.time_in_force;
    limit_price = price_for p.order_type p.limit_price;
    client_order_id = client_id;
    position_intent = position_intent_of p.instrument_type;
  }

  abbrev pub result_of :
      ExecutionPlan D
      → ExecutionAuthorization
      → String
      → ExecutionStatus
      → Option (ExecutionOrder D)
      → List ExecutionReasonCode
      → Option ℕ
      → ExecutionResult D
  result_of p a plan_id status order reasons submitted = record {
    execution_plan_id = p.execution_plan_id;
    instrument_plan_id = plan_id;
    status = status;
    authorization = a;
    execution_plan = p;
    execution_order = order;
    reason_codes = reasons;
    submitted_at = submitted;
  }

  -- `_build_denied_result`
  abbrev pub denied_result : ExecutionPlan D → ExecutionAuthorization → String → ExecutionResult D
  denied_result p a plan_id =
      result_of p a plan_id ExecutionStatus.not_executed none (a.reason_code ∷ []) none

  -- `_build_dry_run_result`
  abbrev pub dry_run_result : ExecutionPlan D → ExecutionAuthorization → String → ExecutionResult D
  dry_run_result p a plan_id =
      result_of p a plan_id ExecutionStatus.authorized none (ExecutionReasonCode.within_limits ∷ [])
        none

  -- The end of `_build_adopted_result`.
  unfoldable pub adopted_result_of :
      ExecutionPlan D
      → ExecutionAuthorization
      → ExecutionStoreRecord
      → String
      → Option (ExecutionOrder D)
      → ExecutionResult D
  adopted_result_of p a r plan_id none =
      result_of p a plan_id ExecutionStatus.unknown none
        (ExecutionReasonCode.duplicate_execution ∷ []) r.submitted_at
  adopted_result_of p a r plan_id (some o) =
      result_of p a plan_id o.status (some o) (ExecutionReasonCode.duplicate_execution ∷ [])
        (some o.submitted_at)

  unfoldable pub pending_record :
      ℕ → ExecutionPlan D → String → String → String → ExecutionStoreRecord
  pending_record now p plan_id key client_id = record {
    execution_plan_id = p.execution_plan_id;
    instrument_plan_id = plan_id;
    idempotency_key = key;
    client_order_id = client_id;
    authorization_state = ExecutionAuthorizationState.authorized;
    provider_order_id = none;
    provider_status = none;
    created_at = now;
    submitted_at = none;
    updated_at = now;
  }
