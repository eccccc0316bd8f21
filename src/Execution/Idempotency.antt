-- ===== src/Execution/Idempotency.antt =====
-- `IdempotencyManager` (backend/app/execution/idempotency.py).
use alpha_council.Base.{String, Option, none, some}
use alpha_council.Decimal.{Decimal, whole}
use alpha_council.Instruments.Models.{EquityInstrumentPlan, OptionInstrumentPlan, InstrumentPlan}
use alpha_council.Risk.Models.{RiskEvaluation}
use alpha_council.Execution.Models.{
  ExecutionAuthorizationState, buy, ExecutionOrder, IdempotencyKey, remove_ac, ExecutionStoreRecord,
}
use alpha_council.Execution.Planner.{side_of}
use alpha_council.Execution.Store.{Written, written, integrity_error, upsert}
use alpha_council.Execution.World.{World, Error, Result, ok, err, Exec, value_error}

-- `ExecutionStore.upsert` as a method
abbrev pub store_written : {D P : Type 0} → Written → World D P → Result (Unit {0}) × World D P
store_written (written t) w = (ok tt, record w { store = t })
store_written integrity_error w = (err Error.integrity_error, w)

unfoldable pub save : {D P : Type 0} → ExecutionStoreRecord → Exec D P (Unit {0})
save r w = store_written (upsert r w.store) w

module _ {D : Type 0} ⦃d : Decimal D⦄ where
  unfoldable pub key_of :
      String
      → String
      → String
      → Option (EquityInstrumentPlan D)
      → Option (OptionInstrumentPlan D)
      → Result (IdempotencyKey D)
  key_of plan_id symbol version (some e) o = ok (record {
    instrument_plan_id = plan_id;
    symbol = symbol;
    side = side_of e.side;
    quantity = e.estimated_quantity;
    risk_authorization_version = version;
  })
  key_of plan_id symbol version none (some o) = ok (record {
    instrument_plan_id = plan_id;
    symbol = symbol;
    side = buy;
    quantity = whole o.planned_contracts;
    risk_authorization_version = version;
  })
  key_of plan_id symbol version none none = err value_error

  unfoldable pub generate_idempotency_key :
      InstrumentPlan D → RiskEvaluation D → Result (IdempotencyKey D)
  unfolding key_of
  generate_idempotency_key ip e =
      key_of ip.plan_id ip.symbol e.constitution_version ip.equity_plan ip.option_plan

-- The record of an adopted order.
unfoldable pub adopted_record : {D : Type 0} → ExecutionOrder D → ExecutionStoreRecord
adopted_record o = record {
  execution_plan_id = remove_ac o.client_order_id;
  instrument_plan_id = remove_ac o.client_order_id;
  idempotency_key = o.client_order_id;
  client_order_id = o.client_order_id;
  authorization_state = ExecutionAuthorizationState.authorized;
  provider_order_id = some o.order_id;
  provider_status = some o.provider_status;
  created_at = o.submitted_at;
  submitted_at = some o.submitted_at;
  updated_at = o.submitted_at;
}
