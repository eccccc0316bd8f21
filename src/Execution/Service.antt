-- ===== src/Execution/Service.antt =====
-- `ExecutionService` (backend/app/execution/service.py).
use Prim.Native.String.{◌++◌}
use alpha_council.Base.{String, Bool, ◌&&◌, Option, none, some, [], ◌∷◌, if◌then◌else◌}
use alpha_council.Decimal.{Decimal}
use alpha_council.Instruments.Models.{InstrumentPlan}
use alpha_council.Risk.Models.{RiskEvaluation, RiskState}
use alpha_council.Execution.Models.{
  ExecutionStatus, ExecutionReasonCode, ExecutionPlan, ExecutionAuthorization, is_authorized_state,
  ExecutionOrder, ExecutionResult, is_active_status, IdempotencyKey, key_to_string,
  client_order_id_of, ExecutionStoreRecord,
}
use alpha_council.Execution.Validation.{Settings, authorize}
use alpha_council.Execution.Planner.{build_execution_plan}
use alpha_council.Execution.Store.{
  get_by_idempotency_key, has_order_id, update_provider_info, update_status,
}
use alpha_council.Execution.World.{
  TradingClient, Error, Result, ok, err, Exec, pure, ◌>>=◌, ◌>>◌, try_except, modify_store,
}
use alpha_council.Execution.Gateway.{submit_order, order_if_any, get_order_by_client_id}
use alpha_council.Execution.Idempotency.{save, generate_idempotency_key, adopted_record}
use alpha_council.Execution.Tracking.{track_order}
use alpha_council.Execution.Results.{
  Surroundings, of_planned, lift, request_of, result_of, denied_result, dry_run_result,
  adopted_result_of, pending_record,
}

module _ {D P : Type 0} (settings : Settings D) (client : TradingClient D P)
    (env : Surroundings D) where
  -- `_build_adopted_result`
  unfoldable pub adopted_result :
      ExecutionPlan D
      → ExecutionAuthorization
      → ExecutionStoreRecord
      → String
      → Exec D P (ExecutionResult D)
  adopted_result p a r plan_id = do
    order ← order_if_any settings client r.provider_order_id
    pure (adopted_result_of p a r plan_id order)

  -- The result of a submission, tracked if that is asked for.
  unfoldable pub finish :
      ExecutionPlan D
      → ExecutionAuthorization
      → String
      → Bool
      → ExecutionOrder D
      → Exec D P (ExecutionResult D)
  finish p a plan_id track order w =
      let result = result_of p a plan_id order.status (some order) [] (some order.submitted_at) in
      if track && is_active_status order.status
      then (let (tracked, w') = track_order settings client env.elapsed env.written_at result w in
          (ok tracked, w'))
      else (ok result, w)

  -- The body of the `try` of `_submit_and_track`.
  unfoldable pub submission :
      ExecutionPlan D
      → ExecutionAuthorization
      → String
      → String
      → Bool
      → Exec D P (ExecutionResult D)
  submission p a plan_id client_id track = do
    order ← submit_order settings client (request_of p client_id)
    modify_store (
        update_provider_info env.written_at p.execution_plan_id order.order_id order.provider_status
          (some order.submitted_at))
    finish p a plan_id track order

  -- Its `except`.
  unfoldable pub failure :
      ExecutionPlan D → ExecutionAuthorization → String → Error → Exec D P (ExecutionResult D)
  failure p a plan_id e = do
    modify_store (update_status env.written_at p.execution_plan_id ("FAILED: " ++ env.error_text e))
    pure (
        result_of p a plan_id ExecutionStatus.failed none (ExecutionReasonCode.provider_error ∷ [])
          none)

  -- `_submit_and_track`
  unfoldable pub submit_and_track :
      ExecutionPlan D
      → ExecutionAuthorization
      → String
      → String
      → String
      → Bool
      → Exec D P (ExecutionResult D)
  submit_and_track p a plan_id key client_id track = do
    save (pending_record env.written_at p plan_id key client_id)
    try_except (submission p a plan_id client_id track) (failure p a plan_id)

  -- After the duplicate checks: a dry run stops here.
  unfoldable pub no_duplicate :
      ExecutionPlan D
      → ExecutionAuthorization
      → String
      → String
      → String
      → Bool
      → Bool
      → Exec D P (ExecutionResult D)
  no_duplicate p a plan_id key client_id dry_run track =
      if dry_run
      then pure (dry_run_result p a plan_id)
      else submit_and_track p a plan_id key client_id track

  -- An order that the provider already has is adopted.
  unfoldable pub with_provider :
      ExecutionPlan D
      → ExecutionAuthorization
      → String
      → String
      → String
      → Bool
      → Bool
      → Option (ExecutionOrder D)
      → Exec D P (ExecutionResult D)
  with_provider p a plan_id key client_id dry_run track none =
      no_duplicate p a plan_id key client_id dry_run track
  with_provider p a plan_id key client_id dry_run track (some order) = do
    save (adopted_record order)
    adopted_result p a (adopted_record order) plan_id

  -- `check_duplicate_provider` and what follows it.
  unfoldable pub check_provider :
      ExecutionPlan D
      → ExecutionAuthorization
      → String
      → String
      → String
      → Bool
      → Bool
      → Exec D P (ExecutionResult D)
  check_provider p a plan_id key client_id dry_run track = do
    existing ← get_order_by_client_id settings client client_id
    with_provider p a plan_id key client_id dry_run track existing

  -- A record with a provider's order id is adopted.
  unfoldable pub with_local :
      ExecutionPlan D
      → ExecutionAuthorization
      → String
      → String
      → String
      → Bool
      → Bool
      → Option ExecutionStoreRecord
      → Exec D P (ExecutionResult D)
  with_local p a plan_id key client_id dry_run track none =
      check_provider p a plan_id key client_id dry_run track
  with_local p a plan_id key client_id dry_run track (some r) =
      if has_order_id r.provider_order_id
      then adopted_result p a r plan_id
      else check_provider p a plan_id key client_id dry_run track

  -- The idempotency check, for the key that was generated.
  unfoldable pub keyed_execution :
      ⦃d : Decimal D⦄
      → ExecutionPlan D
      → ExecutionAuthorization
      → String
      → Bool
      → Bool
      → Result (IdempotencyKey D)
      → Exec D P (ExecutionResult D)
  keyed_execution p a plan_id dry_run track (err e) w = (err e, w)
  keyed_execution p a plan_id dry_run track (ok k) w =
      let key = key_to_string k in
      with_local p a plan_id key (client_order_id_of key) dry_run track
        (get_by_idempotency_key key w.store) w

  -- From the authorization on.
  unfoldable pub authorized_execution :
      ⦃d : Decimal D⦄
      → ExecutionPlan D
      → ExecutionAuthorization
      → InstrumentPlan D
      → RiskEvaluation D
      → Bool
      → Bool
      → Exec D P (ExecutionResult D)
  authorized_execution p a ip e dry_run track =
      if is_authorized_state a.state
      then keyed_execution p a ip.plan_id dry_run track (generate_idempotency_key ip e)
      else pure (denied_result p a ip.plan_id)

  -- `execute`
  unfoldable pub execute :
      ⦃d : Decimal D⦄
      → InstrumentPlan D
      → RiskEvaluation D
      → Option (RiskState D)
      → Bool
      → Bool
      → Exec D P (ExecutionResult D)
  execute ip e state dry_run track = do
    p ←
        lift (
          of_planned
            (build_execution_plan settings env.planned_at env.latest_quote env.broker ip e))
    authorized_execution p (authorize settings env.authorized_at p ip e state) ip e dry_run track
