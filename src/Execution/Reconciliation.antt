-- ===== src/Execution/Reconciliation.antt =====
-- `ExecutionReconciler` (backend/app/execution/reconciliation.py).
use alpha_council.Base.{
  ℕ, String, Bool, Option, none, some, List, [], ◌∷◌, ◌++◌, is_some, str_eq, if◌then◌else◌,
}
use alpha_council.Execution.Models.{ExecutionOrder, ExecutionStoreRecord}
use alpha_council.Execution.Validation.{Settings}
use alpha_council.Execution.Store.{
  Table, get_by_execution_plan_id, get_pending_executions, get_active_executions,
  update_provider_info, update_status,
}
use alpha_council.Execution.World.{
  TradingClient, ok, Exec, pure, ◌>>=◌, ◌>>◌, try_except, modify_store,
}
use alpha_council.Execution.Gateway.{get_order_by_client_id, order_if_any}

pub record ExecutionReconciliationResult (D : Type 0) : Type 0 where
  pub local_record : ExecutionStoreRecord
  pub provider_order : Option (ExecutionOrder D)
  pub reconciled : Bool

-- What the store learns of a record.
unfoldable pub reconcile_store :
    {D : Type 0} → ℕ → ExecutionStoreRecord → Option (ExecutionOrder D) → Table → Table
reconcile_store now r none = update_status now r.execution_plan_id "UNKNOWN_PROVIDER"
reconcile_store now r (some o) =
    update_provider_info now r.execution_plan_id o.order_id o.provider_status (some o.submitted_at)

module _ {D P : Type 0} (settings : Settings D) (client : TradingClient D P) where
  -- The second attempt, by the client's id, where the first has found nothing.
  unfoldable pub by_client_id :
      ExecutionStoreRecord → Option (ExecutionOrder D) → Exec D P (Option (ExecutionOrder D))
  by_client_id r (some o) = pure (some o)
  by_client_id r none =
      if str_eq r.client_order_id ""
      then pure none
      else try_except (get_order_by_client_id settings client r.client_order_id) (λ e. pure none)

module _ {D P : Type 0} (settings : Settings D) (client : TradingClient D P) (now : ℕ) where
  -- `_reconcile_record`
  unfoldable pub reconcile_record :
      ExecutionStoreRecord → Exec D P (ExecutionReconciliationResult D)
  reconcile_record r = do
    first ← order_if_any settings client r.provider_order_id
    found ← by_client_id settings client r first
    modify_store (reconcile_store now r found)
    pure (record { local_record = r; provider_order = found; reconciled = is_some found })

  unfoldable pub reconcile_each :
      List ExecutionStoreRecord → Exec D P (List (ExecutionReconciliationResult D))
  reconcile_each [] = pure []
  reconcile_each (r ∷ rs) = do
    result ← reconcile_record r
    rest ← reconcile_each rs
    pure (result ∷ rest)

  -- `reconcile_pending_executions`: both lists are read before the first record is reconciled
  unfoldable pub reconcile_pending_executions : Exec D P (List (ExecutionReconciliationResult D))
  reconcile_pending_executions w =
      reconcile_each (get_pending_executions now w.store ++ get_active_executions w.store) w

  -- `reconcile_specific`
  unfoldable pub reconcile_specific : String → Exec D P (Option (ExecutionReconciliationResult D))
  reconcile_specific id w = elim (get_by_execution_plan_id id w.store) [
    | none ↦ (ok none, w)
    | some r ↦ (do result ← reconcile_record r; pure (some result)) w
  ]
