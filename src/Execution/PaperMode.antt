-- ===== src/Execution/PaperMode.antt =====
-- The gateway outside paper mode (backend/app/execution/gateway.py).
use alpha_council.Base.{String, ◌≡◌, refl, false}
use alpha_council.Execution.Validation.{Settings}
use alpha_council.Execution.World.{
  TradingClient, OrderRequest, World, execution_error, err, ◌>>=◌, continue,
}
use alpha_council.Execution.Gateway.{
  paper_settings, enforce_paper_mode, submit_order, get_order_by_id, get_order_by_client_id,
}
use alpha_council.Execution.Orders.{cancel_order, list_orders, get_account}

-- With settings that are not those of paper mode, every call of the gateway, that is a submission,
-- both queries for an order, a cancellation, the list of the orders and the account, raises an
-- ExecutionError and leaves the store, the provider and the journal as they were: the provider is
-- not called.
pub unpaper_is_inert :
    {D P : Type 0} (settings : Settings D) (client : TradingClient D P) (request : OrderRequest D)
    (id : String) (w : World D P)
    → paper_settings settings ≡ false
    → (submit_order settings client request w ≡ (err execution_error, w))
      × (get_order_by_id settings client id w ≡ (err execution_error, w))
      × (get_order_by_client_id settings client id w ≡ (err execution_error, w))
      × (cancel_order settings client id w ≡ (err execution_error, w))
      × (list_orders settings client w ≡ (err execution_error, w))
      × (get_account settings client w ≡ (err execution_error, w))
unfolding submit_order get_order_by_id get_order_by_client_id cancel_order list_orders get_account
    enforce_paper_mode ◌>>=◌ continue
unpaper_is_inert settings client request id w h = (
  rw (h, continue) refl,
  rw (h, continue) refl,
  rw (h, continue) refl,
  rw (h, continue) refl,
  rw (h, continue) refl,
  rw (h, continue) refl,
)
