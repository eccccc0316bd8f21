-- ===== src/Execution/Orders.antt =====
-- The other calls of `PaperExecutionGateway` (backend/app/execution/gateway.py): to cancel an order,
-- to list the orders, and to read the account. `list_orders` ignores its argument.
use alpha_council.Base.{String, Bool, List, map}
use alpha_council.Execution.Models.{ExecutionOrder}
use alpha_council.Execution.Validation.{Settings}
use alpha_council.Execution.World.{
  AlpacaOrder, Reply, answered, TradingClient, execution_error, gateway_error, Result, ok, err,
  Exec, ◌>>◌,
}
use alpha_council.Execution.Gateway.{normalize_order, enforce_paper_mode, fetch_by_id}

unfoldable pub acknowledged : Reply (Unit {0}) → Result (Unit {0})
acknowledged (answered u) = ok u
acknowledged _ = err execution_error

module _ {D : Type 0} where
  unfoldable pub all_orders : Reply (List (AlpacaOrder D)) → Result (List (ExecutionOrder D))
  unfolding normalize_order
  all_orders (answered os) = ok (map normalize_order os)
  all_orders _ = err execution_error

-- An exception of the SDK's own call is passed on.
unfoldable pub account_reply : Reply Bool → Result Bool
account_reply (answered active) = ok active
account_reply _ = err gateway_error

module _ {D P : Type 0} (settings : Settings D) (client : TradingClient D P) where
  unfoldable pub request_cancel : String → Exec D P (Unit {0})
  unfolding acknowledged
  request_cancel id w =
      let (reply, p) = client.cancel_order_by_id id w.provider in
      (acknowledged reply, record w { provider = p })

  unfoldable pub cancel_order : String → Exec D P (ExecutionOrder D)
  cancel_order id = do
    enforce_paper_mode settings client
    request_cancel id
    fetch_by_id settings client id

  unfoldable pub fetch_orders : Exec D P (List (ExecutionOrder D))
  unfolding all_orders
  fetch_orders w =
      let (reply, p) = client.get_orders w.provider in (all_orders reply, record w { provider = p })

  unfoldable pub list_orders : Exec D P (List (ExecutionOrder D))
  list_orders = do enforce_paper_mode settings client; fetch_orders

  unfoldable pub fetch_account : Exec D P Bool
  unfolding account_reply
  fetch_account w =
      let (reply, p) = client.get_account w.provider in
      (account_reply reply, record w { provider = p })

  unfoldable pub get_account : Exec D P Bool
  get_account = do enforce_paper_mode settings client; fetch_account
