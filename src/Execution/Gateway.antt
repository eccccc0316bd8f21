-- ===== src/Execution/Gateway.antt =====
-- `PaperExecutionGateway` (backend/app/execution/gateway.py). Every call first enforces paper mode.
use alpha_council.Base.{
  String, Bool, true, not, ◌&&◌, Option, none, some, ◌∷◌, str_eq, if◌then◌else◌,
}
use alpha_council.Execution.Models.{
  ExecutionStatus, limit, market, day, gtc, buy, sell, ExecutionOrder,
}
use alpha_council.Execution.Validation.{Settings}
use alpha_council.Execution.World.{
  AlpacaOrderStatus, AlpacaOrder, OrderRequest, Reply, answered, not_found, failed, TradingClient,
  execution_error, Result, ok, err, Exec, pure, ◌>>=◌, ◌>>◌, try_except,
}

-- The mapping of `_normalize_order`, with UNKNOWN for a status that is not listed.
unfoldable pub status_of : AlpacaOrderStatus → ExecutionStatus
status_of AlpacaOrderStatus.partially_filled = ExecutionStatus.partially_filled
status_of AlpacaOrderStatus.filled = ExecutionStatus.filled
status_of AlpacaOrderStatus.done_for_day = ExecutionStatus.expired
status_of AlpacaOrderStatus.canceled = ExecutionStatus.canceled
status_of AlpacaOrderStatus.expired = ExecutionStatus.expired
status_of AlpacaOrderStatus.rejected = ExecutionStatus.rejected
status_of AlpacaOrderStatus.other = ExecutionStatus.unknown
status_of _ = ExecutionStatus.submitted

unfoldable pub normalize_order : {D : Type 0} → AlpacaOrder D → ExecutionOrder D
unfolding status_of
normalize_order o = record {
  order_id = o.id;
  client_order_id = o.client_order_id;
  symbol = o.symbol;
  side = if o.is_buy then buy else sell;
  quantity = o.qty;
  order_type = if o.is_limit then limit else market;
  time_in_force = if o.is_day then day else gtc;
  limit_price = o.limit_price;
  status = status_of o.status;
  submitted_at = o.submitted_at;
  filled_at = o.filled_at;
  filled_quantity = o.filled_qty;
  filled_avg_price = o.filled_avg_price;
  provider_status = o.status_text;
}

-- The settings that `_enforce_paper_mode` demands, in its order; every failure raises the same.
abbrev pub paper_settings : {D : Type 0} → Settings D → Bool
paper_settings s =
    str_eq s.trading_mode "paper"
    && (not s.alpaca_live_trade && (s.enable_execution && s.enable_paper_execution))

account_verdict : Reply Bool → Result (Unit {0})
account_verdict (answered true) = ok tt
account_verdict _ = err execution_error

module _ {D : Type 0} where
  -- A reply that must be an order.
  unfoldable pub required : Reply (AlpacaOrder D) → Result (ExecutionOrder D)
  unfolding normalize_order
  required (answered o) = ok (normalize_order o)
  required _ = err execution_error

  -- A reply that may say that there is none.
  unfoldable pub optional : Reply (AlpacaOrder D) → Result (Option (ExecutionOrder D))
  unfolding normalize_order
  optional (answered o) = ok (some (normalize_order o))
  optional not_found = ok none
  optional failed = err execution_error

module _ {D P : Type 0} (settings : Settings D) (client : TradingClient D P) where
  unfoldable pub enforce_paper_mode : Exec D P (Unit {0})
  unfolding account_verdict
  enforce_paper_mode w =
      if paper_settings settings
      then (let (reply, p) = client.get_account w.provider in
          (account_verdict reply, record w { provider = p }))
      else (err execution_error, w)

  unfoldable pub send : OrderRequest D → Exec D P (ExecutionOrder D)
  unfolding required
  send request w =
      let (reply, p) = client.submit_order request w.provider in
      (required reply, record w { provider = p; journal = request ∷ w.journal })

  -- `submit_limit_order` and `submit_market_order`, which differ in the request
  unfoldable pub submit_order : OrderRequest D → Exec D P (ExecutionOrder D)
  submit_order request = do enforce_paper_mode; send request

  unfoldable pub fetch_by_id : String → Exec D P (ExecutionOrder D)
  unfolding required
  fetch_by_id id w =
      let (reply, p) = client.get_order_by_id id w.provider in
      (required reply, record w { provider = p })

  unfoldable pub get_order_by_id : String → Exec D P (ExecutionOrder D)
  get_order_by_id id = do enforce_paper_mode; fetch_by_id id

  unfoldable pub fetch_by_client_id : String → Exec D P (Option (ExecutionOrder D))
  unfolding optional
  fetch_by_client_id id w =
      let (reply, p) = client.get_order_by_client_id id w.provider in
      (optional reply, record w { provider = p })

  unfoldable pub get_order_by_client_id : String → Exec D P (Option (ExecutionOrder D))
  get_order_by_client_id id = do enforce_paper_mode; fetch_by_client_id id

  -- The order of an id, `none` where there is no id or the call raises.
  unfoldable pub order_if_any : Option String → Exec D P (Option (ExecutionOrder D))
  order_if_any none = pure none
  order_if_any (some id) =
      if str_eq id ""
      then pure none
      else try_except (do order ← get_order_by_id id; pure (some order)) (λ e. pure none)
