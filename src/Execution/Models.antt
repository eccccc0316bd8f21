-- ===== src/Execution/Models.antt =====
-- The data of the execution layer (backend/app/execution/models.py). Times are whole seconds of
-- UTC; warnings and the free texts of results are left out.
use Prim.Native.Char.{Char, code}
use Prim.Native.String.{◌++◌}
use alpha_council.Base.{
  ℕ, zero, suc, String, Bool, true, false, ◌&&◌, Option, List, ◌==◌, if◌then◌else◌,
}
use alpha_council.Decimal.{Decimal}
use alpha_council.Market.{SignalDirection}

pub data ExecutionStatus : Type 0 where
  planned authorized submitted partially_filled filled rejected canceled : ExecutionStatus
  expired not_executed unknown failed pending_new accepted new : ExecutionStatus

pub data ExecutionAuthorizationState : Type 0 where
  authorized denied : ExecutionAuthorizationState

pub data ExecutionReasonCode : Type 0 where
  execution_disabled not_paper_mode live_flag_active : ExecutionReasonCode
  upstream_no_trade risk_rejected risk_budget_missing kill_switch_active : ExecutionReasonCode
  market_closed stale_quote invalid_quote spread_too_wide : ExecutionReasonCode
  price_moved_too_far asset_not_tradable asset_not_shortable : ExecutionReasonCode
  plan_expired invalid_quantity notional_exceeded risk_budget_exceeded : ExecutionReasonCode
  duplicate_execution order_already_exists : ExecutionReasonCode
  provider_error internal_validation_failed within_limits : ExecutionReasonCode

pub data OrderType : Type 0 where
  limit market : OrderType

pub data TimeInForce : Type 0 where
  day gtc : TimeInForce

pub data OrderSide : Type 0 where
  buy sell : OrderSide

pub data PositionIntent : Type 0 where
  buy_to_open buy_to_close sell_to_open sell_to_close : PositionIntent

pub data InstrumentType : Type 0 where
  stock etf option : InstrumentType

pub record ExecutionPlan (D : Type 0) : Type 0 where
  pub execution_plan_id : String
  pub instrument_plan_id : String
  pub created_at : ℕ
  pub expires_at : ℕ
  pub symbol : String
  pub instrument_type : InstrumentType
  pub direction : SignalDirection
  pub side : OrderSide
  pub quantity : D
  pub order_type : OrderType
  pub time_in_force : TimeInForce
  pub m5_reference_price : D
  pub fresh_bid : D
  pub fresh_ask : D
  pub fresh_mid : D
  pub limit_price : D
  pub expected_notional : D
  pub risk_budget : D
  pub max_authorized_notional : D
  pub constitution_version : String

pub record ExecutionAuthorization : Type 0 where
  pub execution_plan_id : String
  pub state : ExecutionAuthorizationState
  pub reason_code : ExecutionReasonCode
  pub authorized_at : ℕ

abbrev pub is_authorized_state : ExecutionAuthorizationState → Bool
is_authorized_state ExecutionAuthorizationState.authorized = true
is_authorized_state denied = false

abbrev pub is_authorized : ExecutionAuthorization → Bool
is_authorized a = is_authorized_state a.state

pub record ExecutionOrder (D : Type 0) : Type 0 where
  pub order_id : String
  pub client_order_id : String
  pub symbol : String
  pub side : OrderSide
  pub quantity : D
  pub order_type : OrderType
  pub time_in_force : TimeInForce
  pub limit_price : Option D
  pub status : ExecutionStatus
  pub submitted_at : ℕ
  pub filled_at : Option ℕ
  pub filled_quantity : D
  pub filled_avg_price : Option D
  pub provider_status : String

abbrev pub is_filled_status : ExecutionStatus → Bool
is_filled_status filled = true
is_filled_status _ = false

-- `ExecutionOrder.is_active`
unfoldable pub is_active_status : ExecutionStatus → Bool
is_active_status submitted = true
is_active_status partially_filled = true
is_active_status pending_new = true
is_active_status accepted = true
is_active_status new = true
is_active_status _ = false

-- `ExecutionOrder.is_terminal`
unfoldable pub is_terminal_status : ExecutionStatus → Bool
is_terminal_status filled = true
is_terminal_status canceled = true
is_terminal_status expired = true
is_terminal_status rejected = true
is_terminal_status _ = false

-- `ExecutionResult.is_terminal`
unfoldable pub is_terminal_result : ExecutionStatus → Bool
unfolding is_terminal_status
is_terminal_result not_executed = true
is_terminal_result failed = true
is_terminal_result s = is_terminal_status s

pub record ExecutionResult (D : Type 0) : Type 0 where
  pub execution_plan_id : String
  pub instrument_plan_id : String
  pub status : ExecutionStatus
  pub authorization : ExecutionAuthorization
  pub execution_plan : ExecutionPlan D
  pub execution_order : Option (ExecutionOrder D)
  pub reason_codes : List ExecutionReasonCode
  pub submitted_at : Option ℕ

pub record IdempotencyKey (D : Type 0) : Type 0 where
  pub instrument_plan_id : String
  pub symbol : String
  pub side : OrderSide
  pub quantity : D
  pub risk_authorization_version : String

-- `s[:n]`, by characters
unfoldable pub first_chars : ℕ → String → String
first_chars zero s = ""
first_chars (suc n) String.[] = ""
first_chars (suc n) (String.◌∷◌ c s) = String.◌∷◌ c (first_chars n s)

unfoldable pub side_text : OrderSide → String
side_text buy = "BUY"
side_text sell = "SELL"

-- `IdempotencyKey.to_string`
unfoldable pub key_to_string : {D : Type 0} ⦃d : Decimal D⦄ → IdempotencyKey D → String
unfolding first_chars side_text
key_to_string ⦃d⦄ k =
    "ac-"
    ++ first_chars 8 k.instrument_plan_id
    ++ "-"
    ++ k.symbol
    ++ "-"
    ++ side_text k.side
    ++ "-"
    ++ d.text k.quantity
    ++ "-"
    ++ first_chars 8 k.risk_authorization_version

is_ac : Char → Char → Char → Bool
is_ac a b c = code a == b'a' && code b == b'c' && code c == b'-'

-- `s.replace("ac-", "")`
unfoldable pub remove_ac : String → String
unfolding is_ac
remove_ac (String.◌∷◌ a (String.◌∷◌ b (String.◌∷◌ c s))) =
    let skipped = remove_ac s in
    let kept = String.◌∷◌ a (remove_ac (String.◌∷◌ b (String.◌∷◌ c s))) in
    if is_ac a b c then skipped else kept
remove_ac s = s

-- `ClientOrderId.to_string`, of the text of an idempotency key
unfoldable pub client_order_id_of : String → String
unfolding first_chars remove_ac
client_order_id_of key = first_chars 64 ("ac-" ++ remove_ac key)

pub record ExecutionStoreRecord : Type 0 where
  pub execution_plan_id : String
  pub instrument_plan_id : String
  pub idempotency_key : String
  pub client_order_id : String
  pub authorization_state : ExecutionAuthorizationState
  pub provider_order_id : Option String
  pub provider_status : Option String
  pub created_at : ℕ
  pub submitted_at : Option ℕ
  pub updated_at : ℕ
