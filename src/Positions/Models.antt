-- ===== src/Positions/Models.antt =====
-- The states, reasons and texts of the position layer (backend/app/positions/models.py).
use alpha_council.Base.{String, Option, none, some, str_eq, if◌then◌else◌}

-- `open_position` is the status OPEN.
pub data PositionStatus : Type 0 where
  pending_entry open_position partially_exited exit_pending closed : PositionStatus
  reconciliation_required unknown : PositionStatus

pub data ExitState : Type 0 where
  no_exit exit_pending exiting exited reconciliation_required : ExitState

pub data ExitDecisionType : Type 0 where
  hold reduce exit : ExitDecisionType

pub data ExitReasonCode : Type 0 where
  kill_switch hard_stop_triggered max_loss_reached : ExitReasonCode
  risk_constitution_violation option_expiry_approaching max_holding_period : ExitReasonCode
  provider_reconciliation_required position_mismatch manual_close_detected : ExitReasonCode
  take_profit trailing_stop_triggered thesis_invalidated : ExitReasonCode
  trend_reversal momentum_reversal volatility_spike : ExitReasonCode
  portfolio_risk_reduction data_stale within_limits : ExitReasonCode

pub data ExitUrgency : Type 0 where
  immediate high normal no_urgency : ExitUrgency

pub data InstrumentKind : Type 0 where
  stock etf option : InstrumentKind

pub data Side : Type 0 where
  long short : Side

pub data ExitSide : Type 0 where
  sell buy_to_cover sell_to_close : ExitSide

abbrev pub status_text : PositionStatus → String
status_text pending_entry = "PENDING_ENTRY"
status_text open_position = "OPEN"
status_text partially_exited = "PARTIALLY_EXITED"
status_text PositionStatus.exit_pending = "EXIT_PENDING"
status_text closed = "CLOSED"
status_text PositionStatus.reconciliation_required = "RECONCILIATION_REQUIRED"
status_text unknown = "UNKNOWN"

-- `PositionStatus(text)`, which raises a ValueError on any other text
unfoldable pub status_of : String → Option PositionStatus
status_of t =
    if str_eq t "PENDING_ENTRY"
    then some pending_entry
    else (if str_eq t "OPEN"
        then some open_position
        else (if str_eq t "PARTIALLY_EXITED"
            then some partially_exited
            else (if str_eq t "EXIT_PENDING"
                then some PositionStatus.exit_pending
                else (if str_eq t "CLOSED"
                    then some closed
                    else (if str_eq t "RECONCILIATION_REQUIRED"
                        then some PositionStatus.reconciliation_required
                        else (if str_eq t "UNKNOWN" then some unknown else none))))))

abbrev pub exit_text : ExitState → String
exit_text no_exit = "NONE"
exit_text ExitState.exit_pending = "EXIT_PENDING"
exit_text exiting = "EXITING"
exit_text exited = "EXITED"
exit_text ExitState.reconciliation_required = "RECONCILIATION_REQUIRED"

-- `ExitState(text)`
unfoldable pub exit_of : String → Option ExitState
exit_of t =
    if str_eq t "NONE"
    then some no_exit
    else (if str_eq t "EXIT_PENDING"
        then some ExitState.exit_pending
        else (if str_eq t "EXITING"
            then some exiting
            else (if str_eq t "EXITED"
                then some exited
                else (if str_eq t "RECONCILIATION_REQUIRED"
                    then some ExitState.reconciliation_required
                    else none))))

abbrev pub side_text : Side → String
side_text long = "LONG"
side_text short = "SHORT"

-- the check of a field of type Literal["LONG", "SHORT"]
unfoldable pub side_of : String → Option Side
side_of t = if str_eq t "LONG" then some long else (if str_eq t "SHORT" then some short else none)

abbrev pub kind_text : InstrumentKind → String
kind_text stock = "STOCK"
kind_text etf = "ETF"
kind_text option = "OPTION"

unfoldable pub kind_of : String → Option InstrumentKind
kind_of t =
    if str_eq t "STOCK"
    then some stock
    else (if str_eq t "ETF" then some etf else (if str_eq t "OPTION" then some option else none))
