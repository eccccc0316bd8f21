-- ===== src/Positions/Records.antt =====
-- The records of the position layer (backend/app/positions/models.py, monitor.py). Times are whole
-- seconds of UTC; results of executions and audit records are left out.
use alpha_council.Base.{ℕ, String, Bool, true, false, Option, none, some, List, any, if◌then◌else◌}
use alpha_council.Decimal.{Decimal, leb, nought, sub, div}
use alpha_council.Positions.Models.{
  PositionStatus, ExitState, ExitDecisionType, exit, ExitReasonCode, kill_switch,
  hard_stop_triggered, max_loss_reached, risk_constitution_violation, option_expiry_approaching,
  max_holding_period, provider_reconciliation_required, position_mismatch, manual_close_detected,
  ExitUrgency, InstrumentKind, Side, long, short, ExitSide, status_text, status_of, exit_text,
  exit_of, side_text, side_of, kind_text, kind_of,
}

pub record ManagedPosition (D : Type 0) : Type 0 where
  pub position_id : String
  pub symbol : String
  pub instrument_type : InstrumentKind
  pub side : Side
  pub entry_execution_id : String
  pub entry_order_id : String
  pub instrument_plan_id : String
  pub entry_timestamp : ℕ
  pub entry_price : D
  pub initial_quantity : D
  pub current_quantity : D
  pub current_price : D
  pub initial_notional : D
  pub current_notional : D
  pub risk_budget_at_entry : D
  pub constitution_version : String
  pub initial_stop_reference : Option D
  pub current_stop_reference : Option D
  pub highest_price_since_entry : Option D
  pub lowest_price_since_entry : Option D
  pub unrealized_pnl : D
  pub unrealized_pnl_pct : D
  pub realized_pnl : D
  pub status : PositionStatus
  pub exit_state : ExitState
  pub created_at : ℕ
  pub updated_at : ℕ
  pub mfe : D
  pub mae : D

pub record PositionStoreRecord (D : Type 0) : Type 0 where
  pub position_id : String
  pub symbol : String
  pub instrument_type : String
  pub side : String
  pub entry_execution_id : String
  pub entry_order_id : String
  pub instrument_plan_id : String
  pub entry_timestamp : ℕ
  pub entry_price : D
  pub initial_quantity : D
  pub current_quantity : D
  pub current_price : D
  pub initial_notional : D
  pub current_notional : D
  pub risk_budget_at_entry : D
  pub constitution_version : String
  pub initial_stop_reference : Option D
  pub current_stop_reference : Option D
  pub highest_price_since_entry : Option D
  pub lowest_price_since_entry : Option D
  pub unrealized_pnl : D
  pub unrealized_pnl_pct : D
  pub realized_pnl : D
  pub status : String
  pub exit_state : String
  pub created_at : ℕ
  pub updated_at : ℕ
  pub mfe : D
  pub mae : D

pub record PositionSnapshot (D : Type 0) : Type 0 where
  pub current_price : D
  pub bid_price : Option D
  pub ask_price : Option D
  pub midpoint : Option D
  pub market_value : D
  pub unrealized_pnl : D
  pub unrealized_pnl_pct : D
  pub time_in_trade_seconds : ℕ
  pub highest_price_since_entry : Option D
  pub lowest_price_since_entry : Option D
  pub distance_to_stop_pct : Option D
  pub distance_to_high_watermark_pct : Option D
  pub distance_to_low_watermark_pct : Option D
  pub mfe : D
  pub mae : D
  pub current_atr : Option D
  pub atr_movement_pct : Option D

pub record ExitDecision (D : Type 0) : Type 0 where
  pub position_id : String
  pub symbol : String
  pub decision : ExitDecisionType
  pub reason_codes : List ExitReasonCode
  pub urgency : ExitUrgency
  pub target_quantity_to_close : D
  pub quantity_remaining : D
  pub reference_price : D
  pub fresh_bid : Option D
  pub fresh_ask : Option D
  pub fresh_mid : Option D

pub record ExitPlan (D : Type 0) : Type 0 where
  pub position_id : String
  pub symbol : String
  pub instrument_type : InstrumentKind
  pub decision : ExitDecisionType
  pub side : ExitSide
  pub quantity : D
  pub reason_codes : List ExitReasonCode
  pub urgency : ExitUrgency
  pub fresh_bid : Option D
  pub fresh_ask : Option D
  pub fresh_mid : Option D
  pub reference_price : D
  pub limit_price : Option D
  pub expected_notional : D
  pub risk_state_reference : Option String
  pub constitution_version : String
  pub created_at : ℕ
  pub expires_at : ℕ

pub record PositionReconciliationResult (D : Type 0) : Type 0 where
  pub position_id : String
  pub symbol : String
  pub local_quantity : D
  pub provider_quantity : D
  pub local_notional : D
  pub provider_notional : D
  pub reconciled : Bool
  pub action_required : Bool
  pub mismatch_detected : Bool
  pub position_missing_at_provider : Bool
  pub unexpected_provider_position : Bool
  pub local_side : Option Side
  pub provider_side : Option Side

abbrev pub is_exit : ExitDecisionType → Bool
is_exit exit = true
is_exit _ = false

-- the reasons of `ExitDecision.is_hard_exit`
abbrev pub is_hard_reason : ExitReasonCode → Bool
is_hard_reason kill_switch = true
is_hard_reason hard_stop_triggered = true
is_hard_reason max_loss_reached = true
is_hard_reason risk_constitution_violation = true
is_hard_reason option_expiry_approaching = true
is_hard_reason max_holding_period = true
is_hard_reason provider_reconciliation_required = true
is_hard_reason position_mismatch = true
is_hard_reason manual_close_detected = true
is_hard_reason _ = false

module _ {D : Type 0} where
  abbrev pub is_hard_exit : ExitDecision D → Bool
  is_hard_exit d = any (λ r. is_hard_reason r) d.reason_codes

  -- `ManagedPosition.to_store_record`
  unfoldable pub to_store_record : ManagedPosition D → PositionStoreRecord D
  to_store_record p = record {
    position_id = p.position_id;
    symbol = p.symbol;
    instrument_type = kind_text p.instrument_type;
    side = side_text p.side;
    entry_execution_id = p.entry_execution_id;
    entry_order_id = p.entry_order_id;
    instrument_plan_id = p.instrument_plan_id;
    entry_timestamp = p.entry_timestamp;
    entry_price = p.entry_price;
    initial_quantity = p.initial_quantity;
    current_quantity = p.current_quantity;
    current_price = p.current_price;
    initial_notional = p.initial_notional;
    current_notional = p.current_notional;
    risk_budget_at_entry = p.risk_budget_at_entry;
    constitution_version = p.constitution_version;
    initial_stop_reference = p.initial_stop_reference;
    current_stop_reference = p.current_stop_reference;
    highest_price_since_entry = p.highest_price_since_entry;
    lowest_price_since_entry = p.lowest_price_since_entry;
    unrealized_pnl = p.unrealized_pnl;
    unrealized_pnl_pct = p.unrealized_pnl_pct;
    realized_pnl = p.realized_pnl;
    status = status_text p.status;
    exit_state = exit_text p.exit_state;
    created_at = p.created_at;
    updated_at = p.updated_at;
    mfe = p.mfe;
    mae = p.mae;
  }

  abbrev pub managed :
      PositionStoreRecord D → InstrumentKind → Side → PositionStatus → ExitState → ManagedPosition D
  managed r kind side status exit_state = record {
    position_id = r.position_id;
    symbol = r.symbol;
    instrument_type = kind;
    side = side;
    entry_execution_id = r.entry_execution_id;
    entry_order_id = r.entry_order_id;
    instrument_plan_id = r.instrument_plan_id;
    entry_timestamp = r.entry_timestamp;
    entry_price = r.entry_price;
    initial_quantity = r.initial_quantity;
    current_quantity = r.current_quantity;
    current_price = r.current_price;
    initial_notional = r.initial_notional;
    current_notional = r.current_notional;
    risk_budget_at_entry = r.risk_budget_at_entry;
    constitution_version = r.constitution_version;
    initial_stop_reference = r.initial_stop_reference;
    current_stop_reference = r.current_stop_reference;
    highest_price_since_entry = r.highest_price_since_entry;
    lowest_price_since_entry = r.lowest_price_since_entry;
    unrealized_pnl = r.unrealized_pnl;
    unrealized_pnl_pct = r.unrealized_pnl_pct;
    realized_pnl = r.realized_pnl;
    status = status;
    exit_state = exit_state;
    created_at = r.created_at;
    updated_at = r.updated_at;
    mfe = r.mfe;
    mae = r.mae;
  }

  abbrev pub managed_if :
      PositionStoreRecord D
      → Option InstrumentKind
      → Option Side
      → Option PositionStatus
      → Option ExitState
      → Option (ManagedPosition D)
  managed_if r (some kind) (some side) (some status) (some exit_state) =
      some (managed r kind side status exit_state)
  managed_if r _ _ _ _ = none

  -- `_store_record_to_managed_position`, which raises on a text that is no member
  unfoldable pub store_record_to_managed_position :
      PositionStoreRecord D → Option (ManagedPosition D)
  store_record_to_managed_position r =
      managed_if r (kind_of r.instrument_type) (side_of r.side) (status_of r.status)
        (exit_of r.exit_state)

module _ {D : Type 0} ⦃d : Decimal D⦄ where
  abbrev pub quantity_filled_pct : ManagedPosition D → D
  quantity_filled_pct p =
      if leb p.initial_quantity nought then nought else div p.current_quantity p.initial_quantity

  abbrev pnl_on : Side → D → D → D
  pnl_on long entry current = div (sub current entry) entry
  pnl_on short entry current = div (sub entry current) entry

  abbrev pub pnl_pct : ManagedPosition D → D
  pnl_pct p =
      if leb p.entry_price nought then nought else pnl_on p.side p.entry_price p.current_price

  abbrev pub spread_pct : PositionSnapshot D → Option D
  spread_pct s = elim s.bid_price [
    | none ↦ none
    | some bid ↦ elim s.ask_price [
      | none ↦ none
      | some ask ↦ elim s.midpoint [
        | none ↦ none
        | some mid ↦ if leb mid nought then none else some (div (sub ask bid) mid)
      ]
    ]
  ]
