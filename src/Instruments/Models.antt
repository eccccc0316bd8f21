-- ===== src/Instruments/Models.antt =====
-- The instrument plan that the execution layer takes (backend/app/instruments/models.py). Greeks,
-- scores and free-text reasons are left out.
use alpha_council.Base.{ℕ, String, Bool, true, false, Option}
use alpha_council.Market.{SignalDirection}

pub data InstrumentType : Type 0 where
  stock etf option no_trade : InstrumentType

pub data EquitySide : Type 0 where
  long short : EquitySide

pub record EquityInstrumentPlan (D : Type 0) : Type 0 where
  pub side : EquitySide
  pub reference_price : D
  pub max_notional : D
  pub planned_notional : D
  pub estimated_quantity : D
  pub risk_budget_used : D
  pub estimated_loss_at_risk_stop : D

pub record OptionInstrumentPlan (D : Type 0) : Type 0 where
  pub contract_symbol : String
  pub multiplier : ℕ
  pub planned_contracts : ℕ
  pub maximum_loss : D
  pub risk_budget_used : D

pub record InstrumentPlan (D : Type 0) : Type 0 where
  pub plan_id : String
  pub symbol : String
  pub thesis_direction : SignalDirection
  pub instrument_type : InstrumentType
  pub equity_plan : Option (EquityInstrumentPlan D)
  pub option_plan : Option (OptionInstrumentPlan D)
  pub no_trade_reason : Option String

abbrev pub is_stock_type : InstrumentType → Bool
is_stock_type stock = true
is_stock_type etf = true
is_stock_type _ = false

abbrev pub is_option_type : InstrumentType → Bool
is_option_type option = true
is_option_type _ = false

abbrev pub is_no_trade_type : InstrumentType → Bool
is_no_trade_type no_trade = true
is_no_trade_type _ = false
