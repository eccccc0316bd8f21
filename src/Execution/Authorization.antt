-- ===== src/Execution/Authorization.antt =====
-- What an authorization means (backend/app/execution/validation.py, authorization.py).
use alpha_council.Base.{
  ℕ, String, ◌≡◌, ◌≢◌, ◌↔◌, ◌<◌, Bool, true, false, Option, none, some, List, [], ◌∷◌, ◌++◌, arith,
  str_eq,
}
use alpha_council.Decimal.{Decimal, leb, nought, whole}
use alpha_council.Instruments.Models.{
  InstrumentPlan, EquityInstrumentPlan, OptionInstrumentPlan, InstrumentType, stock, etf, option,
  no_trade, is_stock_type, is_option_type,
}
use alpha_council.Risk.Models.{rejected, RiskEvaluation, RiskState}
use alpha_council.Execution.Models.{ExecutionReasonCode, ExecutionPlan, is_authorized}
use alpha_council.Execution.Validation.{
  Settings, risk_rejected_reason, quantity_limit, exceeds, option_loss_exceeds, kill_switch_on,
  m5_quantity, failure_if, decide_authorization, validate_execution_plan, validate_m4_authority,
  validate_upstream_gates, validate_execution_config, all_reasons, authorize,
}

append-nil {ℓ} : {A : Type ℓ} (xs ys : List A) → (xs ++ ys ≡ []) ↔ ((xs ≡ []) × (ys ≡ []))
append-nil [] ys = ground arith
append-nil (x ∷ xs) ys = ground arith

failure_if-nil : (b : Bool) (r : ExecutionReasonCode) → (failure_if b r ≡ []) ↔ (b ≡ false)
failure_if-nil true r = ground arith
failure_if-nil false r = ground arith

decide_authorization-nil :
    (now : ℕ) (id : String) (rs : List ExecutionReasonCode)
    → (is_authorized (decide_authorization now id rs) ≡ true) ↔ (rs ≡ [])
unfolding decide_authorization
decide_authorization-nil now id [] = ground arith
decide_authorization-nil now id (r ∷ rs) = ground arith

-- The configuration allows paper execution and no live trading.
pub record IsPaper {D : Type 0} (s : Settings D) : Type 0 where
  pub enabled : s.enable_execution ≡ true
  pub paper : str_eq s.trading_mode "paper" ≡ true
  pub not_live : s.alpaca_live_trade ≡ false
  pub paper_enabled : s.enable_paper_execution ≡ true

abbrev pub ReasonIsOther : Option String → Type 0
ReasonIsOther none = Unit
ReasonIsOther (some r) = str_eq r "RISK_REJECTED" ≡ false

reason_lem : (r : Option String) → (risk_rejected_reason r ≡ false) ↔ ReasonIsOther r
unfolding risk_rejected_reason
reason_lem none = ground arith
reason_lem (some r) = ground arith

module _ {D : Type 0} ⦃d : Decimal D⦄ where
  abbrev pub SwitchIsOff : Option (RiskState D) → Type 0
  SwitchIsOff none = Unit
  SwitchIsOff (some s) = s.kill_switch_active ≡ false

  -- At most what the instrument plan of that type has planned.
  abbrev pub QuantityIsPlanned :
      InstrumentType
      → Option (EquityInstrumentPlan D)
      → Option (OptionInstrumentPlan D)
      → D
      → Type 0
  QuantityIsPlanned stock (some e) o q = leb q e.estimated_quantity ≡ true
  QuantityIsPlanned etf (some e) o q = leb q e.estimated_quantity ≡ true
  QuantityIsPlanned option e (some o) q = leb q (whole o.planned_contracts) ≡ true
  QuantityIsPlanned _ _ _ q = Unit

  abbrev pub LossIsCovered : InstrumentType → Option (OptionInstrumentPlan D) → D → Type 0
  LossIsCovered option (some o) budget = leb o.maximum_loss budget ≡ true
  LossIsCovered _ _ budget = Unit

  -- The upstream decisions stand: no NO_TRADE, no rejection, a budget, and no kill switch.
  pub record IsBacked (ip : InstrumentPlan D) (e : RiskEvaluation D) (state : Option (RiskState D))
      : Type 0 where
    pub is_trade : ip.instrument_type ≢ no_trade
    pub reason : ReasonIsOther ip.no_trade_reason
    pub not_rejected : e.decision ≢ rejected
    pub budgeted : e.risk_budget ≢ none
    pub switch_off : SwitchIsOff state

  -- The plan is alive, buys something, and stays within the quantity that was planned, the notional
  -- that was authorized, and the budget.
  pub record IsWithin (now : ℕ) (p : ExecutionPlan D) (ip : InstrumentPlan D) : Type 0 where
    pub alive : now < p.expires_at
    pub positive : leb p.quantity nought ≡ false
    pub planned : QuantityIsPlanned ip.instrument_type ip.equity_plan ip.option_plan p.quantity
    pub notional : leb p.expected_notional p.max_authorized_notional ≡ true
    pub budget : leb p.expected_notional p.risk_budget ≡ true
    pub loss : LossIsCovered ip.instrument_type ip.option_plan p.risk_budget

  quantity_lem :
      (t : InstrumentType) (e : Option (EquityInstrumentPlan D))
      (o : Option (OptionInstrumentPlan D)) (q : D)
      → (exceeds q (quantity_limit (is_stock_type t) (is_option_type t) e o) ≡ false)
        ↔ QuantityIsPlanned t e o q
  unfolding exceeds quantity_limit
  quantity_lem stock none none q = ground arith
  quantity_lem stock none (some o) q = ground arith
  quantity_lem stock (some e) o q = ground arith
  quantity_lem etf none none q = ground arith
  quantity_lem etf none (some o) q = ground arith
  quantity_lem etf (some e) o q = ground arith
  quantity_lem option e none q = ground arith
  quantity_lem option e (some o) q = ground arith
  quantity_lem no_trade e none q = ground arith
  quantity_lem no_trade e (some o) q = ground arith

  loss_lem :
      (t : InstrumentType) (o : Option (OptionInstrumentPlan D)) (budget : D)
      → (option_loss_exceeds (is_option_type t) o budget ≡ false) ↔ LossIsCovered t o budget
  unfolding option_loss_exceeds
  loss_lem stock o budget = ground arith
  loss_lem etf o budget = ground arith
  loss_lem no_trade o budget = ground arith
  loss_lem option none budget = ground arith
  loss_lem option (some o) budget = ground arith

  switch_lem : (s : Option (RiskState D)) → (kill_switch_on s ≡ false) ↔ SwitchIsOff s
  unfolding kill_switch_on
  switch_lem none = ground arith
  switch_lem (some s) = ground arith

  config_lem : (s : Settings D) → (validate_execution_config s ≡ []) ↔ IsPaper s
  unfolding validate_execution_config
  config_lem s = ground arith

  within_lem :
      (now : ℕ) (p : ExecutionPlan D) (ip : InstrumentPlan D)
      → (validate_execution_plan now p ip ≡ []) ↔ IsWithin now p ip
  unfolding validate_execution_plan m5_quantity
  within_lem now p ip = ground (
    arith,
    quantity_lem ip.instrument_type ip.equity_plan ip.option_plan p.quantity,
    loss_lem ip.instrument_type ip.option_plan p.risk_budget,
  )

  backed_lem :
      (ip : InstrumentPlan D) (e : RiskEvaluation D) (state : Option (RiskState D))
      → ((validate_upstream_gates ip ≡ []) × (validate_m4_authority e state ≡ []))
        ↔ IsBacked ip e state
  unfolding validate_upstream_gates validate_m4_authority
  backed_lem ip e state = ground (arith, reason_lem ip.no_trade_reason, switch_lem state)

  -- A plan is authorized exactly if the configuration is for paper trading, the upstream decisions
  -- stand, and the plan is within its limits at that time.
  pub authorize_exactly :
      (s : Settings D) (now : ℕ) (p : ExecutionPlan D) (ip : InstrumentPlan D)
      (e : RiskEvaluation D) (state : Option (RiskState D))
      → (is_authorized (authorize s now p ip e state) ≡ true)
        ↔ (IsPaper s × IsBacked ip e state × IsWithin now p ip)
  unfolding authorize all_reasons
  authorize_exactly s now p ip e state =
      let rs = validate_m4_authority e state ++ validate_execution_plan now p ip in
      ground (
        arith,
        decide_authorization-nil now p.execution_plan_id (all_reasons s now p ip e state),
        append-nil (validate_execution_config s) (validate_upstream_gates ip ++ rs),
        append-nil (validate_upstream_gates ip) rs,
        append-nil (validate_m4_authority e state) (validate_execution_plan now p ip),
        config_lem s,
        backed_lem ip e state,
        within_lem now p ip,
      )
