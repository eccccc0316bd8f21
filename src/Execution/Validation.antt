-- ===== src/Execution/Validation.antt =====
-- `ExecutionValidator` and `ExecutionAuthorizer` (backend/app/execution/validation.py,
-- authorization.py).
use alpha_council.Base.{
  ℕ, String, Bool, true, false, not, Option, none, some, List, [], ◌∷◌, ◌++◌, is_some, str_eq,
  leb as leb_ℕ, if◌then◌else◌,
}
use alpha_council.Decimal.{Decimal, leb, ltb, nought, whole}
use alpha_council.Instruments.Models.{
  InstrumentPlan, EquityInstrumentPlan, OptionInstrumentPlan, is_stock_type, is_option_type,
  is_no_trade_type,
}
use alpha_council.Risk.Models.{RiskDecisionType, RiskEvaluation, RiskState}
use alpha_council.Execution.Models.{
  ExecutionAuthorizationState, ExecutionReasonCode, execution_disabled, not_paper_mode,
  live_flag_active, upstream_no_trade, risk_rejected, risk_budget_missing, kill_switch_active,
  plan_expired, invalid_quantity, notional_exceeded, risk_budget_exceeded, within_limits,
  ExecutionPlan, ExecutionAuthorization, denied,
}

-- The settings that the execution layer reads (backend/app/core/config.py).
pub record Settings (D : Type 0) : Type 0 where
  pub trading_mode : String
  pub enable_execution : Bool
  pub enable_paper_execution : Bool
  pub alpaca_live_trade : Bool
  pub max_execution_price_deviation_pct : D
  pub max_execution_spread_pct : D
  pub execution_plan_ttl_seconds : ℕ
  pub execution_track_timeout_seconds : ℕ

-- `if test: failures.append(reason)`
abbrev pub failure_if : Bool → ExecutionReasonCode → List ExecutionReasonCode
failure_if bad reason = if bad then reason ∷ [] else []

abbrev pub is_rejected : RiskDecisionType → Bool
is_rejected RiskDecisionType.rejected = true
is_rejected _ = false

unfoldable pub risk_rejected_reason : Option String → Bool
risk_rejected_reason none = false
risk_rejected_reason (some r) = str_eq r "RISK_REJECTED"

unfoldable pub decide_authorization : ℕ → String → List ExecutionReasonCode → ExecutionAuthorization
decide_authorization now id [] = record {
  execution_plan_id = id;
  state = ExecutionAuthorizationState.authorized;
  reason_code = within_limits;
  authorized_at = now;
}
decide_authorization now id (reason ∷ more) = record {
  execution_plan_id = id;
  state = denied;
  reason_code = reason;
  authorized_at = now;
}

module _ {D : Type 0} ⦃d : Decimal D⦄ where
  abbrev pub is_expired : ℕ → ExecutionPlan D → Bool
  is_expired now p = leb_ℕ p.expires_at now

  -- The quantity that the instrument plan allows, where one of the two tests of step 3 applies.
  unfoldable pub quantity_limit :
      Bool → Bool → Option (EquityInstrumentPlan D) → Option (OptionInstrumentPlan D) → Option D
  quantity_limit true is_opt (some e) o = some e.estimated_quantity
  quantity_limit true true none (some o) = some (whole o.planned_contracts)
  quantity_limit false true e (some o) = some (whole o.planned_contracts)
  quantity_limit _ _ _ _ = none

  unfoldable pub m5_quantity : InstrumentPlan D → Option D
  unfolding quantity_limit
  m5_quantity ip =
      quantity_limit (is_stock_type ip.instrument_type) (is_option_type ip.instrument_type)
        ip.equity_plan ip.option_plan

  unfoldable pub exceeds : D → Option D → Bool
  exceeds q none = false
  exceeds q (some bound) = ltb bound q

  unfoldable pub option_loss_exceeds : Bool → Option (OptionInstrumentPlan D) → D → Bool
  option_loss_exceeds true (some o) budget = ltb budget o.maximum_loss
  option_loss_exceeds _ _ budget = false

  unfoldable pub validate_execution_plan :
      ℕ → ExecutionPlan D → InstrumentPlan D → List ExecutionReasonCode
  unfolding exceeds option_loss_exceeds
  validate_execution_plan now p ip =
      failure_if (is_expired now p) plan_expired
      ++ (failure_if (leb p.quantity nought) invalid_quantity
          ++ (failure_if (exceeds p.quantity (m5_quantity ip)) invalid_quantity
              ++ (failure_if (ltb p.max_authorized_notional p.expected_notional) notional_exceeded
                  ++ (failure_if (ltb p.risk_budget p.expected_notional) risk_budget_exceeded
                      ++ failure_if
                          (option_loss_exceeds (is_option_type ip.instrument_type) ip.option_plan
                            p.risk_budget)
                          risk_budget_exceeded))))

  unfoldable pub kill_switch_on : Option (RiskState D) → Bool
  kill_switch_on none = false
  kill_switch_on (some s) = s.kill_switch_active

  -- The comparison of the constitution's version does nothing in the source.
  unfoldable pub validate_m4_authority :
      RiskEvaluation D → Option (RiskState D) → List ExecutionReasonCode
  unfolding kill_switch_on
  validate_m4_authority e state =
      failure_if (is_rejected e.decision) risk_rejected
      ++ (failure_if (not (is_some e.risk_budget)) risk_budget_missing
          ++ failure_if (kill_switch_on state) kill_switch_active)

  unfoldable pub validate_upstream_gates : InstrumentPlan D → List ExecutionReasonCode
  unfolding risk_rejected_reason
  validate_upstream_gates ip =
      failure_if (is_no_trade_type ip.instrument_type) upstream_no_trade
      ++ failure_if (risk_rejected_reason ip.no_trade_reason) risk_rejected

  unfoldable pub validate_execution_config : Settings D → List ExecutionReasonCode
  validate_execution_config s =
      failure_if (not s.enable_execution) execution_disabled
      ++ (failure_if (not (str_eq s.trading_mode "paper")) not_paper_mode
          ++ (failure_if s.alpaca_live_trade live_flag_active
              ++ failure_if (not s.enable_paper_execution) execution_disabled))

  -- All the failures, in the order in which `authorize` collects them.
  unfoldable pub all_reasons :
      Settings D
      → ℕ
      → ExecutionPlan D
      → InstrumentPlan D
      → RiskEvaluation D
      → Option (RiskState D)
      → List ExecutionReasonCode
  all_reasons s now p ip e state =
      validate_execution_config s
      ++ (validate_upstream_gates ip
          ++ (validate_m4_authority e state ++ validate_execution_plan now p ip))

  unfoldable pub authorize :
      Settings D
      → ℕ
      → ExecutionPlan D
      → InstrumentPlan D
      → RiskEvaluation D
      → Option (RiskState D)
      → ExecutionAuthorization
  unfolding decide_authorization
  authorize s now p ip e state =
      decide_authorization now p.execution_plan_id (all_reasons s now p ip e state)
