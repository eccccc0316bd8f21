-- ===== src/Risk/Decision.antt =====
-- `RiskDecisionEngine` (backend/app/risk/rules.py) and `RiskEvaluationService.evaluate`
-- (backend/app/risk/service.py).
use alpha_council.Base.{◌||◌, Option, none, some, List, [], ◌∷◌, ◌==◌, if◌then◌else◌}
use alpha_council.Decimal.{Decimal, leb, nought}
use alpha_council.Risk.Models.{
  RiskDecisionType, RiskReasonCode, approved, reduced, rejected, calculation_failure, within_limits,
  RiskCheckResult, RiskContext, RiskBudget, RiskEvaluation, or_else, hard_rejections,
  soft_reductions,
}
use alpha_council.Risk.Constitution.{version}
use alpha_council.Risk.Rules.{evaluate_all}
use alpha_council.Risk.Sizer.{compute_budget}

module _ {D : Type 0} ⦃d : Decimal D⦄ where
  abbrev evaluation :
      RiskContext D
      → RiskDecisionType
      → RiskReasonCode
      → List (RiskCheckResult D)
      → Option (RiskBudget D)
      → RiskEvaluation D
  evaluation ctx decision reason checks budget = record {
    symbol = ctx.trade_thesis.symbol;
    decision = decision;
    reason_code = reason;
    checks = checks;
    risk_budget = budget;
    constitution_version = version;
  }

  -- `decide`, by the hard rejections and the soft reductions among the checks.
  unfoldable pub decide_on :
      (hard soft : List (RiskCheckResult D))
      → RiskContext D
      → List (RiskCheckResult D)
      → RiskBudget D
      → RiskEvaluation D
  decide_on (primary ∷ more) soft ctx checks budget =
      evaluation ctx rejected (or_else primary.reason_code calculation_failure) checks none
  decide_on [] [] ctx checks budget =
      if leb budget.adjusted_risk_budget nought || budget.shares == 0
      then evaluation ctx rejected calculation_failure checks (some budget)
      else evaluation ctx approved within_limits checks (some budget)
  decide_on [] (primary ∷ more) ctx checks budget =
      if leb budget.adjusted_risk_budget nought || budget.shares == 0
      then evaluation ctx rejected calculation_failure checks (some budget)
      else evaluation ctx reduced (or_else primary.reason_code within_limits) checks (some budget)

  unfoldable pub decide : RiskContext D → List (RiskCheckResult D) → RiskBudget D → RiskEvaluation D
  unfolding decide_on
  decide ctx checks budget =
      decide_on (hard_rejections checks) (soft_reductions checks) ctx checks budget

  -- `evaluate` after `_build_context`
  unfoldable pub evaluate_context : RiskContext D → RiskEvaluation D
  evaluate_context ctx =
      let checks = evaluate_all ctx in decide ctx checks (compute_budget ctx checks)
