-- ===== src/Risk/Sizer.antt =====
-- `PositionSizer` (backend/app/risk/rules.py): the risk budget and the number of shares.
use alpha_council.Base.{ℕ, Option, none, some, List, [], ◌∷◌, ◌==◌, if◌then◌else◌}
use alpha_council.Base.Int.{pos_part}
use alpha_council.Decimal.{Decimal, leb, ltb, mul, div, int, nought, one, max, min}
use alpha_council.Risk.Models.{
  RiskReasonCode, confidence_reduction, volatility_reduction, liquidity_reduction,
  symbol_concentration, gross_exposure, net_exposure, correlation_redundancy, max_positions,
  calculation_failure, RiskCheckResult, RiskContext, RiskBudget, equity, is_soft_reduction,
}
use alpha_council.Risk.Constitution.{
  base_risk_per_trade, max_position_notional_pct, atr_stop_multiplier, min_stop_distance_pct,
  max_stop_distance_pct,
}

-- The factors that the loop over the checks has collected so far, and the first limiting rule.
pub record Factors (D : Type 0) : Type 0 where
  pub confidence : D
  pub volatility : D
  pub liquidity : D
  pub concentration : D
  pub exposure : D
  pub correlation : D
  pub limiting_rule : Option RiskReasonCode

-- `if limiting_rule is None: limiting_rule = reason`
abbrev pub first_rule : Option RiskReasonCode → RiskReasonCode → Option RiskReasonCode
first_rule none reason = some reason
first_rule (some earlier) reason = some earlier

module _ {D : Type 0} ⦃d : Decimal D⦄ where
  abbrev pub no_reduction : Factors D
  no_reduction = record {
    confidence = one;
    volatility = one;
    liquidity = one;
    concentration = one;
    exposure = one;
    correlation = one;
    limiting_rule = none;
  }

  -- The chain of `elif`s on the reason code.
  unfoldable pub apply_reason : Option RiskReasonCode → D → Factors D → Factors D
  apply_reason (some confidence_reduction) f a = record a {
    confidence = f;
    limiting_rule = first_rule a.limiting_rule confidence_reduction;
  }
  apply_reason (some volatility_reduction) f a = record a {
    volatility = f;
    limiting_rule = first_rule a.limiting_rule volatility_reduction;
  }
  apply_reason (some liquidity_reduction) f a = record a {
    liquidity = f;
    limiting_rule = first_rule a.limiting_rule liquidity_reduction;
  }
  apply_reason (some symbol_concentration) f a = record a {
    concentration = f;
    limiting_rule = first_rule a.limiting_rule symbol_concentration;
  }
  apply_reason (some gross_exposure) f a = record a {
    exposure = min a.exposure f;
    limiting_rule = first_rule a.limiting_rule gross_exposure;
  }
  apply_reason (some net_exposure) f a = record a {
    exposure = min a.exposure f;
    limiting_rule = first_rule a.limiting_rule net_exposure;
  }
  apply_reason (some correlation_redundancy) f a = record a {
    correlation = f;
    limiting_rule = first_rule a.limiting_rule correlation_redundancy;
  }
  apply_reason (some max_positions) f a = record a {
    exposure = min a.exposure f;
    limiting_rule = first_rule a.limiting_rule max_positions;
  }
  apply_reason _ f a = a

  unfoldable pub apply_factor : Option RiskReasonCode → Option D → Factors D → Factors D
  unfolding apply_reason
  apply_factor reason none a = a
  apply_factor reason (some f) a = apply_reason reason f a

  unfoldable pub apply_check : RiskCheckResult D → Factors D → Factors D
  unfolding apply_factor
  apply_check c a =
      if is_soft_reduction c then apply_factor c.reason_code c.reduction_factor a else a

  unfoldable pub collect : List (RiskCheckResult D) → Factors D → Factors D
  collect [] a = a
  collect (c ∷ cs) a = collect cs (apply_check c a)

  unfoldable pub total_of : Factors D → D
  total_of a =
      mul (mul (mul (mul (mul a.confidence a.volatility) a.liquidity) a.concentration) a.exposure)
        a.correlation

  -- The stop from the average true range, clamped to a percentage of the price.
  unfoldable pub stop_distance : D → Option D → Option D
  stop_distance price none = none
  stop_distance price (some atr) =
      if ltb nought atr
      then some (
          max (mul price min_stop_distance_pct)
            (min (mul atr atr_stop_multiplier) (mul price max_stop_distance_pct)))
      else none

  unfoldable pub stop_distance_pct : D → Option D → D
  stop_distance_pct price none = min_stop_distance_pct
  stop_distance_pct price (some stop) =
      if ltb nought stop then div stop price else min_stop_distance_pct

  -- `int(notional / price)` if the price is positive, and at least 0
  unfoldable pub shares_of : D → D → ℕ
  shares_of price notional = if ltb nought price then pos_part (int (div notional price)) else 0

  unfoldable pub zero_budget : RiskReasonCode → RiskBudget D
  zero_budget rule = record {
    base_risk_budget = nought;
    confidence_reduction = one;
    volatility_reduction = one;
    liquidity_reduction = one;
    concentration_reduction = one;
    exposure_reduction = one;
    correlation_reduction = one;
    adjusted_risk_budget = nought;
    atr_stop_distance = none;
    max_position_notional = nought;
    shares = 0;
    limiting_rule = some rule;
  }

  -- The notional of the position: the budget over the stop, capped.
  unfoldable pub position_notional : RiskContext D → Factors D → D
  position_notional ctx a =
      min
        (div (mul (mul (equity ctx) base_risk_per_trade) (total_of a))
          (stop_distance_pct ctx.reference_price (stop_distance ctx.reference_price ctx.atr_14)))
        (mul (equity ctx) max_position_notional_pct)

  unfoldable pub budget_of : RiskContext D → Factors D → RiskBudget D
  budget_of ctx a =
      let base = mul (equity ctx) base_risk_per_trade in
      let n = shares_of ctx.reference_price (position_notional ctx a) in
      record {
        base_risk_budget = base;
        confidence_reduction = a.confidence;
        volatility_reduction = a.volatility;
        liquidity_reduction = a.liquidity;
        concentration_reduction = a.concentration;
        exposure_reduction = a.exposure;
        correlation_reduction = a.correlation;
        adjusted_risk_budget = if n == 0 then nought else mul base (total_of a);
        atr_stop_distance = stop_distance ctx.reference_price ctx.atr_14;
        max_position_notional = mul (equity ctx) max_position_notional_pct;
        shares = n;
        limiting_rule = a.limiting_rule;
      }

  unfoldable pub compute_budget : RiskContext D → List (RiskCheckResult D) → RiskBudget D
  unfolding zero_budget
  compute_budget ctx checks =
      if leb (equity ctx) nought
      then zero_budget calculation_failure
      else budget_of ctx (collect checks no_reduction)
