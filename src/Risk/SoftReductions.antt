-- ===== src/Risk/SoftReductions.antt =====
-- The nine soft reductions of `RiskRulesEngine` (backend/app/risk/rules.py).
use alpha_council.Base.{String, true, false, Option, none, some, if◌then◌else◌}
use alpha_council.Base.Int.{pos, leb_ℤ}
use alpha_council.Decimal.{Decimal, decimal, leb, ltb, sub, mul, div, int, nought, one, max, abs}
use alpha_council.Risk.Models.{
  RiskReasonCode, volatility_reduction, liquidity_reduction, confidence_reduction,
  symbol_concentration, gross_exposure, net_exposure, max_positions, soft_reduction,
  RiskCheckResult, NormalizedPosition, RiskContext, equity, gross_exposure_of, net_exposure_of,
  position_count, get_position,
}
use alpha_council.Risk.Constitution.{
  SoftLimit, get_soft_limit, volatility_reduction_slope, max_gross_exposure_pct,
  max_net_exposure_pct,
}

module _ {D : Type 0} where
  abbrev pub soft_passed : String → RiskCheckResult D
  soft_passed name = record {
    rule_name = name;
    rule_type = soft_reduction;
    passed = true;
    reason_code = none;
    reduction_factor = none;
  }

  abbrev pub soft_failed : String → RiskReasonCode → D → RiskCheckResult D
  soft_failed name reason factor = record {
    rule_name = name;
    rule_type = soft_reduction;
    passed = false;
    reason_code = some reason;
    reduction_factor = some factor;
  }

module _ {D : Type 0} ⦃d : Decimal D⦄ where
  -- `max(max(limit.reduction_factor, x), Decimal("0.1"))`
  unfoldable pub floored : SoftLimit D → D → D
  floored limit x = max (max limit.reduction_factor x) (decimal 1000)

  unfoldable pub volatility_on : SoftLimit D → Option D → RiskCheckResult D
  volatility_on limit none = soft_passed "volatility"
  volatility_on limit (some vol) =
      if ltb limit.threshold vol
      then soft_failed "volatility" volatility_reduction
          (floored limit (sub one (mul (sub vol limit.threshold) volatility_reduction_slope)))
      else soft_passed "volatility"

  unfoldable pub check_volatility : RiskContext D → RiskCheckResult D
  unfolding volatility_on
  check_volatility ctx = elim (get_soft_limit "volatility_reduction") [
    | none ↦ soft_passed "volatility"
    | some limit ↦ volatility_on limit ctx.realized_vol_20
  ]

  unfoldable pub liquidity_on : SoftLimit D → Option D → RiskCheckResult D
  liquidity_on limit none = soft_passed "liquidity"
  liquidity_on limit (some volume) =
      if ltb volume limit.threshold
      then soft_failed "liquidity" liquidity_reduction (floored limit (div volume limit.threshold))
      else soft_passed "liquidity"

  unfoldable pub check_liquidity : RiskContext D → RiskCheckResult D
  unfolding liquidity_on
  check_liquidity ctx = elim (get_soft_limit "liquidity_reduction") [
    | none ↦ soft_passed "liquidity"
    | some limit ↦ liquidity_on limit ctx.avg_dollar_volume_20
  ]

  unfoldable pub check_confidence_reduction : RiskContext D → RiskCheckResult D
  check_confidence_reduction ctx = elim (get_soft_limit "confidence_reduction") [
    | none ↦ soft_passed "confidence_reduction"
    | some limit ↦
        if ltb ctx.trade_thesis.committee_confidence limit.threshold
        then soft_failed "confidence_reduction" confidence_reduction limit.reduction_factor
        else soft_passed "confidence_reduction"
  ]

  unfoldable pub concentration_on :
      SoftLimit D → D → Option (NormalizedPosition D) → RiskCheckResult D
  concentration_on limit eq none = soft_passed "symbol_concentration"
  concentration_on limit eq (some existing) =
      if leb eq nought
      then soft_passed "symbol_concentration"
      else let existing_pct = div existing.market_value eq in
        if ltb limit.threshold existing_pct
        then soft_failed "symbol_concentration" symbol_concentration
            (floored limit (sub one (mul (sub existing_pct limit.threshold) (decimal 100_000))))
        else soft_passed "symbol_concentration"

  unfoldable pub check_symbol_concentration : RiskContext D → RiskCheckResult D
  unfolding concentration_on
  check_symbol_concentration ctx = elim (get_soft_limit "symbol_concentration") [
    | none ↦ soft_passed "symbol_concentration"
    | some limit ↦
        concentration_on limit (equity ctx) (get_position ctx.portfolio ctx.trade_thesis.symbol)
  ]

  -- The common test of the two exposure checks, of the exposure `current` against `maximum`.
  unfoldable pub exposure_on : String → RiskReasonCode → SoftLimit D → D → D → RiskCheckResult D
  exposure_on name reason limit maximum current =
      let threshold_amt = mul maximum limit.threshold in
      if ltb threshold_amt current
      then soft_failed name reason
          (floored limit (sub one (div (sub current threshold_amt) maximum)))
      else soft_passed name

  unfoldable pub check_gross_exposure : RiskContext D → RiskCheckResult D
  unfolding exposure_on
  check_gross_exposure ctx = elim (get_soft_limit "gross_exposure") [
    | none ↦ soft_passed "gross_exposure"
    | some limit ↦
        if leb (equity ctx) nought
        then soft_passed "gross_exposure"
        else exposure_on "gross_exposure" gross_exposure limit
            (mul (equity ctx) max_gross_exposure_pct) (gross_exposure_of ctx.portfolio)
  ]

  unfoldable pub check_net_exposure : RiskContext D → RiskCheckResult D
  unfolding exposure_on
  check_net_exposure ctx = elim (get_soft_limit "net_exposure") [
    | none ↦ soft_passed "net_exposure"
    | some limit ↦
        if leb (equity ctx) nought
        then soft_passed "net_exposure"
        else exposure_on "net_exposure" net_exposure limit (mul (equity ctx) max_net_exposure_pct)
            (abs (net_exposure_of ctx.portfolio))
  ]

  unfoldable pub check_max_positions : RiskContext D → RiskCheckResult D
  check_max_positions ctx = elim (get_soft_limit "max_positions") [
    | none ↦ soft_passed "max_positions"
    | some limit ↦
        if leb_ℤ (int limit.threshold) (pos (position_count ctx.portfolio))
        then soft_failed "max_positions" max_positions limit.reduction_factor
        else soft_passed "max_positions"
  ]

  -- Placeholders in the source: they always pass.
  unfoldable pub check_group_concentration : RiskContext D → RiskCheckResult D
  check_group_concentration ctx = soft_passed "group_concentration"

  unfoldable pub check_correlation_redundancy : RiskContext D → RiskCheckResult D
  check_correlation_redundancy ctx = soft_passed "correlation_redundancy"
