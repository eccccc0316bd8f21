-- ===== src/Risk/Factors.antt =====
-- The range of the reduction factors, of each check and collected (backend/app/risk/rules.py).
use alpha_council.Base.{String, ◌≡◌, true, false, Option, none, some, List, [], ◌∷◌, arith, All}
use alpha_council.Decimal.{Decimal, decimal, leb, sub, mul, div, nought, one, max, abs}
use alpha_council.Decimal.Laws.{IsDecimal}
use alpha_council.Decimal.Lemmas.{le_refl, le_of_not_le}
use alpha_council.Risk.Models.{
  RiskReasonCode, gross_exposure, net_exposure, gross_exposure_of, net_exposure_of,
  confidence_reduction, RiskCheckResult, RiskContext, equity, NormalizedPosition, get_position,
}
use alpha_council.Risk.Constitution.{SoftLimit, soft}
use alpha_council.Risk.SoftReductions.{
  floored, volatility_on, check_volatility, liquidity_on, check_liquidity,
  check_confidence_reduction, concentration_on, check_symbol_concentration, exposure_on,
  check_gross_exposure, check_net_exposure, check_max_positions, check_group_concentration,
  check_correlation_redundancy,
}
use alpha_council.Risk.Rules.{soft_checks}
use alpha_council.Risk.Sizer.{
  Factors, no_reduction, apply_reason, apply_factor, apply_check, collect, total_of,
}

module _ {D : Type 0} ⦃d : Decimal D⦄ where
  -- Between 0.1 and 1, as the constructor of a check demands of its factor (it wants 0 to 1).
  abbrev pub IsFactor : D → Type 0
  IsFactor f = (leb (decimal 1000) f ≡ true) × (leb f one ≡ true)

  abbrev pub HasFactor : Option D → Type 0
  HasFactor none = Unit
  HasFactor (some f) = IsFactor f

  abbrev pub IsShare : D → Type 0
  IsShare f = (leb nought f ≡ true) × (leb f one ≡ true)

  pub record AreShares (a : Factors D) : Type 0 where
    pub confidence : IsShare a.confidence
    pub volatility : IsShare a.volatility
    pub liquidity : IsShare a.liquidity
    pub concentration : IsShare a.concentration
    pub exposure : IsShare a.exposure
    pub correlation : IsShare a.correlation

  module _ (laws : IsDecimal D) where
    floored-IsFactor :
        (limit : SoftLimit D) (x : D)
        → leb limit.reduction_factor one ≡ true
        → leb x one ≡ true
        → IsFactor (floored limit x)
    unfolding floored
    floored-IsFactor limit x h k = ground (
      arith,
      le_refl laws (decimal 1000),
      le_of_not_le laws (max limit.reduction_factor x) (decimal 1000),
      le_of_not_le laws (decimal 1000) (max limit.reduction_factor x),
      laws.constant_le 1000 10_000,
    )

    volatility-HasFactor :
        (limit : SoftLimit D) (vol : Option D)
        → leb limit.reduction_factor one ≡ true
        → HasFactor (volatility_on limit vol).reduction_factor
    unfolding volatility_on
    volatility-HasFactor limit none h = tt
    volatility-HasFactor limit (some vol) h =
        let excess = sub vol limit.threshold in
        ground (
          arith,
          floored-IsFactor limit (sub one (mul excess (decimal 5000))),
          laws.sub_le one (mul excess (decimal 5000)),
          laws.mul_nonneg excess (decimal 5000),
          laws.sub_nonneg vol limit.threshold,
          le_of_not_le laws vol limit.threshold,
          laws.constant_le 0 5000,
        )

    liquidity-HasFactor :
        (limit : SoftLimit D) (volume : Option D)
        → leb limit.reduction_factor one ≡ true
        → leb limit.threshold nought ≡ false
        → HasFactor (liquidity_on limit volume).reduction_factor
    unfolding liquidity_on
    liquidity-HasFactor limit none h p = tt
    liquidity-HasFactor limit (some volume) h p = ground (
      arith,
      floored-IsFactor limit (div volume limit.threshold),
      laws.div_mono volume limit.threshold limit.threshold,
      laws.div_self limit.threshold,
      laws.le_trans (div volume limit.threshold) (div limit.threshold limit.threshold) one,
      le_of_not_le laws limit.threshold volume,
    )

    concentration-HasFactor :
        (limit : SoftLimit D) (eq : D) (p : Option (NormalizedPosition D))
        → leb limit.reduction_factor one ≡ true
        → HasFactor (concentration_on limit eq p).reduction_factor
    unfolding concentration_on
    concentration-HasFactor limit eq none h = tt
    concentration-HasFactor limit eq (some p) h =
        let pct = div p.market_value eq in
        let excess = mul (sub pct limit.threshold) (decimal 100_000) in
        ground (
          arith,
          floored-IsFactor limit (sub one excess),
          laws.sub_le one excess,
          laws.mul_nonneg (sub pct limit.threshold) (decimal 100_000),
          laws.sub_nonneg pct limit.threshold,
          le_of_not_le laws pct limit.threshold,
          laws.constant_le 0 100_000,
        )

    exposure-HasFactor :
        (name : String) (reason : RiskReasonCode) (limit : SoftLimit D) (maximum current : D)
        → leb limit.reduction_factor one ≡ true
        → leb maximum nought ≡ false
        → HasFactor (exposure_on name reason limit maximum current).reduction_factor
    unfolding exposure_on
    exposure-HasFactor name reason limit maximum current h p =
        let amount = mul maximum limit.threshold in
        let excess = div (sub current amount) maximum in
        ground (
          arith,
          floored-IsFactor limit (sub one excess),
          laws.sub_le one excess,
          laws.div_nonneg (sub current amount) maximum,
          laws.sub_nonneg current amount,
          le_of_not_le laws current amount,
        )

    -- Each soft check that gives a factor gives one between a tenth and one.
    pub soft_checks-HasFactor :
        (ctx : RiskContext D) → All (λ c. HasFactor c.reduction_factor) (soft_checks ctx)
    unfolding soft_checks check_volatility check_liquidity check_confidence_reduction
        check_symbol_concentration check_gross_exposure check_net_exposure check_max_positions
        check_group_concentration check_correlation_redundancy
    soft_checks-HasFactor ctx =
        let half = laws.constant_le 5000 10_000 in
        let above : IsFactor (decimal 5000) = (laws.constant_le 1000 5000, half) in
        (
          volatility-HasFactor _ ctx.realized_vol_20 half,
          (
            liquidity-HasFactor _ ctx.avg_dollar_volume_20 half (laws.constant_le 10_000_000_000 0),
            (
              ground (arith, laws.constant_le 7500 10_000, laws.constant_le 1000 7500),
              (
                concentration-HasFactor _ (equity ctx)
                    (get_position ctx.portfolio ctx.trade_thesis.symbol) half,
                (
                  ground (
                    arith,
                    exposure-HasFactor "gross_exposure" gross_exposure
                        (soft "gross_exposure" gross_exposure (decimal 8000) (decimal 5000))
                        (mul (equity ctx) (decimal 10_000)) (gross_exposure_of ctx.portfolio),
                    half,
                    laws.mul_pos (equity ctx) (decimal 10_000),
                    laws.constant_le 10_000 0,
                  ),
                  (
                    ground (
                      arith,
                      exposure-HasFactor "net_exposure" net_exposure
                          (soft "net_exposure" net_exposure (decimal 8000) (decimal 5000))
                          (mul (equity ctx) (decimal 5000)) (abs (net_exposure_of ctx.portfolio)),
                      half,
                      laws.mul_pos (equity ctx) (decimal 5000),
                      laws.constant_le 5000 0,
                    ),
                    (ground (arith, above), (tt, (tt, tt))),
                  ),
                ),
              ),
            ),
          ),
        )

    IsShare-factor : (f : D) → IsFactor f → IsShare f
    IsShare-factor f h =
        ground (arith, laws.constant_le 0 1000, laws.le_trans nought (decimal 1000) f)

    IsShare-mul : (a b : D) → IsShare a → IsShare b → IsShare (mul a b)
    IsShare-mul a b h k =
        (laws.mul_nonneg a b h.0 k.0, laws.le_trans (mul a b) a one (laws.mul_le a b h.0 k.1) h.1)

    pub AreShares-no_reduction : AreShares no_reduction
    AreShares-no_reduction =
        ground (arith, laws.constant_le 0 10_000, laws.constant_le 10_000 10_000)

    apply_reason-AreShares :
        (r : Option RiskReasonCode) (f : D) (a : Factors D)
        → IsShare f
        → AreShares a
        → AreShares (apply_reason r f a)
    unfolding apply_reason
    apply_reason-AreShares (some confidence_reduction) f a h k = ground arith
    apply_reason-AreShares (some r) f a h k = ground arith
    apply_reason-AreShares none f a h k = k

    apply_factor-AreShares :
        (r : Option RiskReasonCode) (f : Option D) (a : Factors D)
        → HasFactor f
        → AreShares a
        → AreShares (apply_factor r f a)
    unfolding apply_factor
    apply_factor-AreShares r none a h k = k
    apply_factor-AreShares r (some f) a h k = apply_reason-AreShares r f a (IsShare-factor f h) k

    apply_check-AreShares :
        (c : RiskCheckResult D) (a : Factors D)
        → HasFactor c.reduction_factor
        → AreShares a
        → AreShares (apply_check c a)
    unfolding apply_check
    apply_check-AreShares c a h k =
        ground (arith, apply_factor-AreShares c.reason_code c.reduction_factor a h k)

    pub collect-AreShares :
        (cs : List (RiskCheckResult D)) (a : Factors D)
        → All (λ c. HasFactor c.reduction_factor) cs
        → AreShares a
        → AreShares (collect cs a)
    unfolding collect
    collect-AreShares [] a h k = k
    collect-AreShares (c ∷ cs) a h k =
        collect-AreShares cs (apply_check c a) h.1 (apply_check-AreShares c a h.0 k)

    pub total_of-IsShare : (a : Factors D) → AreShares a → IsShare (total_of a)
    unfolding total_of
    total_of-IsShare a h =
        IsShare-mul _ _
          (IsShare-mul _ _
            (IsShare-mul _ _
              (IsShare-mul _ _ (IsShare-mul _ _ h.confidence h.volatility) h.liquidity)
              h.concentration)
            h.exposure)
          h.correlation
