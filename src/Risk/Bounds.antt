-- ===== src/Risk/Bounds.antt =====
-- The bounds of what the position sizer grants (backend/app/risk/rules.py).
use alpha_council.Base.{◌≡◌, ◌<◌, true, false, Option, none, some, List, arith, All}
use alpha_council.Base.Int.{pos_part}
use alpha_council.Decimal.{Decimal, decimal, leb, mul, div, nought, whole, min, int}
use alpha_council.Decimal.Laws.{IsDecimal}
use alpha_council.Decimal.Lemmas.{le_refl, le_of_not_le, min_right, le_min, max_left, max_le}
use alpha_council.Risk.Models.{RiskCheckResult, RiskContext, RiskBudget, equity}
use alpha_council.Risk.Sizer.{
  Factors, no_reduction, collect, total_of, stop_distance, stop_distance_pct, shares_of,
  position_notional, budget_of, compute_budget,
}
use alpha_council.Risk.Factors.{
  HasFactor, AreShares, AreShares-no_reduction, collect-AreShares, total_of-IsShare,
}

module _ {D : Type 0} ⦃d : Decimal D⦄ where
  -- A stop between two and ten percent of the price.
  abbrev pub IsStop : D → Option D → Type 0
  IsStop price none = Unit
  IsStop price (some stop) =
      (leb (mul price (decimal 200)) stop ≡ true) × (leb stop (mul price (decimal 1000)) ≡ true)

  -- The validators of `RiskBudget`, and for a budget that buys shares the caps of the constitution:
  -- 1 % of the equity at risk, and shares for 10 % of the equity.
  pub record IsBounded (ctx : RiskContext D) (b : RiskBudget D) : Type 0 where
    pub base_nonneg : leb nought b.base_risk_budget ≡ true
    pub adjusted_nonneg : leb nought b.adjusted_risk_budget ≡ true
    pub adjusted_le_base : leb b.adjusted_risk_budget b.base_risk_budget ≡ true
    pub cap_nonneg : leb nought b.max_position_notional ≡ true
    pub shares_capped :
        0 < b.shares
        → (leb ctx.reference_price nought ≡ false)
          × (leb (whole b.shares) (div (mul (equity ctx) (decimal 1000)) ctx.reference_price)
              ≡ true)
          × (leb b.base_risk_budget (mul (equity ctx) (decimal 100)) ≡ true)

  module _ (laws : IsDecimal D) where
    -- Above a positive price the stop lies between two and ten percent of it.
    pub stop_distance-IsStop :
        (price : D) (atr : Option D)
        → leb price nought ≡ false
        → IsStop price (stop_distance price atr)
    unfolding stop_distance
    stop_distance-IsStop price none p = tt
    stop_distance-IsStop price (some atr) p =
        let lo = mul price (decimal 200) in
        let hi = mul price (decimal 1000) in
        let x = min (mul atr (decimal 20_000)) hi in
        ground (
          arith,
          max_left laws lo x,
          max_le laws lo x hi,
          min_right laws (mul atr (decimal 20_000)) hi,
          laws.mul_mono (decimal 200) (decimal 1000) price,
          laws.constant_le 200 1000,
          le_of_not_le laws price nought,
        )

    -- A positive stop needs a positive price.
    pub stop_distance_pos :
        (price : D) (atr : Option D) {stop : D}
        → stop_distance price atr ≡ some stop
        → leb stop nought ≡ false
        → leb price nought ≡ false
    unfolding stop_distance
    stop_distance_pos price none e h = cc
    stop_distance_pos price (some atr) {stop} e h =
        let lo = mul price (decimal 200) in
        let hi = mul price (decimal 1000) in
        let x = min (mul atr (decimal 20_000)) hi in
        ground (
          arith,
          max_le laws lo x nought,
          laws.mul_nonpos price (decimal 200),
          laws.mul_nonpos price (decimal 1000),
          laws.constant_le 0 200,
          laws.constant_le 0 1000,
          laws.le_trans x hi nought,
          min_right laws (mul atr (decimal 20_000)) hi,
        )

    pct_pos :
        (price : D) (stop : Option D)
        → ((s : D) → stop ≡ some s → leb s nought ≡ false → leb price nought ≡ false)
        → leb (stop_distance_pct price stop) nought ≡ false
    unfolding stop_distance_pct
    pct_pos price none h = laws.constant_le 200 0
    pct_pos price (some s) h = ground (arith, h s, laws.div_pos s price, laws.constant_le 200 0)

    -- The sizer divides by a positive percentage of the price.
    pub stop_distance_pct_pos :
        (price : D) (atr : Option D)
        → leb (stop_distance_pct price (stop_distance price atr)) nought ≡ false
    stop_distance_pct_pos price atr =
        pct_pos price (stop_distance price atr) (λ s e h. stop_distance_pos price atr e h)

    shares_of_capped :
        (price notional cap : D)
        → leb nought notional ≡ true
        → leb notional cap ≡ true
        → 0 < shares_of price notional
        → (leb price nought ≡ false)
          × (leb (whole (shares_of price notional)) (div cap price) ≡ true)
    unfolding shares_of
    shares_of_capped price notional cap n le h = ground (
      arith,
      laws.div_nonneg notional price,
      laws.int_le (div notional price),
      laws.div_mono notional cap price,
      laws.le_trans (whole (pos_part (int (div notional price)))) (div notional price)
          (div cap price),
    )

    budget_of-IsBounded :
        (ctx : RiskContext D) (a : Factors D)
        → leb (equity ctx) nought ≡ false
        → AreShares a
        → IsBounded ctx (budget_of ctx a)
    unfolding budget_of position_notional
    budget_of-IsBounded ctx a p h =
        let price = ctx.reference_price in
        let base = mul (equity ctx) (decimal 100) in
        let cap = mul (equity ctx) (decimal 1000) in
        let budget = mul base (total_of a) in
        let pct = stop_distance_pct price (stop_distance price ctx.atr_14) in
        ground (
          arith,
          le_refl laws nought,
          le_refl laws base,
          le_of_not_le laws (equity ctx) nought,
          total_of-IsShare laws a h,
          laws.constant_le 0 100,
          laws.constant_le 0 1000,
          laws.mul_nonneg (equity ctx) (decimal 100),
          laws.mul_nonneg (equity ctx) (decimal 1000),
          laws.mul_nonneg base (total_of a),
          laws.mul_le base (total_of a),
          stop_distance_pct_pos price ctx.atr_14,
          laws.div_nonneg budget pct,
          le_min laws (div budget pct) cap nought,
          min_right laws (div budget pct) cap,
          shares_of_capped price (min (div budget pct) cap) cap,
        )

    -- For checks whose factors are at least 0.1 and at most 1, the adjusted budget never exceeds the
    -- base budget, and a budget for shares is within the caps.
    pub compute_budget-IsBounded :
        (ctx : RiskContext D) (checks : List (RiskCheckResult D))
        → All (λ c. HasFactor c.reduction_factor) checks
        → IsBounded ctx (compute_budget ctx checks)
    unfolding compute_budget
    compute_budget-IsBounded ctx checks h = ground (
      arith,
      budget_of-IsBounded ctx (collect checks no_reduction),
      collect-AreShares laws checks no_reduction h (AreShares-no_reduction laws),
      le_refl laws nought,
    )
