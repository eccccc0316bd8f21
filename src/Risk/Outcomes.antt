-- ===== src/Risk/Outcomes.antt =====
-- What a decision of the risk layer means (backend/app/risk/rules.py, service.py).
use alpha_council.Base.{
  ◌≡◌, refl, ◌≢◌, ◌⊎◌, inl, inr, true, false, ◌<◌, none, some, List, [], ◌∷◌, ◌++◌, arith, All,
  List-cases,
}
use alpha_council.Decimal.{Decimal, decimal, leb, mul, div, nought, whole}
use alpha_council.Decimal.Laws.{IsDecimal}
use alpha_council.Risk.Models.{
  rejected, RiskCheckResult, RiskContext, RiskBudget, equity, RiskEvaluation, hard_rejections,
  soft_reductions, first_reason, calculation_failure, within_limits, get_primary_reason,
}
use alpha_council.Risk.HardGates.{
  check_kill_switch, check_m3_no_trade, check_thesis_valid, check_data_quality,
  check_committee_confidence, check_price_valid, check_daily_loss, check_max_drawdown,
}
use alpha_council.Risk.Rules.{hard_checks, soft_checks, evaluate_all}
use alpha_council.Risk.Sizer.{compute_budget}
use alpha_council.Risk.Decision.{decide_on, decide, evaluate_context}
use alpha_council.Risk.Gates.{IsCleared, evaluate_all-IsCleared}
use alpha_council.Risk.Factors.{HasFactor, soft_checks-HasFactor}
use alpha_council.Risk.Bounds.{IsBounded, compute_budget-IsBounded}

All-append {ℓ κ} :
    {A : Type ℓ} (P : A → Type κ) (xs ys : List A) → All P xs → All P ys → All P (xs ++ ys)
All-append P [] ys h k = k
All-append P (x ∷ xs) ys h k = (h.0, All-append P xs ys h.1 k)

module _ {D : Type 0} ⦃d : Decimal D⦄ where
  -- A budget that buys something.
  abbrev pub IsViable : RiskBudget D → Type 0
  IsViable b = (leb b.adjusted_risk_budget nought ≡ false) × (b.shares ≢ 0)

  abbrev pub Grants : RiskEvaluation D → RiskBudget D → Type 0
  Grants e b = (e.risk_budget ≡ some b) × IsViable b

  -- The caps of the constitution on a budget that is granted: it risks at most 1 % of the equity, and
  -- at a positive price it buys shares for at most 10 % of the equity.
  abbrev pub IsWithinCaps : RiskContext D → RiskBudget D → Type 0
  IsWithinCaps ctx b =
      (leb b.adjusted_risk_budget b.base_risk_budget ≡ true)
      × (leb b.base_risk_budget (mul (equity ctx) (decimal 100)) ≡ true)
      × (leb ctx.reference_price nought ≡ false)
      × (leb (whole b.shares) (div (mul (equity ctx) (decimal 1000)) ctx.reference_price) ≡ true)

  IsBounded-IsWithinCaps :
      (ctx : RiskContext D) (b : RiskBudget D) → IsBounded ctx b → b.shares ≢ 0 → IsWithinCaps ctx b
  IsBounded-IsWithinCaps ctx b h some_shares =
      let positive : 0 < b.shares = ground (arith, some_shares) in
      let caps = h.shares_capped positive in (h.adjusted_le_base, caps.2, caps.0, caps.1)

  hard_checks-HasFactor :
      (ctx : RiskContext D) → All (λ c. HasFactor c.reduction_factor) (hard_checks ctx)
  unfolding hard_checks check_kill_switch check_m3_no_trade check_thesis_valid check_data_quality
      check_committee_confidence check_price_valid check_daily_loss check_max_drawdown
  hard_checks-HasFactor ctx = ground arith

  decide_on-viable :
      (hard soft : List (RiskCheckResult D)) (ctx : RiskContext D) (cs : List (RiskCheckResult D))
      (b : RiskBudget D)
      → (decide_on hard soft ctx cs b).decision ≢ rejected
      → (hard ≡ []) × Grants (decide_on hard soft ctx cs b) b
  unfolding decide_on
  decide_on-viable (c ∷ hard) soft ctx cs b h = absurd (h refl)
  decide_on-viable [] [] ctx cs b h = ground arith
  decide_on-viable [] (c ∷ soft) ctx cs b h = ground arith

  decide_on-hard :
      (hard soft : List (RiskCheckResult D)) (ctx : RiskContext D) (cs : List (RiskCheckResult D))
      (b : RiskBudget D)
      → hard ≢ []
      → ((decide_on hard soft ctx cs b).decision ≡ rejected)
        × ((decide_on hard soft ctx cs b).risk_budget ≡ none)
  unfolding decide_on
  decide_on-hard [] soft ctx cs b h = absurd (h refl)
  decide_on-hard (c ∷ hard) soft ctx cs b h = (refl, refl)

  decide_on-checks :
      (hard soft : List (RiskCheckResult D)) (ctx : RiskContext D) (cs : List (RiskCheckResult D))
      (b : RiskBudget D)
      → (decide_on hard soft ctx cs b).checks ≡ cs
  unfolding decide_on
  decide_on-checks (c ∷ hard) soft ctx cs b = refl
  decide_on-checks [] [] ctx cs b = ground arith
  decide_on-checks [] (c ∷ soft) ctx cs b = ground arith

  decide_on-reason :
      (hard soft : List (RiskCheckResult D)) (ctx : RiskContext D) (cs : List (RiskCheckResult D))
      (b : RiskBudget D)
      → (hard ≢ []) ⊎ IsViable b
      → (decide_on hard soft ctx cs b).reason_code
        ≡ first_reason hard calculation_failure (first_reason soft within_limits within_limits)
  unfolding decide_on first_reason
  decide_on-reason (c ∷ hard) soft ctx cs b h = refl
  decide_on-reason [] [] ctx cs b h = ground arith
  decide_on-reason [] (c ∷ soft) ctx cs b h = ground arith

  module _ (laws : IsDecimal D) where
    evaluate_all-HasFactor :
        (ctx : RiskContext D) → All (λ c. HasFactor c.reduction_factor) (evaluate_all ctx)
    unfolding evaluate_all
    evaluate_all-HasFactor ctx = elim (List-cases (hard_rejections (hard_checks ctx))) [
      | inl e ↦
          rw (e, evaluate_all)
            (All-append _ (hard_checks ctx) (soft_checks ctx) (hard_checks-HasFactor ctx)
              (soft_checks-HasFactor laws ctx))
      | inr (c, r, e) ↦ rw (e, evaluate_all) (hard_checks-HasFactor ctx)
    ]

    -- A thesis that is not rejected has passed every hard gate, and its budget buys at least one
    -- share and is within the caps of the constitution: it risks at most 1 % of the equity, and buys
    -- shares for at most 10 % of the equity at a positive price.
    pub tradable_is_safe :
        (ctx : RiskContext D)
        → (evaluate_context ctx).decision ≢ rejected
        → IsCleared ctx
          × ((b : RiskBudget D) × Grants (evaluate_context ctx) b × IsWithinCaps ctx b)
    unfolding evaluate_context decide
    tradable_is_safe ctx h =
        let checks = evaluate_all ctx in
        let budget = compute_budget ctx checks in
        let (clear, grants) =
          decide_on-viable (hard_rejections checks) (soft_reductions checks) ctx checks budget h in
        (
          (evaluate_all-IsCleared laws ctx).0 clear,
          (
            budget,
            grants,
            IsBounded-IsWithinCaps ctx budget
                (compute_budget-IsBounded laws ctx checks (evaluate_all-HasFactor ctx))
                (grants.1.1),
          ),
        )

    -- A context that fails a hard gate is rejected, and its evaluation carries no budget.
    uncleared_is_rejected :
        (ctx : RiskContext D)
        → ¬ IsCleared ctx
        → ((evaluate_context ctx).decision ≡ rejected) × ((evaluate_context ctx).risk_budget ≡ none)
    unfolding evaluate_context decide
    uncleared_is_rejected ctx h =
        let checks = evaluate_all ctx in
        decide_on-hard (hard_rejections checks) (soft_reductions checks) ctx checks
          (compute_budget ctx checks) (λ e. h ((evaluate_all-IsCleared laws ctx).0 e))

    -- The reason that `decide` gives is the one that `get_primary_reason` reads off the checks,
    -- unless the budget alone was the reason.
    pub reason_is_primary :
        (ctx : RiskContext D)
        → (¬ IsCleared ctx) ⊎ IsViable (compute_budget ctx (evaluate_all ctx))
        → (evaluate_context ctx).reason_code ≡ get_primary_reason (evaluate_context ctx)
    unfolding evaluate_context decide get_primary_reason
    reason_is_primary ctx h =
        let checks = evaluate_all ctx in
        let budget = compute_budget ctx checks in
        let gates = evaluate_all-IsCleared laws ctx in
        let either : (hard_rejections checks ≢ []) ⊎ IsViable budget = elim h [
          | inl n ↦ inl (λ e. n (gates.0 e))
          | inr v ↦ inr v
        ] in
        rw decide_on-checks (
          decide_on-reason (hard_rejections checks) (soft_reductions checks) ctx checks budget
            either)
