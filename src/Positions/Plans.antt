-- ===== src/Positions/Plans.antt =====
-- The quantity of an exit plan (backend/app/positions/exit_planner.py).
use alpha_council.Base.{ℕ, ◌≡◌, refl, Bool, true, ◌&&◌, Option, none, some, Bool-cases, inl, inr}
use alpha_council.Decimal.{Decimal, leb}
use alpha_council.Decimal.Laws.{IsDecimal}
use alpha_council.Decimal.Lemmas.{le_refl, le_of_not_le}
use alpha_council.Alpaca.{answered, MarketClock}
use alpha_council.Market.{QuoteSnapshot}
use alpha_council.Positions.Records.{
  ManagedPosition, ExitDecision, ExitPlan, PositionReconciliationResult,
}
use alpha_council.Positions.ExitPlanner.{Parts, Answers, clamped, plan_of, build_exit_plan}

module _ {D : Type 0} ⦃d : Decimal D⦄ where
  -- What the planned quantity is bound by: without a result of the reconciler, which is its answer
  -- for a position that is not stored, it is what the decision asks for; otherwise it is at most that
  -- and at most what the provider holds.
  abbrev pub IsWithin : D → Option (PositionReconciliationResult D) → D → Type 0
  IsWithin target none quantity = quantity ≡ target
  IsWithin target (some r) quantity =
      (leb quantity target ≡ true) × (leb quantity r.provider_quantity ≡ true)

module _ {D : Type 0} ⦃d : Decimal D⦄ (quantized : ℕ → D → D) (laws : IsDecimal D) where
  clamped-le :
      (quantity : D) (r : PositionReconciliationResult D)
      → (leb (clamped quantized quantity (some r)) quantity ≡ true)
        × (leb (clamped quantized quantity (some r)) r.provider_quantity ≡ true)
  clamped-le quantity r = elim (Bool-cases (leb quantity r.provider_quantity)) [
    | inl fits ↦ rw fits (le_refl laws quantity, fits)
    | inr over ↦
        rw over
          (le_of_not_le laws quantity r.provider_quantity over, le_refl laws r.provider_quantity)
  ]

  clamped-IsWithin :
      (target : D) (found : Option (PositionReconciliationResult D))
      → IsWithin target found (clamped quantized target found)
  clamped-IsWithin target none = refl
  clamped-IsWithin target (some r) = clamped-le target r

  -- If the planner has an Alpaca gateway and a store, and the quote, the clock and the reconciliation
  -- of the position are answered, there is a plan. If the reconciler found the position in the store,
  -- the plan closes at most what the decision asks for and at most what the provider holds; if it
  -- did not, the plan closes what the decision asks for, whatever the provider holds.
  pub build_exit_plan-le :
      (parts : Parts) (a : Answers D) (decision : ExitDecision D) (p : ManagedPosition D)
      (has_risk_state : Bool) (ttl now : ℕ) (q : QuoteSnapshot D) (clock : MarketClock)
      (found : Option (PositionReconciliationResult D))
      → parts.has_alpaca && parts.has_store ≡ true
      → a.quote ≡ answered q
      → a.clock ≡ answered clock
      → a.reconciliation ≡ answered found
      → (plan : ExitPlan D) × (build_exit_plan quantized parts a decision p has_risk_state ttl now
          ≡ answered plan)
        × IsWithin decision.target_quantity_to_close found plan.quantity
  unfolding build_exit_plan
  build_exit_plan-le parts a decision p has_risk_state ttl now q clock found whole_set e f g =
      let target = decision.target_quantity_to_close in
      (
        plan_of quantized decision p has_risk_state ttl now q (clamped quantized target found),
        rw (e, f, g, whole_set) refl,
        clamped-IsWithin target found,
      )
