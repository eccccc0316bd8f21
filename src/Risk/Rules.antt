-- ===== src/Risk/Rules.antt =====
-- `RiskRulesEngine.evaluate_all` (backend/app/risk/rules.py): every hard gate, and the soft
-- reductions only where no gate has failed.
use alpha_council.Base.{List, [], ◌∷◌, ◌++◌}
use alpha_council.Decimal.{Decimal}
use alpha_council.Risk.Models.{RiskCheckResult, RiskContext, hard_rejections}
use alpha_council.Risk.HardGates.{
  check_kill_switch, check_m3_no_trade, check_thesis_valid, check_data_quality,
  check_committee_confidence, check_price_valid, check_daily_loss, check_max_drawdown,
}
use alpha_council.Risk.SoftReductions.{
  check_volatility, check_liquidity, check_confidence_reduction, check_symbol_concentration,
  check_gross_exposure, check_net_exposure, check_max_positions, check_group_concentration,
  check_correlation_redundancy,
}

module _ {D : Type 0} ⦃d : Decimal D⦄ where
  unfoldable pub hard_checks : RiskContext D → List (RiskCheckResult D)
  hard_checks ctx =
      check_kill_switch ctx
      ∷ check_m3_no_trade ctx
      ∷ check_thesis_valid ctx
      ∷ check_data_quality ctx
      ∷ check_committee_confidence ctx
      ∷ check_price_valid ctx
      ∷ check_daily_loss ctx
      ∷ check_max_drawdown ctx
      ∷ []

  unfoldable pub soft_checks : RiskContext D → List (RiskCheckResult D)
  soft_checks ctx =
      check_volatility ctx
      ∷ check_liquidity ctx
      ∷ check_confidence_reduction ctx
      ∷ check_symbol_concentration ctx
      ∷ check_gross_exposure ctx
      ∷ check_net_exposure ctx
      ∷ check_max_positions ctx
      ∷ check_group_concentration ctx
      ∷ check_correlation_redundancy ctx
      ∷ []

  unfoldable pub evaluate_all : RiskContext D → List (RiskCheckResult D)
  evaluate_all ctx = elim (hard_rejections (hard_checks ctx)) [
    | [] ↦ hard_checks ctx ++ soft_checks ctx
    | failure ∷ more ↦ hard_checks ctx
  ]
