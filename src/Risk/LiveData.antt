-- ===== src/Risk/LiveData.antt =====
-- What the service's own context rules out
-- (backend/app/risk/service.py).
use alpha_council.Base.{◌≡◌, true, Option, arith}
use alpha_council.Decimal.{Decimal, decimal, leb, sub, div, nought}
use alpha_council.Decimal.Laws.{IsDecimal}
use alpha_council.Decimal.Lemmas.{le_refl}
use alpha_council.Alpaca.{Outcome, answered, raised, AccountAnswers}
use alpha_council.Market.{MarketState}
use alpha_council.Committee.Models.{TradeThesis}
use alpha_council.Risk.Models.{RiskContext, AccountSnapshot, PortfolioSnapshot, current_drawdown}
use alpha_council.Risk.HardGates.{check_kill_switch, check_max_drawdown}
use alpha_council.Risk.Service.{
  build_risk_state, build_context, context_on, spread_of, get_account_snapshot,
  get_portfolio_snapshot,
}

module _ {D : Type 0} ⦃d : Decimal D⦄ where
  module _ (laws : IsDecimal D) where
    drawdown_nonpos :
        (a : AccountSnapshot D) (p : PortfolioSnapshot D)
        → leb (current_drawdown (build_risk_state a p)) nought ≡ true
    unfolding current_drawdown build_risk_state
    drawdown_nonpos a p =
        let e = a.equity in
        ground (
          arith,
          le_refl laws nought,
          laws.sub_self e,
          laws.div_mono (sub e e) nought e,
          laws.zero_div e,
          laws.le_trans (div (sub e e) e) (div nought e) nought,
        )

    context_on-passes :
        (market : MarketState D) (a : AccountSnapshot D) (p : PortfolioSnapshot D)
        (thesis : TradeThesis D) (spread : Outcome (Option D)) (ctx : RiskContext D)
        → context_on market a p thesis spread ≡ answered ctx
        → ((check_kill_switch ctx).passed ≡ true) × ((check_max_drawdown ctx).passed ≡ true)
    unfolding build_risk_state check_kill_switch check_max_drawdown
    context_on-passes market a p thesis raised ctx h = ground arith
    context_on-passes market a p thesis (answered spread) ctx h = ground (
      arith,
      h,
      drawdown_nonpos a p,
      laws.constant_le 0 1000,
      laws.le_trans (current_drawdown (build_risk_state a p)) nought (decimal 1000),
    )

    -- In every context that the service builds, the kill switch and the drawdown gate pass.
    pub live_gates_pass :
        (market : MarketState D) (answers : Option (AccountAnswers D)) (thesis : TradeThesis D)
        (ctx : RiskContext D)
        → build_context market answers thesis ≡ answered ctx
        → ((check_kill_switch ctx).passed ≡ true) × ((check_max_drawdown ctx).passed ≡ true)
    unfolding build_context
    live_gates_pass market answers thesis ctx h =
        context_on-passes market (get_account_snapshot answers) (get_portfolio_snapshot answers)
          thesis (spread_of market.snapshot.quote) ctx h
