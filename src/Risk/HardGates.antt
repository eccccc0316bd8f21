-- ===== src/Risk/HardGates.antt =====
-- The eight hard gates of `RiskRulesEngine` (backend/app/risk/rules.py).
use alpha_council.Base.{
  String, Bool, true, false, ◌&&◌, ◌||◌, Option, none, some, str_eq, if◌then◌else◌,
}
use alpha_council.Decimal.{Decimal, decimal, leb, ltb, add, sub, div, nought, one, neg}
use alpha_council.Committee.Models.{TradeThesis, CommitteeDecision, no_trade}
use alpha_council.Risk.Models.{
  RiskReasonCode, m3_no_trade, invalid_thesis, poor_data_quality, low_committee_confidence,
  invalid_price, kill_switch_active, daily_loss_limit, max_drawdown, hard_gate, RiskCheckResult,
  RiskContext, current_drawdown, daily_return,
}
use alpha_council.Risk.Constitution.{get_hard_gate}

module _ {D : Type 0} where
  abbrev pub gate_passed : String → RiskCheckResult D
  gate_passed name = record {
    rule_name = name;
    rule_type = hard_gate;
    passed = true;
    reason_code = none;
    reduction_factor = none;
  }

  abbrev pub gate_failed : String → RiskReasonCode → RiskCheckResult D
  gate_failed name reason = record {
    rule_name = name;
    rule_type = hard_gate;
    passed = false;
    reason_code = some reason;
    reduction_factor = none;
  }

  -- `return` of a failed result if the gate's test holds
  abbrev pub gate : String → RiskReasonCode → Bool → RiskCheckResult D
  gate name reason bad = if bad then gate_failed name reason else gate_passed name

abbrev pub is_no_trade : CommitteeDecision → Bool
is_no_trade no_trade = true
is_no_trade _ = false

module _ {D : Type 0} ⦃d : Decimal D⦄ where
  -- `HARD_GATES[[g.name for g in HARD_GATES].index(name)].threshold`; the names that the gates ask
  -- for are in the table, so `index` does not raise.
  abbrev threshold_of : String → D
  threshold_of name = elim (get_hard_gate name) [ none ↦ nought | some g ↦ g.threshold ]

  unfoldable pub check_kill_switch : RiskContext D → RiskCheckResult D
  check_kill_switch ctx = gate "kill_switch" kill_switch_active ctx.risk_state.kill_switch_active

  unfoldable pub check_m3_no_trade : RiskContext D → RiskCheckResult D
  check_m3_no_trade ctx =
      gate "m3_no_trade" m3_no_trade (is_no_trade ctx.trade_thesis.committee_decision.decision)

  -- Some error is listed. A direction and a decision are never missing: their values are truthy.
  thesis_has_errors : TradeThesis D → Bool
  thesis_has_errors t =
      str_eq t.symbol ""
      || (ltb t.committee_confidence nought || ltb one t.committee_confidence)
      || (leb t.committee_confidence nought && leb nought t.committee_confidence)

  unfoldable pub check_thesis_valid : RiskContext D → RiskCheckResult D
  unfolding thesis_has_errors
  check_thesis_valid ctx =
      gate "thesis_validation" invalid_thesis (thesis_has_errors ctx.trade_thesis)

  unfoldable pub check_data_quality : RiskContext D → RiskCheckResult D
  check_data_quality ctx = gate "data_quality" poor_data_quality (leb ctx.reference_price nought)

  unfoldable pub check_committee_confidence : RiskContext D → RiskCheckResult D
  check_committee_confidence ctx =
      gate "committee_confidence" low_committee_confidence
        (ltb ctx.trade_thesis.committee_confidence (threshold_of "low_committee_confidence"))

  -- The test of the spread, where both sides of the quote are known.
  unfoldable pub spread_too_wide : D → D → Bool
  spread_too_wide bid ask =
      let mid = div (add bid ask) (decimal 20_000) in
      ltb nought mid && ltb (decimal 500) (div (sub ask bid) mid)

  unfoldable pub quote_is_bad : Option D → Option D → Bool
  unfolding spread_too_wide
  quote_is_bad (some bid) (some ask) =
      if leb bid nought || leb ask nought
      then true
      else if ltb ask bid
      then true
      else spread_too_wide bid ask
  quote_is_bad _ _ = false

  unfoldable pub check_price_valid : RiskContext D → RiskCheckResult D
  unfolding quote_is_bad
  check_price_valid ctx =
      if leb ctx.reference_price nought
      then gate_failed "price_validation" invalid_price
      else gate "price_validation" invalid_price (quote_is_bad ctx.bid_price ctx.ask_price)

  unfoldable pub check_daily_loss : RiskContext D → RiskCheckResult D
  check_daily_loss ctx =
      gate "daily_loss_limit" daily_loss_limit
        (ltb (daily_return ctx.risk_state) (neg (threshold_of "daily_loss_limit")))

  unfoldable pub check_max_drawdown : RiskContext D → RiskCheckResult D
  check_max_drawdown ctx =
      gate "max_drawdown" max_drawdown
        (ltb (threshold_of "max_drawdown") (current_drawdown ctx.risk_state))
