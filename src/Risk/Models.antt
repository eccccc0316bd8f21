-- ===== src/Risk/Models.antt =====
-- The data of the risk layer (backend/app/risk/models.py). The free-text `detail` of a check and
-- the time stamps are left out: nothing that is decided depends on them.
use alpha_council.Base.{
  ℕ, String, Bool, true, false, not, ◌&&◌, Option, none, some, List, [], ◌∷◌, length, find, select,
  str_eq, if◌then◌else◌,
}
use alpha_council.Decimal.{Decimal, leb, add, sub, mul, div, nought, neg, max}
use alpha_council.Committee.Models.{TradeThesis}

pub data RiskDecisionType : Type 0 where
  approved reduced rejected : RiskDecisionType

pub data RiskReasonCode : Type 0 where
  m3_no_trade invalid_thesis poor_data_quality low_committee_confidence : RiskReasonCode
  invalid_price kill_switch_active daily_loss_limit max_drawdown : RiskReasonCode
  calculation_failure : RiskReasonCode
  volatility_reduction liquidity_reduction confidence_reduction : RiskReasonCode
  symbol_concentration gross_exposure net_exposure max_positions : RiskReasonCode
  group_concentration correlation_redundancy : RiskReasonCode
  within_limits : RiskReasonCode

pub data RiskRuleType : Type 0 where
  hard_gate soft_reduction : RiskRuleType

pub data PositionSide : Type 0 where
  long short : PositionSide

abbrev pub is_hard_gate : RiskRuleType → Bool
is_hard_gate hard_gate = true
is_hard_gate soft_reduction = false

abbrev pub or_else {ℓ} : {A : Type ℓ} → Option A → A → A
or_else none a = a
or_else (some b) a = b

pub record RiskCheckResult (D : Type 0) : Type 0 where
  pub rule_name : String
  pub rule_type : RiskRuleType
  pub passed : Bool
  pub reason_code : Option RiskReasonCode
  pub reduction_factor : Option D

abbrev pub is_hard_rejection : {D : Type 0} → RiskCheckResult D → Bool
is_hard_rejection c = is_hard_gate c.rule_type && not c.passed

abbrev pub is_soft_reduction : {D : Type 0} → RiskCheckResult D → Bool
is_soft_reduction c = not (is_hard_gate c.rule_type) && not c.passed

pub record NormalizedPosition (D : Type 0) : Type 0 where
  pub symbol : String
  pub qty : D
  pub market_value : D
  pub side : PositionSide
  pub unrealized_pnl : Option D

pub record AccountSnapshot (D : Type 0) : Type 0 where
  pub equity : D
  pub buying_power : D
  pub cash : D
  pub portfolio_value : D

pub record PortfolioSnapshot (D : Type 0) : Type 0 where
  pub positions : List (NormalizedPosition D)

pub record RiskState (D : Type 0) : Type 0 where
  pub session_start_equity : D
  pub peak_equity : D
  pub current_equity : D
  pub daily_realized_pnl : D
  pub daily_unrealized_pnl : D
  pub kill_switch_active : Bool
  pub kill_switch_reason : Option String

pub record RiskContext (D : Type 0) : Type 0 where
  pub trade_thesis : TradeThesis D
  pub reference_price : D
  pub atr_14 : Option D
  pub bid_price : Option D
  pub ask_price : Option D
  pub spread_pct : Option D
  pub avg_dollar_volume_20 : Option D
  pub realized_vol_20 : Option D
  pub account : AccountSnapshot D
  pub portfolio : PortfolioSnapshot D
  pub risk_state : RiskState D

pub record RiskBudget (D : Type 0) : Type 0 where
  pub base_risk_budget : D
  pub confidence_reduction : D
  pub volatility_reduction : D
  pub liquidity_reduction : D
  pub concentration_reduction : D
  pub exposure_reduction : D
  pub correlation_reduction : D
  pub adjusted_risk_budget : D
  pub atr_stop_distance : Option D
  pub max_position_notional : D
  pub shares : ℕ
  pub limiting_rule : Option RiskReasonCode

pub record RiskEvaluation (D : Type 0) : Type 0 where
  pub symbol : String
  pub decision : RiskDecisionType
  pub reason_code : RiskReasonCode
  pub checks : List (RiskCheckResult D)
  pub risk_budget : Option (RiskBudget D)
  pub constitution_version : String

abbrev pub hard_rejections : {D : Type 0} → List (RiskCheckResult D) → List (RiskCheckResult D)
hard_rejections = select is_hard_rejection

abbrev pub soft_reductions : {D : Type 0} → List (RiskCheckResult D) → List (RiskCheckResult D)
soft_reductions = select is_soft_reduction

-- The reason of the first of the selected checks, if there is one.
unfoldable pub first_reason :
    {D : Type 0} → List (RiskCheckResult D) → RiskReasonCode → RiskReasonCode → RiskReasonCode
first_reason [] missing otherwise = otherwise
first_reason (c ∷ cs) missing otherwise = or_else c.reason_code missing

unfoldable pub get_primary_reason : {D : Type 0} → RiskEvaluation D → RiskReasonCode
unfolding first_reason
get_primary_reason e =
    first_reason (hard_rejections e.checks) calculation_failure
      (first_reason (soft_reductions e.checks) within_limits within_limits)

module _ {D : Type 0} ⦃d : Decimal D⦄ where
  abbrev pub signed_notional : NormalizedPosition D → D
  signed_notional p = elim p.side [ long ↦ p.market_value | short ↦ neg p.market_value ]

  -- `sum(f(p) for p in ps)` adds from the left, from zero.
  sum_from : (NormalizedPosition D → D) → D → List (NormalizedPosition D) → D
  sum_from f acc [] = acc
  sum_from f acc (p ∷ ps) = sum_from f (add acc (f p)) ps

  abbrev pub equity : RiskContext D → D
  equity ctx = ctx.account.equity

  unfoldable pub gross_exposure_of : PortfolioSnapshot D → D
  unfolding sum_from
  gross_exposure_of p = sum_from (λ q. q.market_value) nought p.positions

  unfoldable pub net_exposure_of : PortfolioSnapshot D → D
  unfolding sum_from
  net_exposure_of p = sum_from signed_notional nought p.positions

  unfoldable pub total_unrealized_pnl : PortfolioSnapshot D → D
  unfolding sum_from
  total_unrealized_pnl p = sum_from (λ q. or_else q.unrealized_pnl nought) nought p.positions

  abbrev pub position_count : PortfolioSnapshot D → ℕ
  position_count p = length p.positions

  abbrev pub get_position : PortfolioSnapshot D → String → Option (NormalizedPosition D)
  get_position p symbol = find (λ q. str_eq q.symbol symbol) p.positions

  unfoldable pub current_drawdown : RiskState D → D
  current_drawdown s =
      if leb s.peak_equity nought
      then nought
      else div (sub s.peak_equity s.current_equity) s.peak_equity

  abbrev pub daily_pnl : RiskState D → D
  daily_pnl s = add s.daily_realized_pnl s.daily_unrealized_pnl

  unfoldable pub daily_return : RiskState D → D
  daily_return s =
      if leb s.session_start_equity nought then nought else div (daily_pnl s) s.session_start_equity

  pub with_updated_equity : RiskState D → D → Option D → Option D → RiskState D
  with_updated_equity s equity realized unrealized = record s {
    peak_equity = max s.peak_equity equity;
    current_equity = equity;
    daily_realized_pnl = or_else realized s.daily_realized_pnl;
    daily_unrealized_pnl = or_else unrealized s.daily_unrealized_pnl;
  }

  pub with_kill_switch : RiskState D → Bool → Option String → RiskState D
  with_kill_switch s active reason = record s {
    kill_switch_active = active;
    kill_switch_reason = reason;
  }

  pub total_reduction : RiskBudget D → D
  total_reduction b =
      mul
        (mul
          (mul (mul (mul b.confidence_reduction b.volatility_reduction) b.liquidity_reduction)
            b.concentration_reduction)
          b.exposure_reduction)
        b.correlation_reduction
