-- ===== src/Risk/Constitution.antt =====
-- The table of limits (backend/app/risk/constitution.py). `decimal n` is n / 10000.
use alpha_council.Base.{String, Option, List, [], ◌∷◌, find, str_eq}
use alpha_council.Decimal.{Decimal, decimal, nought, whole}
use alpha_council.Risk.Models.{
  RiskReasonCode, m3_no_trade, invalid_thesis, poor_data_quality, low_committee_confidence,
  invalid_price, kill_switch_active, daily_loss_limit, max_drawdown, volatility_reduction,
  liquidity_reduction, confidence_reduction, symbol_concentration, gross_exposure, net_exposure,
  max_positions, group_concentration, correlation_redundancy,
}

pub record HardLimit (D : Type 0) : Type 0 where
  pub name : String
  pub reason_code : RiskReasonCode
  pub threshold : D

pub record SoftLimit (D : Type 0) : Type 0 where
  pub name : String
  pub reason_code : RiskReasonCode
  pub threshold : D
  pub reduction_factor : D

abbrev pub version : String
version = "v1.0.0"

module _ {D : Type 0} ⦃d : Decimal D⦄ where
  abbrev pub hard : String → RiskReasonCode → D → HardLimit D
  hard n r t = record { name = n; reason_code = r; threshold = t }

  abbrev pub soft : String → RiskReasonCode → D → D → SoftLimit D
  soft n r t f = record { name = n; reason_code = r; threshold = t; reduction_factor = f }

  abbrev pub base_risk_per_trade : D
  base_risk_per_trade = decimal 100

  abbrev pub max_position_notional_pct : D
  max_position_notional_pct = decimal 1000

  abbrev pub max_gross_exposure_pct : D
  max_gross_exposure_pct = decimal 10_000

  abbrev pub max_net_exposure_pct : D
  max_net_exposure_pct = decimal 5000

  abbrev pub hard_gates : List (HardLimit D)
  hard_gates =
      hard "m3_no_trade" m3_no_trade nought
      ∷ hard "invalid_thesis" invalid_thesis nought
      ∷ hard "poor_data_quality" poor_data_quality nought
      ∷ hard "low_committee_confidence" low_committee_confidence (decimal 6000)
      ∷ hard "invalid_price" invalid_price nought
      ∷ hard "kill_switch" kill_switch_active nought
      ∷ hard "daily_loss_limit" daily_loss_limit (decimal 300)
      ∷ hard "max_drawdown" max_drawdown (decimal 1000)
      ∷ []

  abbrev pub soft_limits : List (SoftLimit D)
  soft_limits =
      soft "volatility_reduction" volatility_reduction (decimal 300) (decimal 5000)
      ∷ soft "liquidity_reduction" liquidity_reduction (whole 1_000_000) (decimal 5000)
      ∷ soft "confidence_reduction" confidence_reduction (decimal 8000) (decimal 7500)
      ∷ soft "symbol_concentration" symbol_concentration (decimal 250) (decimal 5000)
      ∷ soft "gross_exposure" gross_exposure (decimal 8000) (decimal 5000)
      ∷ soft "net_exposure" net_exposure (decimal 8000) (decimal 5000)
      ∷ soft "max_positions" max_positions (whole 8) (decimal 5000)
      ∷ soft "group_concentration" group_concentration (decimal 1500) (decimal 5000)
      ∷ soft "correlation_redundancy" correlation_redundancy (decimal 7000) (decimal 5000)
      ∷ []

  abbrev pub atr_stop_multiplier : D
  atr_stop_multiplier = decimal 20_000

  abbrev pub min_stop_distance_pct : D
  min_stop_distance_pct = decimal 200

  abbrev pub max_stop_distance_pct : D
  max_stop_distance_pct = decimal 1000

  abbrev pub volatility_reduction_slope : D
  volatility_reduction_slope = decimal 5000

  abbrev pub get_hard_gate : String → Option (HardLimit D)
  get_hard_gate name = find (λ g. str_eq g.name name) hard_gates

  abbrev pub get_soft_limit : String → Option (SoftLimit D)
  get_soft_limit name = find (λ l. str_eq l.name name) soft_limits
