-- ===== src/Positions/ExitRules.antt =====
-- The rules for exits (backend/app/positions/metrics.py, ExitRulesEngine), each a step on what the
-- earlier rules found.
use alpha_council.Base.{
  ℕ, ◌*◌, ◌-◌, Bool, false, true, ◌&&◌, Option, none, some, List, [], ◌∷◌, ◌++◌, if◌then◌else◌,
  leb as leb_ℕ,
}
use alpha_council.Decimal.{
  Decimal, decimal, leb, ltb, nought, one, neg, add, sub, mul, div, abs, truthy,
}
use alpha_council.Decimal.Quotient.{quotient}
use alpha_council.Alpaca.{Outcome, answered, raised}
use alpha_council.Market.{Trend, up, strong_up, down, strong_down, MarketState}
use alpha_council.Risk.Models.{RiskState}
use alpha_council.Positions.Models.{
  PositionStatus, ExitDecisionType, hold, exit, ExitReasonCode, kill_switch,
  provider_reconciliation_required, hard_stop_triggered, max_loss_reached, max_holding_period,
  trailing_stop_triggered, take_profit, trend_reversal, momentum_reversal, volatility_spike,
  ExitUrgency, immediate, high, normal, no_urgency, Side, long, short,
}
use alpha_council.Positions.Records.{ManagedPosition, PositionSnapshot}

pub record ExitRulesEngine (D : Type 0) : Type 0 where
  pub take_profit_pct : D
  pub trailing_activation_pct : D
  pub trailing_distance_pct : D
  pub max_holding_hours : ℕ

pub record Findings : Type 0 where
  pub reasons : List ExitReasonCode
  pub max_urgency : ExitUrgency
  pub decision : ExitDecisionType

abbrev pub no_findings : Findings
no_findings = record { reasons = []; max_urgency = no_urgency; decision = hold }

-- What a rule makes of the urgency: IMMEDIATE; HIGH unless it is IMMEDIATE; NORMAL unless it is one
-- of the two.
pub data Pressure : Type 0 where
  at_once at_least_high at_least_normal : Pressure

abbrev pub raise : Pressure → ExitUrgency → ExitUrgency
raise at_once level = immediate
raise at_least_high immediate = immediate
raise at_least_high _ = high
raise at_least_normal immediate = immediate
raise at_least_normal high = high
raise at_least_normal _ = normal

pub record Rule : Type 0 where
  pub applies : Bool
  pub reason : ExitReasonCode
  pub pressure : Pressure

abbrev pub rule : Bool → ExitReasonCode → Pressure → Rule
rule applies reason pressure = record { applies = applies; reason = reason; pressure = pressure }

-- A rule that applies appends its reason and demands an exit.
abbrev pub apply_rule : Rule → Findings → Findings
apply_rule r f =
    if r.applies
    then record {
      reasons = f.reasons ++ (r.reason ∷ []);
      max_urgency = raise r.pressure f.max_urgency;
      decision = exit;
    }
    else f

abbrev pub apply_rules : List Rule → Findings → Findings
apply_rules [] f = f
apply_rules (r ∷ rs) f = apply_rules rs (apply_rule r f)

abbrev pub needs_reconciliation : PositionStatus → Bool
needs_reconciliation PositionStatus.reconciliation_required = true
needs_reconciliation _ = false

abbrev is_down : Trend → Bool
is_down down = true
is_down strong_down = true
is_down _ = false

abbrev is_up : Trend → Bool
is_up up = true
is_up strong_up = true
is_up _ = false

abbrev pub trend_against : Side → Trend → Bool
trend_against long t = is_down t
trend_against short t = is_up t

module _ {D : Type 0} ⦃d : Decimal D⦄ where
  abbrev pub default_rules : ExitRulesEngine D
  default_rules = record {
    take_profit_pct = decimal 1_000;
    trailing_activation_pct = decimal 500;
    trailing_distance_pct = decimal 300;
    max_holding_hours = 168;
  }

  abbrev beyond_stop : Side → D → D → Bool
  beyond_stop long mid stop = leb mid stop
  beyond_stop short mid stop = leb stop mid

  unfoldable pub hard_stop : ManagedPosition D → PositionSnapshot D → Bool
  hard_stop p s = elim p.current_stop_reference [
    | none ↦ false
    | some stop ↦ elim s.midpoint [
      | none ↦ false
      | some mid ↦ (truthy stop && truthy mid) && beyond_stop p.side mid stop
    ]
  ]

  unfoldable pub max_loss : ManagedPosition D → Bool
  max_loss p =
      (ltb nought p.risk_budget_at_entry && ltb nought p.current_notional)
      && leb one (div (abs p.unrealized_pnl) p.current_notional)

  unfoldable pub held_too_long : ExitRulesEngine D → ℕ → ManagedPosition D → Bool
  held_too_long e now p = leb_ℕ (e.max_holding_hours * 3600) (now - p.entry_timestamp)

  -- the gain per share of a position on its side
  abbrev gain_of : Side → D → D → D
  gain_of long entry mid = sub mid entry
  gain_of short entry mid = sub entry mid

  -- the price is back at the trailing stop
  abbrev beyond_trail : ExitRulesEngine D → Side → D → D → Bool
  beyond_trail e long mark mid = leb mid (mul mark (sub one e.trailing_distance_pct))
  beyond_trail e short mark mid = leb (mul mark (add one e.trailing_distance_pct)) mid

  abbrev pub trailing_on : ExitRulesEngine D → Side → D → D → Outcome D → Outcome Bool
  trailing_on e side mark mid raised = raised
  trailing_on e side mark mid (answered gained) =
      answered (leb e.trailing_activation_pct gained && beyond_trail e side mark mid)

  -- the watermark of the position's side
  abbrev watermark : ManagedPosition D → Side → Option D
  watermark p long = p.highest_price_since_entry
  watermark p short = p.lowest_price_since_entry

  -- The gain is divided by the entry price without a test.
  unfoldable pub trailing_stop :
      ExitRulesEngine D → ManagedPosition D → PositionSnapshot D → Outcome Bool
  trailing_stop e p s = elim (watermark p p.side) [
    | none ↦ answered false
    | some mark ↦ elim s.midpoint [
      | none ↦ answered false
      | some mid ↦
          if truthy mark
          then trailing_on e p.side mark mid
              (quotient (gain_of p.side p.entry_price mid) p.entry_price)
          else answered false
    ]
  ]

  unfoldable pub take_profit_reached : ExitRulesEngine D → PositionSnapshot D → Bool
  take_profit_reached e s = leb e.take_profit_pct s.unrealized_pnl_pct

  abbrev momentum_against : Side → Option D → Bool
  momentum_against side none = false
  momentum_against long (some m) = truthy m && ltb m (neg (decimal 500))
  momentum_against short (some m) = truthy m && ltb (decimal 500) m

  abbrev spikes : Option D → Bool
  spikes none = false
  spikes (some v) = truthy v && ltb (decimal 500) v

  -- the tests of priority 10, on the features of the market where there is one
  abbrev pub trend_turned : ManagedPosition D → Option (MarketState D) → Bool
  trend_turned p none = false
  trend_turned p (some m) = trend_against p.side m.features.trend_short

  abbrev pub momentum_turned : ManagedPosition D → Option (MarketState D) → Bool
  momentum_turned p none = false
  momentum_turned p (some m) = momentum_against p.side m.features.momentum_5d

  abbrev pub volatility_spiked : Option (MarketState D) → Bool
  volatility_spiked none = false
  volatility_spiked (some m) = spikes m.features.realized_vol_20

  -- the rules by their priorities, of which the third and the sixth do nothing; the argument `trails`
  -- is what the trailing stop found
  abbrev pub rules_of :
      ExitRulesEngine D
      → ℕ
      → ManagedPosition D
      → PositionSnapshot D
      → RiskState D
      → Option (MarketState D)
      → Bool
      → List Rule
  rules_of e now p s risk_state market_state trails =
      rule risk_state.kill_switch_active kill_switch at_once
      ∷ rule (needs_reconciliation p.status) provider_reconciliation_required at_once
      ∷ rule (hard_stop p s) hard_stop_triggered at_least_high
      ∷ rule (max_loss p) max_loss_reached at_least_high
      ∷ rule (held_too_long e now p) max_holding_period at_least_normal
      ∷ rule trails trailing_stop_triggered at_least_normal
      ∷ rule (take_profit_reached e s) take_profit at_least_normal
      ∷ rule (trend_turned p market_state) trend_reversal at_least_normal
      ∷ rule (momentum_turned p market_state) momentum_reversal at_least_normal
      ∷ rule (volatility_spiked market_state) volatility_spike at_least_normal
      ∷ []

  abbrev pub evaluate_on :
      ExitRulesEngine D
      → ℕ
      → ManagedPosition D
      → PositionSnapshot D
      → RiskState D
      → Option (MarketState D)
      → Outcome Bool
      → Outcome Findings
  evaluate_on e now p s risk_state market_state raised = raised
  evaluate_on e now p s risk_state market_state (answered trails) =
      answered (apply_rules (rules_of e now p s risk_state market_state trails) no_findings)

  unfoldable pub evaluate :
      ExitRulesEngine D
      → ℕ
      → ManagedPosition D
      → PositionSnapshot D
      → RiskState D
      → Option (MarketState D)
      → Outcome Findings
  evaluate e now p s risk_state market_state =
      evaluate_on e now p s risk_state market_state (trailing_stop e p s)
