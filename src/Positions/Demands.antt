-- ===== src/Positions/Demands.antt =====
-- When a position is to be exited, and how urgently (backend/app/positions/metrics.py, read without
-- its order of statements).
use alpha_council.Base.{
  ℕ, ◌*◌, ◌-◌, ◌≡◌, Bool, true, false, ◌&&◌, Option, none, some, List, [], ◌∷◌, select, is_empty,
  if◌then◌else◌, leb as leb_ℕ,
}
use alpha_council.Decimal.{
  Decimal, decimal, leb, ltb, nought, one, neg, add, sub, mul, div, abs, truthy,
}
use alpha_council.Market.{Trend, up, strong_up, down, strong_down, MarketState}
use alpha_council.Risk.Models.{RiskState}
use alpha_council.Positions.Models.{
  PositionStatus, hold, exit, ExitReasonCode, kill_switch, provider_reconciliation_required,
  hard_stop_triggered, max_loss_reached, max_holding_period, trailing_stop_triggered, take_profit,
  trend_reversal, momentum_reversal, volatility_spike, ExitUrgency, immediate, high, normal,
  no_urgency, Side, long, short,
}
use alpha_council.Positions.Records.{ManagedPosition, PositionSnapshot}
use alpha_council.Positions.ExitRules.{ExitRulesEngine, Findings}

-- The value is known and passes the test.
abbrev known : {A : Type 0} → Option A → (A → Bool) → Bool
known none test = false
known (some a) test = test a

-- One value for a long position, another for a short one.
abbrev on_side : {A : Type 0} → Side → A → A → A
on_side long a b = a
on_side short a b = b

abbrev falls : Trend → Bool
falls down = true
falls strong_down = true
falls _ = false

abbrev rises : Trend → Bool
rises up = true
rises strong_up = true
rises _ = false

abbrev is_marked : PositionStatus → Bool
is_marked PositionStatus.reconciliation_required = true
is_marked _ = false

module _ {D : Type 0} ⦃d : Decimal D⦄ where
  -- The condition of each reason to exit.
  unfoldable pub demands :
      ExitRulesEngine D
      → ℕ
      → ManagedPosition D
      → PositionSnapshot D
      → RiskState D
      → Option (MarketState D)
      → ExitReasonCode
      → Bool
  demands e now p s risk_state m kill_switch = risk_state.kill_switch_active
  demands e now p s risk_state m provider_reconciliation_required = is_marked p.status
  demands e now p s risk_state m hard_stop_triggered = known p.current_stop_reference λ stop.
      known s.midpoint
        λ mid. truthy stop && (truthy mid && on_side p.side (leb mid stop) (leb stop mid))
  demands e now p s risk_state m max_loss_reached =
      ltb nought p.risk_budget_at_entry
      && (ltb nought p.current_notional && leb one (div (abs p.unrealized_pnl) p.current_notional))
  demands e now p s risk_state m max_holding_period =
      leb_ℕ (e.max_holding_hours * 3600) (now - p.entry_timestamp)
  demands e now p s risk_state m trailing_stop_triggered =
      known (on_side p.side p.highest_price_since_entry p.lowest_price_since_entry) λ mark.
        known s.midpoint λ mid.
          truthy mark
          && (leb e.trailing_activation_pct
                (div (on_side p.side (sub mid p.entry_price) (sub p.entry_price mid)) p.entry_price)
              && on_side p.side (leb mid (mul mark (sub one e.trailing_distance_pct)))
                  (leb (mul mark (add one e.trailing_distance_pct)) mid))
  demands e now p s risk_state m take_profit = leb e.take_profit_pct s.unrealized_pnl_pct
  demands e now p s risk_state m trend_reversal =
      known m λ state.
        on_side p.side (falls state.features.trend_short) (rises state.features.trend_short)
  demands e now p s risk_state m momentum_reversal = known m λ state.
      known state.features.momentum_5d
        λ x. truthy x && on_side p.side (ltb x (neg (decimal 500))) (ltb (decimal 500) x)
  demands e now p s risk_state m volatility_spike =
      known m λ state. known state.features.realized_vol_20 λ x. truthy x && ltb (decimal 500) x
  demands e now p s risk_state m _ = false

-- The reasons by their priorities.
abbrev pub priorities : List ExitReasonCode
priorities =
    kill_switch ∷ provider_reconciliation_required ∷ hard_stop_triggered ∷ max_loss_reached
    ∷ max_holding_period ∷ trailing_stop_triggered ∷ take_profit ∷ trend_reversal
    ∷ momentum_reversal ∷ volatility_spike ∷ []

-- The urgency of one reason.
abbrev pub level : ExitReasonCode → ExitUrgency
level kill_switch = immediate
level provider_reconciliation_required = immediate
level hard_stop_triggered = high
level max_loss_reached = high
level _ = normal

-- The greater of two urgencies.
abbrev pub join : ExitUrgency → ExitUrgency → ExitUrgency
join immediate other = immediate
join high immediate = immediate
join high _ = high
join normal no_urgency = normal
join normal other = other
join no_urgency other = other

-- The greatest urgency of some reasons.
unfoldable pub greatest : List ExitReasonCode → ExitUrgency
greatest [] = no_urgency
greatest (r ∷ rs) = join (level r) (greatest rs)

-- The findings are all reasons whose conditions hold, by their priorities, the greatest of their
-- urgencies, and EXIT where there is a reason.
unfoldable pub IsVerdict : (ExitReasonCode → Bool) → Findings → Type 0
IsVerdict holds f =
    (f.reasons ≡ select holds priorities)
    × (f.max_urgency ≡ greatest f.reasons)
    × (f.decision ≡ (if is_empty f.reasons then hold else exit))
