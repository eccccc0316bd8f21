-- ===== src/Positions/Monitor.antt =====
-- A pass of the monitor over the open positions (backend/app/positions/monitor.py). What the market
-- state builder makes of a symbol is a parameter, `none` where it raises.
use alpha_council.Base.{
  ℕ, String, Bool, not, ◌&&◌, Option, none, some, List, [], ◌∷◌, if◌then◌else◌,
}
use alpha_council.Decimal.{Decimal, decimal, nought, sub, div, truthy}
use alpha_council.Alpaca.{Outcome, answered, raised}
use alpha_council.Market.{MarketState}
use alpha_council.Risk.Models.{RiskState}
use alpha_council.Positions.Models.{PositionStatus, ExitDecisionType, hold, reduce, exit}
use alpha_council.Positions.Records.{
  ManagedPosition, PositionStoreRecord, PositionSnapshot, ExitDecision,
  PositionReconciliationResult, store_record_to_managed_position,
}
use alpha_council.Positions.Metrics.{compute_snapshot}
use alpha_council.Positions.ExitRules.{ExitRulesEngine, Findings, evaluate}
use alpha_council.Positions.Store.{Table, get_open_positions, get_by_position_id, update_status}
use alpha_council.Positions.Reconciliation.{Provider, reconcile_all}

-- `MarketStateBuilder(...).build(symbol)`
abbrev pub Markets : Type 0 → Type 0
Markets D = String → Option (MarketState D)

module _ {D : Type 0} where
  abbrev pub needs_action : PositionReconciliationResult D → Bool
  needs_action r = not r.reconciled && r.action_required

  abbrev pub apply_reconciliation : ℕ → List (PositionReconciliationResult D) → Table D → Table D
  apply_reconciliation now [] t = t
  apply_reconciliation now (r ∷ rs) t =
      let marked = update_status now r.position_id PositionStatus.reconciliation_required none t in
      if needs_action r then apply_reconciliation now rs marked else apply_reconciliation now rs t

module _ {D : Type 0} ⦃d : Decimal D⦄ where
  -- the quantities to close and to keep
  abbrev pub quantities : ExitDecisionType → D → D × D
  quantities exit current = (current, nought)
  quantities reduce current =
      let target = div current (decimal 20_000) in (target, sub current target)
  quantities hold current = (nought, current)

  -- `snapshot.midpoint or position.current_price`
  abbrev reference_of : Option D → D → D
  reference_of none current = current
  reference_of (some mid) current = if truthy mid then mid else current

  unfoldable pub decision_on : ManagedPosition D → PositionSnapshot D → Findings → ExitDecision D
  decision_on p s f =
      let q = quantities f.decision p.current_quantity in
      record {
        position_id = p.position_id;
        symbol = p.symbol;
        decision = f.decision;
        reason_codes = f.reasons;
        urgency = f.max_urgency;
        target_quantity_to_close = q.0;
        quantity_remaining = q.1;
        reference_price = reference_of s.midpoint p.current_price;
        fresh_bid = s.bid_price;
        fresh_ask = s.ask_price;
        fresh_mid = s.midpoint;
      }

  abbrev pub decided :
      ManagedPosition D → PositionSnapshot D → Outcome Findings → Outcome (ExitDecision D)
  decided p snapshot raised = raised
  decided p snapshot (answered f) = answered (decision_on p snapshot f)

  abbrev pub evaluate_snapshot :
      ExitRulesEngine D
      → ℕ
      → RiskState D
      → ManagedPosition D
      → Option (MarketState D)
      → Outcome (PositionSnapshot D)
      → Outcome (ExitDecision D)
  evaluate_snapshot rules now risk_state p market_state raised = raised
  evaluate_snapshot rules now risk_state p market_state (answered snapshot) =
      decided p snapshot (evaluate rules now p snapshot risk_state market_state)

  unfoldable pub evaluate_position :
      ExitRulesEngine D → ℕ → Markets D → RiskState D → ManagedPosition D → Outcome (ExitDecision D)
  evaluate_position rules now markets risk_state p =
      let market_state = markets p.symbol in
      evaluate_snapshot rules now risk_state p market_state (compute_snapshot now p market_state)

  -- An exception ends the pass.
  abbrev pub listing :
      Outcome (ExitDecision D) → Outcome (List (ExitDecision D)) → Outcome (List (ExitDecision D))
  listing raised rest = raised
  listing (answered x) raised = raised
  listing (answered x) (answered ds) = answered (x ∷ ds)

  abbrev pub collected :
      ExitRulesEngine D
      → ℕ
      → Markets D
      → RiskState D
      → Option (ManagedPosition D)
      → Outcome (List (ExitDecision D))
      → Outcome (List (ExitDecision D))
  collected rules now markets risk_state none rest = raised
  collected rules now markets risk_state (some p) rest =
      listing (evaluate_position rules now markets risk_state p) rest

  abbrev pub evaluate_records :
      ExitRulesEngine D
      → ℕ
      → Markets D
      → RiskState D
      → List (PositionStoreRecord D)
      → Outcome (List (ExitDecision D))
  evaluate_records rules now markets risk_state [] = answered []
  evaluate_records rules now markets risk_state (r ∷ rs) =
      collected rules now markets risk_state (store_record_to_managed_position r)
        (evaluate_records rules now markets risk_state rs)

  abbrev pub evaluate_loaded :
      ExitRulesEngine D
      → ℕ
      → Markets D
      → RiskState D
      → Outcome (List (PositionStoreRecord D))
      → Outcome (List (ExitDecision D))
  evaluate_loaded rules now markets risk_state raised = raised
  evaluate_loaded rules now markets risk_state (answered records) =
      evaluate_records rules now markets risk_state records

  -- the positions are read again, and evaluated
  unfoldable pub evaluate_open :
      ExitRulesEngine D → ℕ → Markets D → RiskState D → Table D → Outcome (List (ExitDecision D))
  evaluate_open rules now markets risk_state t =
      evaluate_loaded rules now markets risk_state (get_open_positions t)

  abbrev pub after_reconciliation :
      ExitRulesEngine D
      → ℕ
      → Markets D
      → RiskState D
      → Table D
      → Outcome (List (PositionReconciliationResult D))
      → Outcome (List (ExitDecision D)) × Table D
  after_reconciliation rules now markets risk_state t raised = (raised, t)
  after_reconciliation rules now markets risk_state t (answered results) =
      let marked = apply_reconciliation now results t in
      (evaluate_open rules now markets risk_state marked, marked)

  abbrev pub after_load :
      ExitRulesEngine D
      → Provider D
      → ℕ
      → Markets D
      → RiskState D
      → Table D
      → Outcome (List (PositionStoreRecord D))
      → Outcome (List (ExitDecision D)) × Table D
  after_load rules provider now markets risk_state t raised = (raised, t)
  after_load rules provider now markets risk_state t (answered []) = (answered [], t)
  after_load rules provider now markets risk_state t (answered (r ∷ rs)) =
      after_reconciliation rules now markets risk_state t (reconcile_all provider t)

  unfoldable pub monitor_once :
      ExitRulesEngine D
      → Provider D
      → ℕ
      → Markets D
      → RiskState D
      → Table D
      → Outcome (List (ExitDecision D)) × Table D
  monitor_once rules provider now markets risk_state t =
      after_load rules provider now markets risk_state t (get_open_positions t)

  abbrev found_snapshot : Outcome (PositionSnapshot D) → Outcome (Option (PositionSnapshot D))
  found_snapshot raised = raised
  found_snapshot (answered s) = answered (some s)

  unfoldable pub get_position_snapshot :
      ℕ → Markets D → String → Table D → Outcome (Option (PositionSnapshot D))
  get_position_snapshot now markets id t = elim (get_by_position_id id t) [
    | raised ↦ raised
    | answered found ↦ elim found [
      | none ↦ answered none
      | some r ↦ elim (store_record_to_managed_position r) [
        | none ↦ raised
        | some p ↦ found_snapshot (compute_snapshot now p (markets p.symbol))
      ]
    ]
  ]
