-- ===== src/Positions/Dropped.antt =====
-- Positions that differ from the broker's, in a pass of the monitor
-- (backend/app/positions/monitor.py, store.py).
use alpha_council.Base.{
  ℕ, String, ◌≡◌, refl, Bool, true, false, ◌&&◌, Option, none, some, List, [], ◌∷◌, All, any,
  select, str_eq, str_eq_iff, arith, Bool-cases, inl, inr, if◌then◌else◌,
}
use mathlib.Core.Path.{subst}
use alpha_council.Decimal.{Decimal}
use alpha_council.Alpaca.{Outcome, answered, raised}
use alpha_council.Market.{MarketState}
use alpha_council.Risk.Models.{RiskState}
use alpha_council.Positions.Models.{
  PositionStatus, InstrumentKind, Side, ExitState, kind_of, side_of, status_of, exit_of,
}
use alpha_council.Positions.Records.{
  ManagedPosition, PositionStoreRecord, PositionSnapshot, ExitDecision,
  PositionReconciliationResult, store_record_to_managed_position, managed_if,
}
use alpha_council.Positions.ExitRules.{ExitRulesEngine, Findings, evaluate}
use alpha_council.Positions.Metrics.{compute_snapshot}
use alpha_council.Positions.Store.{
  Table, has_id, is_open, row_to_record, all_of, get_open_positions, update_row, update_status,
}
use alpha_council.Positions.Reconciliation.{Provider, reconcile_all}
use alpha_council.Positions.Monitor.{
  Markets, needs_action, apply_reconciliation, evaluate_position, evaluate_snapshot, decided,
  listing, decision_on, collected, evaluate_records, evaluate_loaded, evaluate_open, after_load,
  monitor_once,
}

-- The list that is answered, empty where the call raises.
abbrev pub listed : {A : Type 0} → Outcome (List A) → List A
listed raised = []
listed (answered xs) = xs

module _ {D : Type 0} where
  -- A row of the id is not open.
  abbrev IsShut : String → PositionStoreRecord D → Type 0
  IsShut id r = (has_id id r && is_open r) ≡ false

  abbrev IsOther : String → PositionStoreRecord D → Type 0
  IsOther id r = has_id id r ≡ false

  mark-IsShut :
      (now : ℕ) (id : String) (t : Table D)
      → All (IsShut id) (update_status now id PositionStatus.reconciliation_required none t)
  unfolding update_status update_row
  mark-IsShut now id [] = tt
  mark-IsShut now id (r ∷ t) = ground (arith, mark-IsShut now id t)

  mark-keeps :
      (now : ℕ) (id other : String) (t : Table D)
      → All (IsShut id) t
      → All (IsShut id) (update_status now other PositionStatus.reconciliation_required none t)
  unfolding update_status update_row
  mark-keeps now id other [] h = tt
  mark-keeps now id other (r ∷ t) (h, rest) = ground (arith, mark-keeps now id other t rest)

  if_All :
      (id : String) (b : Bool) (t u : Table D)
      → All (IsShut id) t
      → All (IsShut id) u
      → All (IsShut id) (if b then t else u)
  if_All id true t u h k = h
  if_All id false t u h k = k

  apply-keeps :
      (now : ℕ) (id : String) (rs : List (PositionReconciliationResult D)) (t : Table D)
      → All (IsShut id) t
      → All (IsShut id) (apply_reconciliation now rs t)
  apply-keeps now id [] t h = h
  apply-keeps now id (r ∷ rs) t h =
      let marked = update_status now r.position_id PositionStatus.reconciliation_required none t in
      if_All id (needs_action r) (apply_reconciliation now rs marked)
        (apply_reconciliation now rs t)
        (apply-keeps now id rs marked (mark-keeps now id r.position_id t h))
        (apply-keeps now id rs t h)

  apply-IsShut :
      (now : ℕ) (id : String) (rs : List (PositionReconciliationResult D)) (t : Table D)
      → any (λ r. str_eq r.position_id id && needs_action r) rs ≡ true
      → All (IsShut id) (apply_reconciliation now rs t)
  apply-IsShut now id [] t h = ground arith
  apply-IsShut now id (r ∷ rs) t h =
      let marked = update_status now r.position_id PositionStatus.reconciliation_required none t in
      elim (Bool-cases (needs_action r)) [
        | inr fine ↦ rw fine (apply-IsShut now id rs t (ground (arith, h, fine)))
        | inl wanted ↦ elim (Bool-cases (str_eq r.position_id id)) [
          | inl same ↦
              let shut : All (IsShut id) marked =
                subst (λ i. All (IsShut i) marked) ((str_eq_iff r.position_id id).0 same)
                  (mark-IsShut now r.position_id t) in
              rw wanted (apply-keeps now id rs marked shut)
          | inr other ↦ rw wanted (apply-IsShut now id rs marked (ground (arith, h, other)))
        ]
      ]

  select-IsOther :
      (id : String) (t : Table D) → All (IsShut id) t → All (IsOther id) (select is_open t)
  unfolding select
  select-IsOther id [] h = tt
  select-IsOther id (r ∷ t) (h, rest) = ground (arith, select-IsOther id t rest)

  all_of-IsOther :
      (id : String) (rows : List (PositionStoreRecord D))
      → All (IsOther id) rows
      → All (IsOther id) (listed (all_of rows))
  unfolding row_to_record
  all_of-IsOther id [] h = tt
  all_of-IsOther id (r ∷ rows) (h, rest) = ground (arith, all_of-IsOther id rows rest)

module _ {D : Type 0} ⦃d : Decimal D⦄ where
  -- The decision is not on the position of the id.
  abbrev pub IsOtherDecision : String → ExitDecision D → Type 0
  IsOtherDecision id x = str_eq x.position_id id ≡ false

  -- A position that could be evaluated has a decision on its own id.
  abbrev IsOn : String → Outcome (ExitDecision D) → Type 0
  IsOn id raised = Unit
  IsOn id (answered x) = x.position_id ≡ id

  decided-id :
      (p : ManagedPosition D) (s : PositionSnapshot D) (o : Outcome Findings)
      → IsOn p.position_id (decided p s o)
  unfolding decision_on
  decided-id p s raised = tt
  decided-id p s (answered f) = refl

  evaluate_snapshot-id :
      (e : ExitRulesEngine D) (now : ℕ) (risk_state : RiskState D) (p : ManagedPosition D)
      (m : Option (MarketState D)) (s : Outcome (PositionSnapshot D))
      → IsOn p.position_id (evaluate_snapshot e now risk_state p m s)
  evaluate_snapshot-id e now risk_state p m raised = tt
  evaluate_snapshot-id e now risk_state p m (answered s) =
      decided-id p s (evaluate e now p s risk_state m)

  evaluate_position-id :
      (e : ExitRulesEngine D) (now : ℕ) (markets : Markets D) (risk_state : RiskState D)
      (p : ManagedPosition D)
      → IsOn p.position_id (evaluate_position e now markets risk_state p)
  unfolding evaluate_position
  evaluate_position-id e now markets risk_state p =
      evaluate_snapshot-id e now risk_state p (markets p.symbol)
        (compute_snapshot now p (markets p.symbol))

  listing-IsOther :
      (id own : String) (x : Outcome (ExitDecision D)) (rest : Outcome (List (ExitDecision D)))
      → IsOn own x
      → str_eq own id ≡ false
      → All (IsOtherDecision id) (listed rest)
      → All (IsOtherDecision id) (listed (listing x rest))
  listing-IsOther id own raised rest on other h = tt
  listing-IsOther id own (answered x) raised on other h = tt
  listing-IsOther id own (answered x) (answered ds) on other h = (rw on other, h)

  -- The managed position, if there is one, is on another id.
  abbrev IsOtherManaged : String → Option (ManagedPosition D) → Type 0
  IsOtherManaged id none = Unit
  IsOtherManaged id (some p) = str_eq p.position_id id ≡ false

  managed_if-IsOther :
      (id : String) (r : PositionStoreRecord D) (kind : Option InstrumentKind) (side : Option Side)
      (status : Option PositionStatus) (exit_state : Option ExitState)
      → IsOther id r
      → IsOtherManaged id (managed_if r kind side status exit_state)
  managed_if-IsOther id r (some kind) (some side) (some status) (some exit_state) h = h
  managed_if-IsOther id r (some kind) (some side) (some status) none h = tt
  managed_if-IsOther id r (some kind) (some side) none exit_state h = tt
  managed_if-IsOther id r (some kind) none status exit_state h = tt
  managed_if-IsOther id r none side status exit_state h = tt

  managed-IsOther :
      (id : String) (r : PositionStoreRecord D)
      → IsOther id r
      → IsOtherManaged id (store_record_to_managed_position r)
  unfolding store_record_to_managed_position
  managed-IsOther id r h =
      managed_if-IsOther id r (kind_of r.instrument_type) (side_of r.side) (status_of r.status)
        (exit_of r.exit_state) h

  collected-IsOther :
      (e : ExitRulesEngine D) (now : ℕ) (markets : Markets D) (risk_state : RiskState D)
      (id : String) (p : Option (ManagedPosition D)) (rest : Outcome (List (ExitDecision D)))
      → IsOtherManaged id p
      → All (IsOtherDecision id) (listed rest)
      → All (IsOtherDecision id) (listed (collected e now markets risk_state p rest))
  collected-IsOther e now markets risk_state id none rest h k = tt
  collected-IsOther e now markets risk_state id (some p) rest h k =
      listing-IsOther id p.position_id (evaluate_position e now markets risk_state p) rest
        (evaluate_position-id e now markets risk_state p) h k

  evaluate_records-IsOther :
      (e : ExitRulesEngine D) (now : ℕ) (markets : Markets D) (risk_state : RiskState D)
      (id : String) (rs : List (PositionStoreRecord D))
      → All (IsOther id) rs
      → All (IsOtherDecision id) (listed (evaluate_records e now markets risk_state rs))
  evaluate_records-IsOther e now markets risk_state id [] h = tt
  evaluate_records-IsOther e now markets risk_state id (r ∷ rs) (h, rest) =
      collected-IsOther e now markets risk_state id (store_record_to_managed_position r)
        (evaluate_records e now markets risk_state rs) (managed-IsOther id r h)
        (evaluate_records-IsOther e now markets risk_state id rs rest)

  evaluate_loaded-IsOther :
      (e : ExitRulesEngine D) (now : ℕ) (markets : Markets D) (risk_state : RiskState D)
      (id : String) (records : Outcome (List (PositionStoreRecord D)))
      → All (IsOther id) (listed records)
      → All (IsOtherDecision id) (listed (evaluate_loaded e now markets risk_state records))
  evaluate_loaded-IsOther e now markets risk_state id raised h = tt
  evaluate_loaded-IsOther e now markets risk_state id (answered records) h =
      evaluate_records-IsOther e now markets risk_state id records h

  after_load-IsOther :
      (e : ExitRulesEngine D) (provider : Provider D) (now : ℕ) (markets : Markets D)
      (risk_state : RiskState D) (t : Table D) (id : String)
      (results : List (PositionReconciliationResult D))
      → reconcile_all provider t ≡ answered results
      → any (λ r. str_eq r.position_id id && needs_action r) results ≡ true
      → (loaded : Outcome (List (PositionStoreRecord D)))
      → All (IsOtherDecision id) (listed (after_load e provider now markets risk_state t loaded).0)
  unfolding evaluate_open get_open_positions
  after_load-IsOther e provider now markets risk_state t id results answer found raised = tt
  after_load-IsOther e provider now markets risk_state t id results answer found (answered []) = tt
  after_load-IsOther e provider now markets risk_state t id results answer found
        (answered (r ∷ rs)) =
      let marked = apply_reconciliation now results t in
      rw answer (
        evaluate_loaded-IsOther e now markets risk_state id (get_open_positions marked) (
          all_of-IsOther id (select is_open marked)
            (select-IsOther id marked (apply-IsShut now id results t found))))

  -- If the reconciliation of a pass finds that the position of an id needs action, the pass
  -- decides nothing on that position: not even while the kill switch is on, and not because it needs
  -- reconciliation.
  pub mismatch_is_dropped :
      (e : ExitRulesEngine D) (provider : Provider D) (now : ℕ) (markets : Markets D)
      (risk_state : RiskState D) (t : Table D) (id : String)
      (results : List (PositionReconciliationResult D))
      → reconcile_all provider t ≡ answered results
      → any (λ r. str_eq r.position_id id && needs_action r) results ≡ true
      → All (IsOtherDecision id) (listed (monitor_once e provider now markets risk_state t).0)
  unfolding monitor_once
  mismatch_is_dropped e provider now markets risk_state t id results answer found =
      after_load-IsOther e provider now markets risk_state t id results answer found
        (get_open_positions t)
