-- ===== src/Positions/KillSwitch.antt =====
-- Positions under the kill switch (backend/app/positions/metrics.py, monitor.py).
use alpha_council.Base.{ℕ, ◌≡◌, refl, sym, ◌∙◌, Bool, true, false, Option, select, arith}
use alpha_council.Decimal.{Decimal, nought, truthy}
use alpha_council.Alpaca.{Outcome, answered, raised}
use alpha_council.Market.{MarketState}
use alpha_council.Risk.Models.{RiskState}
use alpha_council.Positions.Models.{exit, ExitReasonCode, immediate, Side, long, short}
use alpha_council.Positions.Records.{ManagedPosition, PositionSnapshot, ExitDecision}
use alpha_council.Positions.ExitRules.{ExitRulesEngine, Findings, evaluate}
use alpha_council.Positions.Metrics.{
  compute_snapshot, snapshot_on, fresh_prices, higher, lower, above, below, compute_mfe,
  compute_mae,
}
use alpha_council.Positions.Monitor.{
  Markets, evaluate_position, evaluate_snapshot, decided, decision_on,
}
use alpha_council.Positions.Demands.{demands, greatest, IsVerdict}
use alpha_council.Positions.Exits.{IsJudged, evaluate-IsJudged}

abbrev raises : {A : Type 0} → Outcome A → Bool
raises raised = true
raises (answered a) = false

verdict-exit :
    (holds : ExitReasonCode → Bool) (f : Findings)
    → holds ExitReasonCode.kill_switch ≡ true
    → IsVerdict holds f
    → (f.decision ≡ exit) × (f.max_urgency ≡ immediate)
unfolding IsVerdict select greatest
verdict-exit holds f h verdict = ground (arith, h, verdict.0, verdict.1, verdict.2)

module _ {D : Type 0} ⦃d : Decimal D⦄ where
  -- The decision closes the whole position at once.
  abbrev pub IsClosing : ManagedPosition D → Outcome (ExitDecision D) → Type 0
  IsClosing p raised = true ≡ false
  IsClosing p (answered x) =
      (x.position_id ≡ p.position_id)
      × (x.decision ≡ exit)
      × (x.urgency ≡ immediate)
      × (x.target_quantity_to_close ≡ p.current_quantity)
      × (x.quantity_remaining ≡ nought)

  decided-IsClosing :
      (p : ManagedPosition D) (s : PositionSnapshot D) (holds : ExitReasonCode → Bool)
      (o : Outcome Findings)
      → truthy p.entry_price ≡ true
      → holds ExitReasonCode.kill_switch ≡ true
      → IsJudged p.entry_price holds o
      → IsClosing p (decided p s o)
  unfolding decision_on
  decided-IsClosing p s holds raised t h judged = sym t ∙ judged
  decided-IsClosing p s holds (answered f) t h judged =
      let found = verdict-exit holds f h judged in rw (found.0) (refl, refl, found.1, refl, refl)

  -- Neither excursion raises where the entry price is not zero.
  raises-above : (entry high : D) → truthy entry ≡ true → raises (above entry high) ≡ false
  raises-above entry high t = ground (arith, t)

  raises-below : (entry low : D) → truthy entry ≡ true → raises (below entry low) ≡ false
  raises-below entry low t = ground (arith, t)

  raises-compute_mfe :
      (side : Side) (entry high low : D)
      → truthy entry ≡ true
      → raises (compute_mfe side entry high low) ≡ false
  raises-compute_mfe long entry high low t = raises-above entry high t
  raises-compute_mfe short entry high low t = raises-below entry low t

  raises-compute_mae :
      (side : Side) (entry high low : D)
      → truthy entry ≡ true
      → raises (compute_mae side entry high low) ≡ false
  raises-compute_mae long entry high low t = raises-below entry low t
  raises-compute_mae short entry high low t = raises-above entry high t

  raises-snapshot_on :
      (now : ℕ) (p : ManagedPosition D) (m : Option (MarketState D)) (mfe mae : Outcome D)
      → raises mfe ≡ false
      → raises mae ≡ false
      → raises (snapshot_on now p m mfe mae) ≡ false
  raises-snapshot_on now p m raised mae a b = a
  raises-snapshot_on now p m (answered mfe) raised a b = b
  raises-snapshot_on now p m (answered mfe) (answered mae) a b = refl

  evaluate_snapshot-IsClosing :
      (e : ExitRulesEngine D) (now : ℕ) (risk_state : RiskState D) (p : ManagedPosition D)
      (m : Option (MarketState D)) (snapshot : Outcome (PositionSnapshot D))
      → truthy p.entry_price ≡ true
      → risk_state.kill_switch_active ≡ true
      → raises snapshot ≡ false
      → IsClosing p (evaluate_snapshot e now risk_state p m snapshot)
  unfolding demands
  evaluate_snapshot-IsClosing e now risk_state p m raised t h shot = shot
  evaluate_snapshot-IsClosing e now risk_state p m (answered s) t h shot =
      decided-IsClosing p s (demands e now p s risk_state m) (evaluate e now p s risk_state m) t h
        (evaluate-IsJudged e now p s risk_state m)

  -- While the kill switch is on, every position with an entry price that is not zero is evaluated
  -- without an exception and is to be closed at once and in full, whatever the market says.
  pub kill_switch_closes :
      (e : ExitRulesEngine D) (now : ℕ) (markets : Markets D) (risk_state : RiskState D)
      (p : ManagedPosition D)
      → truthy p.entry_price ≡ true
      → risk_state.kill_switch_active ≡ true
      → IsClosing p (evaluate_position e now markets risk_state p)
  unfolding evaluate_position compute_snapshot
  kill_switch_closes e now markets risk_state p t h =
      let m = markets p.symbol in
      let mid = (fresh_prices p m).mid in
      let top = higher p.highest_price_since_entry mid in
      let bottom = lower p.lowest_price_since_entry mid in
      let mfe = compute_mfe p.side p.entry_price top bottom in
      let mae = compute_mae p.side p.entry_price top bottom in
      evaluate_snapshot-IsClosing e now risk_state p m (snapshot_on now p m mfe mae) t h (
        raises-snapshot_on now p m mfe mae (raises-compute_mfe p.side p.entry_price top bottom t)
          (raises-compute_mae p.side p.entry_price top bottom t))
