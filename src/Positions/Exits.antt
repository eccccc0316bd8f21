-- ===== src/Positions/Exits.antt =====
-- What the rules for exits and the monitor decide (backend/app/positions/metrics.py, monitor.py).
use alpha_council.Base.{
  ℕ, ◌≡◌, refl, sym, ap, ◌∙◌, Bool, false, Option, List, [], ◌∷◌, ◌++◌, map, select, All, arith,
  is_empty, if◌then◌else◌,
}
use alpha_council.Decimal.{Decimal, truthy}
use alpha_council.Alpaca.{Outcome, answered, raised}
use alpha_council.Market.{MarketState}
use alpha_council.Risk.Models.{RiskState}
use alpha_council.Positions.Models.{hold, exit, ExitReasonCode, ExitUrgency, no_urgency}
use alpha_council.Positions.Records.{ManagedPosition, PositionSnapshot}
use alpha_council.Positions.ExitRules.{
  ExitRulesEngine, Findings, no_findings, Rule, raise, apply_rule, apply_rules, rules_of,
  trend_turned, momentum_turned, volatility_spiked, needs_reconciliation, hard_stop, max_loss,
  held_too_long, trailing_stop, take_profit_reached, evaluate, evaluate_on,
}
use alpha_council.Positions.Demands.{demands, priorities, level, join, greatest, IsVerdict}

append_assoc_one :
    (xs : List ExitReasonCode) (y : ExitReasonCode) (zs : List ExitReasonCode)
    → (xs ++ (y ∷ [])) ++ zs ≡ xs ++ (y ∷ zs)
append_assoc_one [] y zs = refl
append_assoc_one (x ∷ xs) y zs = ap (λ ys. x ∷ ys) (append_assoc_one xs y zs)

append_nil : (xs : List ExitReasonCode) → xs ++ [] ≡ xs
append_nil [] = refl
append_nil (x ∷ xs) = ap (λ ys. x ∷ ys) (append_nil xs)

-- The rule tests the condition of its reason and presses as its reason is urgent.
abbrev IsRuleOf : (ExitReasonCode → Bool) → Rule → Type 0
IsRuleOf holds r = (holds r.reason ≡ r.applies) × (raise r.pressure no_urgency ≡ level r.reason)

raise-join :
    (r : Rule) (before : ExitUrgency)
    → raise r.pressure no_urgency ≡ level r.reason
    → raise r.pressure before ≡ join before (level r.reason)
raise-join r before h = ground (arith, h)

join_assoc : (a b c : ExitUrgency) → join (join a b) c ≡ join a (join b c)
join_assoc a b c = ground arith

join_none : (a : ExitUrgency) → join a no_urgency ≡ a
join_none a = ground arith

reasons_of : (ExitReasonCode → Bool) → List Rule → List ExitReasonCode
reasons_of holds rs = select holds (map (λ r. r.reason) rs)

module _ (holds : ExitReasonCode → Bool) where
  apply_rules-reasons :
      (rs : List Rule) (f : Findings)
      → All (IsRuleOf holds) rs
      → (apply_rules rs f).reasons ≡ f.reasons ++ reasons_of holds rs
  unfolding reasons_of select
  apply_rules-reasons [] f h = sym (append_nil f.reasons)
  apply_rules-reasons (r ∷ rs) f (h, rest) = ground (
    arith,
    h.0,
    apply_rules-reasons rs (apply_rule r f) rest,
    append_assoc_one f.reasons r.reason (reasons_of holds rs),
  )

  apply_rules-urgency :
      (rs : List Rule) (f : Findings)
      → All (IsRuleOf holds) rs
      → (apply_rules rs f).max_urgency ≡ join f.max_urgency (greatest (reasons_of holds rs))
  unfolding reasons_of select greatest
  apply_rules-urgency [] f h = sym (join_none f.max_urgency)
  apply_rules-urgency (r ∷ rs) f (h, rest) = ground (
    arith,
    h.0,
    apply_rules-urgency rs (apply_rule r f) rest,
    raise-join r f.max_urgency h.1,
    join_assoc f.max_urgency (level r.reason) (greatest (reasons_of holds rs)),
  )

  apply_rules-decision :
      (rs : List Rule) (f : Findings)
      → All (IsRuleOf holds) rs
      → (apply_rules rs f).decision ≡ (if is_empty (reasons_of holds rs) then f.decision else exit)
  unfolding reasons_of select
  apply_rules-decision [] f h = refl
  apply_rules-decision (r ∷ rs) f (h, rest) =
      ground (arith, h.0, apply_rules-decision rs (apply_rule r f) rest)

  apply_rules-IsVerdict :
      (rs : List Rule)
      → map (λ r. r.reason) rs ≡ priorities
      → All (IsRuleOf holds) rs
      → IsVerdict holds (apply_rules rs no_findings)
  unfolding IsVerdict reasons_of
  apply_rules-IsVerdict rs named h =
      let f = apply_rules rs no_findings in
      let reasons : f.reasons ≡ select holds (map (λ r. r.reason) rs) =
        apply_rules-reasons rs no_findings h in
      (
        reasons ∙ ap (select holds) named,
        apply_rules-urgency rs no_findings h ∙ ap greatest (sym reasons),
        apply_rules-decision rs no_findings h
            ∙ ap (λ xs. if is_empty xs then hold else exit) (sym reasons),
      )

module _ {D : Type 0} ⦃d : Decimal D⦄ where
  hard_stop_lem :
      (e : ExitRulesEngine D) (now : ℕ) (p : ManagedPosition D) (s : PositionSnapshot D)
      (risk_state : RiskState D) (m : Option (MarketState D))
      → demands e now p s risk_state m ExitReasonCode.hard_stop_triggered ≡ hard_stop p s
  unfolding demands hard_stop
  hard_stop_lem e now p s risk_state m = ground arith

  trailing_stop_lem :
      (e : ExitRulesEngine D) (now : ℕ) (p : ManagedPosition D) (s : PositionSnapshot D)
      (risk_state : RiskState D) (m : Option (MarketState D)) (trails : Bool)
      → trailing_stop e p s ≡ answered trails
      → demands e now p s risk_state m ExitReasonCode.trailing_stop_triggered ≡ trails
  unfolding demands trailing_stop
  trailing_stop_lem e now p s risk_state m trails h = ground (arith, h)

  trailing_stop-raised :
      (e : ExitRulesEngine D) (p : ManagedPosition D) (s : PositionSnapshot D)
      → trailing_stop e p s ≡ raised
      → truthy p.entry_price ≡ false
  unfolding trailing_stop
  trailing_stop-raised e p s h = ground (arith, h)

  trend_lem :
      (e : ExitRulesEngine D) (now : ℕ) (p : ManagedPosition D) (s : PositionSnapshot D)
      (risk_state : RiskState D) (m : Option (MarketState D))
      → demands e now p s risk_state m ExitReasonCode.trend_reversal ≡ trend_turned p m
  unfolding demands
  trend_lem e now p s risk_state m = ground arith

  momentum_lem :
      (e : ExitRulesEngine D) (now : ℕ) (p : ManagedPosition D) (s : PositionSnapshot D)
      (risk_state : RiskState D) (m : Option (MarketState D))
      → demands e now p s risk_state m ExitReasonCode.momentum_reversal ≡ momentum_turned p m
  unfolding demands
  momentum_lem e now p s risk_state m = ground arith

  volatility_lem :
      (e : ExitRulesEngine D) (now : ℕ) (p : ManagedPosition D) (s : PositionSnapshot D)
      (risk_state : RiskState D) (m : Option (MarketState D))
      → demands e now p s risk_state m ExitReasonCode.volatility_spike ≡ volatility_spiked m
  unfolding demands
  volatility_lem e now p s risk_state m = ground arith

  marked_lem :
      (e : ExitRulesEngine D) (now : ℕ) (p : ManagedPosition D) (s : PositionSnapshot D)
      (risk_state : RiskState D) (m : Option (MarketState D))
      → demands e now p s risk_state m ExitReasonCode.provider_reconciliation_required
        ≡ needs_reconciliation p.status
  unfolding demands
  marked_lem e now p s risk_state m = ground arith

  max_loss_lem :
      (e : ExitRulesEngine D) (now : ℕ) (p : ManagedPosition D) (s : PositionSnapshot D)
      (risk_state : RiskState D) (m : Option (MarketState D))
      → demands e now p s risk_state m ExitReasonCode.max_loss_reached ≡ max_loss p
  unfolding demands max_loss
  max_loss_lem e now p s risk_state m = ground arith

  rules_of-IsRuleOf :
      (e : ExitRulesEngine D) (now : ℕ) (p : ManagedPosition D) (s : PositionSnapshot D)
      (risk_state : RiskState D) (m : Option (MarketState D)) (trails : Bool)
      → trailing_stop e p s ≡ answered trails
      → All (IsRuleOf (demands e now p s risk_state m)) (rules_of e now p s risk_state m trails)
  unfolding demands held_too_long take_profit_reached
  rules_of-IsRuleOf e now p s risk_state m trails h = (
    (refl, refl),
    (
      (marked_lem e now p s risk_state m, refl),
      (
        (hard_stop_lem e now p s risk_state m, refl),
        (
          (max_loss_lem e now p s risk_state m, refl),
          (
            (refl, refl),
            (
              (trailing_stop_lem e now p s risk_state m trails h, refl),
              (
                (refl, refl),
                (
                  (trend_lem e now p s risk_state m, refl),
                  (
                    (momentum_lem e now p s risk_state m, refl),
                    ((volatility_lem e now p s risk_state m, refl), tt),
                  ),
                ),
              ),
            ),
          ),
        ),
      ),
    ),
  )

  -- The outcome of the rules: the findings that the conditions demand, or an exception, and then the
  -- entry price is zero.
  abbrev pub IsJudged : D → (ExitReasonCode → Bool) → Outcome Findings → Type 0
  IsJudged entry holds raised = truthy entry ≡ false
  IsJudged entry holds (answered f) = IsVerdict holds f

  evaluate_on-IsJudged :
      (e : ExitRulesEngine D) (now : ℕ) (p : ManagedPosition D) (s : PositionSnapshot D)
      (risk_state : RiskState D) (m : Option (MarketState D)) (trails : Outcome Bool)
      → trailing_stop e p s ≡ trails
      → IsJudged p.entry_price
          (demands e now p s risk_state m)
          (evaluate_on e now p s risk_state m trails)
  evaluate_on-IsJudged e now p s risk_state m raised h = trailing_stop-raised e p s h
  evaluate_on-IsJudged e now p s risk_state m (answered trails) h =
      apply_rules-IsVerdict (demands e now p s risk_state m)
        (rules_of e now p s risk_state m trails) refl
        (rules_of-IsRuleOf e now p s risk_state m trails h)

  -- evaluate reports exactly the reasons whose conditions hold, by their priorities, with the
  -- greatest of their urgencies and NONE for no reason, and decides EXIT if there is a reason and
  -- HOLD if there is none. It raises only where the entry price is zero.
  pub evaluate-IsJudged :
      (e : ExitRulesEngine D) (now : ℕ) (p : ManagedPosition D) (s : PositionSnapshot D)
      (risk_state : RiskState D) (m : Option (MarketState D))
      → IsJudged p.entry_price (demands e now p s risk_state m) (evaluate e now p s risk_state m)
  unfolding evaluate
  evaluate-IsJudged e now p s risk_state m =
      evaluate_on-IsJudged e now p s risk_state m (trailing_stop e p s) refl
