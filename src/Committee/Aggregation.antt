-- ===== src/Committee/Aggregation.antt =====
-- The chair's decision on the agents' opinions (backend/app/committee/aggregation.py). The weights
-- are Python's floats: their arithmetic is the parameter `Float`, and `exact` is Decimal(str(x)).
-- Weights whose sum is zero, for which Python raises a ZeroDivisionError, are outside of the model.
-- A set of texts is the list of its elements in the order of their first insertion; Python promises
-- no order. The texts of the decision's reasons are left out.
use alpha_council.Base.{
  ℕ, String, Bool, true, not, ◌&&◌, Option, none, some, List, [], ◌∷◌, map, length, select, str_eq,
  is_some, if◌then◌else◌, ltb as ltb_ℕ, ◌+◌,
}
use alpha_council.Base.Int.{ℤ, pos, negsuc}
use alpha_council.Base.Dict.{string_key, Entry, get}
use alpha_council.Decimal.{
  Decimal, decimal, leb, ltb, add, mul, div, nought, one, whole, neg, max, min,
}
use alpha_council.Market.{SignalDirection, bullish, bearish}
use alpha_council.Committee.Models.{
  AgentRole, role_text, is_abstain, stance_value_of, is_success, AgentOpinion, AgentResult,
  DisagreementSeverity, no_disagreement, low, medium, high, CommitteeDecision, propose_long,
  propose_short, no_trade, NoTradeReason, low_conviction, high_disagreement, insufficient_analysis,
  mixed_evidence,
}

-- Python's floats, of the language: `fraction n` is n / 100.
pub record Float (F : Type 0) : Type 0 where
  pub fraction : ℕ → F
  pub plus : F → F → F
  pub over : F → F → F

pub record AggregationResult (D : Type 0) : Type 0 where
  pub decision : CommitteeDecision
  pub direction : Option SignalDirection
  pub committee_score : D
  pub committee_confidence : D
  pub participating_agents : List AgentRole
  pub abstained_agents : List AgentRole
  pub failed_agents : List AgentRole
  pub supporting_evidence_ids : List String
  pub contradicting_evidence_ids : List String
  pub unresolved_risks : List String
  pub no_trade_reason : Option NoTradeReason
  pub final_disagreement : DisagreementSeverity

-- `s.add(x)` and `s.update(xs)`
abbrev add_element : List String → String → List String
add_element [] x = x ∷ []
add_element (y ∷ s) x = let rest = add_element s x in if str_eq y x then y ∷ s else y ∷ rest

abbrev pub update_set : List String → List String → List String
update_set s [] = s
update_set s (x ∷ xs) = update_set (add_element s x) xs

-- A result that counts, with its opinion.
pub record ValidOpinion (D : Type 0) : Type 0 where
  pub agent_role : AgentRole
  pub opinion : AgentOpinion D

module _ {D : Type 0} where
  abbrev valid_opinion : AgentResult D → List (ValidOpinion D) → List (ValidOpinion D)
  valid_opinion r rest = elim r.opinion [
    | none ↦ rest
    | some o ↦
        if is_success r.status && not (is_abstain o.stance)
        then record { agent_role = r.agent_role; opinion = o } ∷ rest
        else rest
  ]

  unfoldable pub valid_opinions : List (AgentResult D) → List (ValidOpinion D)
  valid_opinions [] = []
  valid_opinions (r ∷ rs) = valid_opinion r (valid_opinions rs)

  abbrev pub failed_roles : List (AgentResult D) → List AgentRole
  failed_roles rs = map (λ r. r.agent_role) (select (λ r. not (is_success r.status)) rs)

  -- r.status == "SUCCESS" and r.opinion is not None
  abbrev pub has_opinion : AgentResult D → Bool
  has_opinion r = is_success r.status && is_some r.opinion

  abbrev abstained : AgentResult D → Bool
  abstained r = elim r.opinion [ none ↦ not true | some o ↦ is_abstain o.stance ]

  abbrev pub abstained_roles : List (AgentResult D) → List AgentRole
  abstained_roles rs = map (λ r. r.agent_role) (select abstained rs)

  abbrev pub collect_set :
      (AgentOpinion D → List String) → List String → List (ValidOpinion D) → List String
  collect_set texts s [] = s
  collect_set texts s (v ∷ vs) = collect_set texts (update_set s (texts v.opinion)) vs

module _ {F : Type 0} ⦃f : Float F⦄ where
  -- DEFAULT_WEIGHTS
  abbrev pub default_weights : List (Entry String F)
  default_weights =
      record { key = "QUANT"; value = f.fraction 30 }
      ∷ record { key = "BULL"; value = f.fraction 25 }
      ∷ record { key = "BEAR"; value = f.fraction 25 }
      ∷ record { key = "REGIME"; value = f.fraction 20 }
      ∷ []

  abbrev sum_weights : F → List (Entry String F) → F
  sum_weights total [] = total
  sum_weights total (w ∷ ws) = sum_weights (f.plus total w.value) ws

module _ {F D : Type 0} ⦃f : Float F⦄ (exact : F → D) where
  unfoldable pub norm_weights : List (Entry String F) → List (Entry String D)
  norm_weights ws =
      let total = sum_weights (f.fraction 0) ws in
      map (λ w. record { key = w.key; value = exact (f.over w.value total) }) ws

abbrev pub is_contested : Option DisagreementSeverity → Bool
is_contested (some high) = true
is_contested (some medium) = true
is_contested _ = not true

module _ {D : Type 0} ⦃d : Decimal D⦄ where
  abbrev weight_of : List (Entry String D) → AgentRole → D
  weight_of norm role = elim (get (role_text role) norm) [ none ↦ nought | some w ↦ w ]

  abbrev pub successful_weight : List (Entry String D) → D → List (ValidOpinion D) → D
  successful_weight norm total [] = total
  successful_weight norm total (v ∷ vs) =
      successful_weight norm (add total (weight_of norm v.agent_role)) vs

  -- Decimal(str(opinion.stance_value or 0))
  unfoldable pub stance_decimal : Option ℤ → D
  stance_decimal none = nought
  stance_decimal (some (pos n)) = whole n
  stance_decimal (some (negsuc n)) = neg (whole (n + 1))

  abbrev pub weighted_stance : List (Entry String D) → D → List (ValidOpinion D) → D
  weighted_stance norm total [] = total
  weighted_stance norm total (v ∷ vs) =
      let stance_val = stance_decimal (stance_value_of v.opinion.stance) in
      let share = mul (mul stance_val (weight_of norm v.opinion.agent_role)) v.opinion.confidence in
      weighted_stance norm (add total share) vs

  abbrev pub total_confidence_weight : List (Entry String D) → D → List (ValidOpinion D) → D
  total_confidence_weight norm total [] = total
  total_confidence_weight norm total (v ∷ vs) =
      let share = mul (weight_of norm v.opinion.agent_role) v.opinion.confidence in
      total_confidence_weight norm (add total share) vs

  unfoldable pub normalized_stance : List (Entry String D) → List (ValidOpinion D) → D
  normalized_stance norm vs =
      let total = total_confidence_weight norm nought vs in
      if ltb nought total then div (weighted_stance norm nought vs) total else nought

  -- DISAGREEMENT_PENALTIES
  abbrev pub disagreement_penalties : DisagreementSeverity → D
  disagreement_penalties no_disagreement = one
  disagreement_penalties low = decimal 9_500
  disagreement_penalties medium = decimal 8_500
  disagreement_penalties high = decimal 7_000

  abbrev pub penalty_of : Option DisagreementSeverity → D
  penalty_of none = one
  penalty_of (some severity) = disagreement_penalties severity

  unfoldable pub score_of : D → D → D
  score_of stance penalty =
      let base_score = mul (mul (add stance one) (whole 50)) penalty in
      max nought (min (whole 100) base_score)

  abbrev pub sum_confidence : D → List (ValidOpinion D) → D
  sum_confidence total [] = total
  sum_confidence total (v ∷ vs) = sum_confidence (add total v.opinion.confidence) vs

  unfoldable pub confidence_of : List (ValidOpinion D) → D → D
  confidence_of vs penalty = mul (div (sum_confidence nought vs) (whole (length vs))) penalty

  unfoldable pub decision_of : D → CommitteeDecision
  decision_of score =
      if leb (whole 60) score
      then propose_long
      else (if leb score (whole 40) then propose_short else no_trade)

  unfoldable pub direction_of : D → Option SignalDirection
  direction_of score =
      if leb (whole 60) score
      then some bullish
      else (if leb score (whole 40) then some bearish else none)

  unfoldable pub no_trade_reason_of :
      CommitteeDecision → ℕ → Option DisagreementSeverity → D → Option NoTradeReason
  no_trade_reason_of no_trade agents disagreement confidence =
      if ltb_ℕ agents 3
      then some insufficient_analysis
      else (if is_contested disagreement
          then some high_disagreement
          else (if ltb confidence (decimal 5_000)
              then some low_conviction
              else some mixed_evidence))
  no_trade_reason_of _ agents disagreement confidence = none

  -- the early return, when too few agents or too little weight succeeded
  unfoldable pub insufficient : List (AgentResult D) → AggregationResult D
  insufficient opinions = record {
    decision = no_trade;
    direction = none;
    committee_score = nought;
    committee_confidence = nought;
    participating_agents = [];
    abstained_agents = [];
    failed_agents = failed_roles opinions;
    supporting_evidence_ids = [];
    contradicting_evidence_ids = [];
    unresolved_risks = [];
    no_trade_reason = some insufficient_analysis;
    final_disagreement = no_disagreement;
  }

  unfoldable pub scored :
      List (Entry String D)
      → List (AgentResult D)
      → List (ValidOpinion D)
      → Option DisagreementSeverity
      → AggregationResult D
  scored norm opinions vs disagreement =
      let penalty = penalty_of disagreement in
      let committee_score = score_of (normalized_stance norm vs) penalty in
      let committee_confidence = confidence_of vs penalty in
      let decision = decision_of committee_score in
      record {
        decision = decision;
        direction = direction_of committee_score;
        committee_score = committee_score;
        committee_confidence = committee_confidence;
        participating_agents = map (λ v. v.agent_role) vs;
        abstained_agents = abstained_roles opinions;
        failed_agents = failed_roles opinions;
        supporting_evidence_ids = collect_set (λ o. o.supporting_evidence_ids) [] vs;
        contradicting_evidence_ids = collect_set (λ o. o.contradicting_evidence_ids) [] vs;
        unresolved_risks = collect_set (λ o. o.key_risks) [] vs;
        no_trade_reason = no_trade_reason_of decision (length vs) disagreement committee_confidence;
        final_disagreement = no_disagreement;
      }

  -- Final decision determination.
  unfoldable pub determine_final_decision : AggregationResult D → AggregationResult D
  determine_final_decision r =
      if ltb one r.committee_confidence
      then record r { committee_confidence = one }
      else (if ltb r.committee_confidence nought
          then record r { committee_confidence = nought }
          else r)

module _ {F D : Type 0} ⦃f : Float F⦄ ⦃d : Decimal D⦄ (exact : F → D) where
  unfoldable pub aggregate_opinions :
      List (AgentResult D)
      → List (Entry String F)
      → Option DisagreementSeverity
      → AggregationResult D
  aggregate_opinions opinions weights disagreement =
      let norm = norm_weights exact weights in
      let vs = valid_opinions opinions in
      if ltb_ℕ (length vs) 3
      then insufficient opinions
      else (
          -- MIN_SUCCESSFUL_WEIGHT
          if ltb (successful_weight norm nought vs) (exact (f.fraction 60))
          then insufficient opinions
          else scored norm opinions vs disagreement)

  -- CommitteeAggregator.aggregate; the constructor's min_agents and min_weight are not read.
  unfoldable pub aggregate :
      List (Entry String F)
      → List (AgentResult D)
      → Option DisagreementSeverity
      → AggregationResult D
  aggregate weights agent_results final_disagreement =
      let result =
        aggregate_opinions (select has_opinion agent_results) weights final_disagreement in
      record result {
        final_disagreement = elim final_disagreement [
          | none ↦ no_disagreement
          | some severity ↦ severity
        ];
      }
