-- ===== src/Committee/Service.antt =====
-- `InvestmentCommitteeService` (backend/app/committee/service.py): the rounds of the committee, the
-- chair's decision and the thesis. An exception is `none`; run times and the thesis's summary are
-- left out.
use alpha_council.Base.{
  ℕ, ◌+◌, String, Bool, true, false, not, ◌&&◌, Option, none, some, List, [], ◌∷◌, ◌++◌, map,
  select, find, take, ◌==◌, if◌then◌else◌,
}
use alpha_council.Base.Dict.{Entry}
use alpha_council.Decimal.{Decimal, leb, nought, one, whole}
use alpha_council.Market.{SignalDirection, bullish}
use alpha_council.Discovery.Models.{Candidate}
use alpha_council.Committee.Models.{
  AgentRole, quant, bull, bear, regime, same_role, success, is_success, AgentOpinion, AgentResult,
  EvidencePacket, DisagreementReport, DisagreementSeverity, CommitteeDecision, propose_long,
  propose_short, no_trade, CommitteeDecisionModel, TradeThesis, CommitteeResult,
}
use alpha_council.Committee.Evidence.{Format, build_evidence_packet}
use alpha_council.Committee.Agents.{Backend, analyze, rebut}
use alpha_council.Committee.Disagreement.{detect_disagreement, generate_challenges}
use alpha_council.Committee.Rebuttal.{Rebut, run_rebuttal_round}
use alpha_council.Committee.Aggregation.{
  Float, default_weights, AggregationResult, aggregate, has_opinion, update_set,
}

abbrev pub agent_list : List AgentRole
agent_list = quant ∷ bull ∷ bear ∷ regime ∷ []

abbrev pub thesis_direction : Option SignalDirection → SignalDirection
thesis_direction none = bullish
thesis_direction (some direction) = direction

-- decision in (PROPOSE_LONG, PROPOSE_SHORT)
abbrev pub is_proposal : CommitteeDecision → Bool
is_proposal propose_long = true
is_proposal propose_short = true
is_proposal no_trade = false

module _ {D : Type 0} where
  unfoldable pub successful_opinions : List (AgentResult D) → List (AgentOpinion D)
  successful_opinions [] = []
  successful_opinions (r ∷ rs) = elim r.opinion [
    | none ↦ successful_opinions rs
    | some o ↦ let rest = successful_opinions rs in if is_success r.status then o ∷ rest else rest
  ]

  abbrev sum_attempts : List (AgentResult D) → ℕ
  sum_attempts [] = 0
  sum_attempts (r ∷ rs) = r.attempts + sum_attempts rs

  -- the opinion of the second round if there is one, else the initial one
  abbrev pub merged_opinion : List (AgentOpinion D) → AgentOpinion D → AgentOpinion D
  merged_opinion rebuttals initial =
      elim (find (λ r. same_role r.agent_role initial.agent_role) rebuttals) [
        | none ↦ initial
        | some r ↦ if r.round == 2 then r else initial
      ]

  unfoldable pub merged : List (AgentOpinion D) → List (AgentOpinion D) → List (AgentOpinion D)
  merged rebuttals initial_opinions = map (λ o. merged_opinion rebuttals o) initial_opinions

  abbrev pub result_of_opinion : AgentOpinion D → AgentResult D
  result_of_opinion o = record {
    agent_role = o.agent_role;
    status = success;
    opinion = some o;
    attempts = 1;
  }

  -- the final opinions as results, and the initial results that have none
  unfoldable pub agent_results : List (AgentOpinion D) → List (AgentResult D) → List (AgentResult D)
  agent_results final_opinions initial_results =
      map (λ o. result_of_opinion o) final_opinions
      ++ select (λ r. not (has_opinion r)) initial_results

  abbrev collect_conditions : List String → List (AgentOpinion D) → List String
  collect_conditions conditions [] = conditions
  collect_conditions conditions (o ∷ os) =
      collect_conditions (update_set conditions o.invalidation_conditions) os

module _ {V D : Type 0} (b : Backend V D) where
  unfoldable pub run_independent_round : EvidencePacket → List (AgentResult D)
  run_independent_round evidence = map (λ role. analyze b role evidence) agent_list

  abbrev pub agents_map : List (Entry String (Rebut D))
  agents_map =
      record { key = "QUANT"; value = rebut b quant }
      ∷ record { key = "BULL"; value = rebut b bull }
      ∷ record { key = "BEAR"; value = rebut b bear }
      ∷ record { key = "REGIME"; value = rebut b regime }
      ∷ []

  unfoldable pub final_round :
      Bool
      → EvidencePacket
      → List (AgentOpinion D)
      → DisagreementReport
      → Option (List (AgentOpinion D))
  final_round enable_rebuttal evidence initial_opinions disagreement =
      if enable_rebuttal && disagreement.challenge_required
      then (elim (generate_challenges initial_opinions disagreement) [
        | none ↦ none
        | some challenges ↦
            let rebuttals = run_rebuttal_round agents_map evidence challenges initial_opinions in
            some (merged rebuttals initial_opinions)
      ])
      else some initial_opinions

module _ {D : Type 0} ⦃d : Decimal D⦄ where
  -- CommitteeDecisionModel(...), whose fields are validated
  unfoldable pub decision_model :
      String → DisagreementSeverity → AggregationResult D → Option (CommitteeDecisionModel D)
  decision_model symbol initial_disagreement r =
      if (leb nought r.committee_score && leb r.committee_score (whole 100))
        && (leb nought r.committee_confidence && leb r.committee_confidence one)
      then some record {
        symbol = symbol;
        decision = r.decision;
        direction = r.direction;
        committee_score = r.committee_score;
        committee_confidence = r.committee_confidence;
        initial_disagreement = initial_disagreement;
        final_disagreement = r.final_disagreement;
        participating_agents = r.participating_agents;
        abstained_agents = r.abstained_agents;
        failed_agents = r.failed_agents;
        supporting_evidence_ids = r.supporting_evidence_ids;
        contradicting_evidence_ids = r.contradicting_evidence_ids;
        unresolved_risks = r.unresolved_risks;
        no_trade_reason = r.no_trade_reason;
      }
      else none

  -- The thesis's confidence is the decision's, which passed the same validation.
  unfoldable pub trade_thesis_of :
      Candidate D → CommitteeDecisionModel D → List (AgentOpinion D) → Option (TradeThesis D)
  trade_thesis_of c decision final_opinions =
      if is_proposal decision.decision
      then some record {
        symbol = c.symbol;
        proposed_direction = thesis_direction decision.direction;
        committee_confidence = decision.committee_confidence;
        supporting_evidence_ids = decision.supporting_evidence_ids;
        contradicting_evidence_ids = decision.contradicting_evidence_ids;
        key_risks = decision.unresolved_risks;
        invalidation_conditions = collect_conditions [] final_opinions;
        candidate_score = c.opportunity_score.total;
        committee_decision = decision;
      }
      else none

module _ {V F D : Type 0} ⦃f : Float F⦄ ⦃d : Decimal D⦄ (exact : F → D) (fmt : Format D)
    (b : Backend V D) where
  abbrev pub completed :
      Candidate D
      → List (AgentResult D)
      → DisagreementReport
      → ℕ
      → List (AgentOpinion D)
      → Option (CommitteeDecisionModel D)
      → Option (CommitteeResult D)
  completed c initial_results disagreement calls final_opinions none = none
  completed c initial_results disagreement calls final_opinions (some decision) = some record {
    candidate_symbol = c.symbol;
    evidence_packet = build_evidence_packet fmt c;
    initial_opinions = successful_opinions initial_results;
    disagreement_report = disagreement;
    challenges = [];
    final_opinions = final_opinions;
    decision = decision;
    trade_thesis = trade_thesis_of c decision final_opinions;
    total_llm_calls = calls;
  }

  unfoldable pub concluded :
      Candidate D
      → List (AgentResult D)
      → DisagreementReport
      → ℕ
      → List (AgentOpinion D)
      → Option (CommitteeResult D)
  concluded c initial_results disagreement calls final_opinions =
      let final_disagreement = detect_disagreement final_opinions in
      let aggregation_result =
        aggregate exact default_weights (agent_results final_opinions initial_results)
          (some final_disagreement.severity) in
      completed c initial_results disagreement calls final_opinions
        (decision_model c.symbol disagreement.severity aggregation_result)

  -- A rebuttal round counts the calls of the first round again.
  abbrev pub llm_calls : Bool → List (AgentResult D) → ℕ
  llm_calls rebuttal results =
      if rebuttal then sum_attempts results + sum_attempts results else sum_attempts results

  abbrev pub after_rebuttal :
      Candidate D
      → List (AgentResult D)
      → DisagreementReport
      → ℕ
      → Option (List (AgentOpinion D))
      → Option (CommitteeResult D)
  after_rebuttal c initial_results disagreement calls none = none
  after_rebuttal c initial_results disagreement calls (some final_opinions) =
      concluded c initial_results disagreement calls final_opinions

  unfoldable pub evaluate_candidate : Bool → Candidate D → Option (CommitteeResult D)
  evaluate_candidate enable_rebuttal c =
      let evidence = build_evidence_packet fmt c in
      let initial_results = run_independent_round b evidence in
      let initial_opinions = successful_opinions initial_results in
      let disagreement = detect_disagreement initial_opinions in
      after_rebuttal c initial_results disagreement
        (llm_calls (enable_rebuttal && disagreement.challenge_required) initial_results)
        (final_round b enable_rebuttal evidence initial_opinions disagreement)

  abbrev evaluate_all : Bool → List (Candidate D) → Option (List (CommitteeResult D))
  evaluate_all enable_rebuttal [] = some []
  evaluate_all enable_rebuttal (c ∷ cs) = elim (evaluate_candidate enable_rebuttal c) [
    | none ↦ none
    | some r ↦ elim (evaluate_all enable_rebuttal cs) [ none ↦ none | some rs ↦ some (r ∷ rs) ]
  ]

  unfoldable pub evaluate_candidate_set :
      ℕ → Bool → List (Candidate D) → Option (List (CommitteeResult D))
  evaluate_candidate_set max_candidates enable_rebuttal candidates =
      evaluate_all enable_rebuttal (take max_candidates candidates)
