-- ===== src/Committee/Verdicts.antt =====
-- The committee's result on a candidate (backend/app/committee/service.py).
use alpha_council.Base.{
  ℕ, String, ◌≡◌, refl, ap, Bool, true, false, ◌&&◌, Option, none, some, List, All, is_some, arith,
}
use alpha_council.Base.Dict.{string_key}
use alpha_council.Decimal.{Decimal}
use alpha_council.Decimal.Laws.{IsDecimal}
use alpha_council.Discovery.Models.{Candidate}
use alpha_council.Committee.Models.{
  AgentOpinion, AgentResult, DisagreementReport, DisagreementSeverity, CommitteeDecisionModel,
  CommitteeResult,
}
use alpha_council.Committee.Evidence.{Format, build_evidence_packet}
use alpha_council.Committee.Agents.{Backend}
use alpha_council.Committee.Disagreement.{detect_disagreement}
use alpha_council.Committee.Aggregation.{Float, AggregationResult, aggregate, default_weights}
use alpha_council.Committee.Ranges.{IsInRange, IsSureResult, aggregate-IsInRange}
use alpha_council.Committee.Rounds.{final_round-initial}
use alpha_council.Committee.Service.{
  successful_opinions, run_independent_round, agent_results, decision_model, completed, concluded,
  after_rebuttal, llm_calls, evaluate_candidate,
}
use alpha_council.Committee.Firsts.{
  IsValidating, successful_opinions-IsFirst, IsInitial-of_first, agent_results-sure,
  independent_round-first,
}

-- The result without the count of calls of the model.
abbrev pub uncounted : {D : Type 0} → Option (CommitteeResult D) → Option (CommitteeResult D)
uncounted none = none
uncounted (some r) = some (record r { total_llm_calls = 0 })

module _ {D : Type 0} ⦃d : Decimal D⦄ where
  decision_model-IsInRange :
      (symbol : String) (severity : DisagreementSeverity) (r : AggregationResult D)
      → IsInRange r
      → is_some (decision_model symbol severity r) ≡ true
  unfolding decision_model IsInRange
  decision_model-IsInRange symbol severity r ((a, b), (c, e)) = ground arith

module _ {V F D : Type 0} ⦃f : Float F⦄ ⦃d : Decimal D⦄ (exact : F → D) (fmt : Format D)
    (b : Backend V D) (laws : IsDecimal D) (valid : IsValidating b) where
  completed-total :
      (c : Candidate D) (rs : List (AgentResult D)) (report : DisagreementReport) (calls : ℕ)
      (os : List (AgentOpinion D)) (decision : Option (CommitteeDecisionModel D))
      → is_some decision ≡ true
      → is_some (completed exact fmt b c rs report calls os decision) ≡ true
  completed-total c rs report calls os none h = ground arith
  completed-total c rs report calls os (some decision) h = refl

  concluded-total :
      (c : Candidate D) (rs : List (AgentResult D)) (report : DisagreementReport) (calls : ℕ)
      (os : List (AgentOpinion D))
      → All IsSureResult (agent_results os rs)
      → is_some (concluded exact fmt b c rs report calls os) ≡ true
  unfolding concluded
  concluded-total c rs report calls os sure =
      let final = some (detect_disagreement os).severity in
      let r = aggregate exact default_weights (agent_results os rs) final in
      completed-total c rs report calls os (decision_model c.symbol report.severity r) (
        decision_model-IsInRange c.symbol report.severity r
          (aggregate-IsInRange exact laws default_weights (agent_results os rs) final sure))

  completed-uncounted :
      (c : Candidate D) (rs : List (AgentResult D)) (report : DisagreementReport) (m n : ℕ)
      (os : List (AgentOpinion D)) (decision : Option (CommitteeDecisionModel D))
      → uncounted (completed exact fmt b c rs report m os decision)
        ≡ uncounted (completed exact fmt b c rs report n os decision)
  completed-uncounted c rs report m n os none = refl
  completed-uncounted c rs report m n os (some decision) = refl

  concluded-uncounted :
      (c : Candidate D) (rs : List (AgentResult D)) (report : DisagreementReport) (m n : ℕ)
      (os : List (AgentOpinion D))
      → uncounted (concluded exact fmt b c rs report m os)
        ≡ uncounted (concluded exact fmt b c rs report n os)
  unfolding concluded
  concluded-uncounted c rs report m n os =
      let final = some (detect_disagreement os).severity in
      let r = aggregate exact default_weights (agent_results os rs) final in
      completed-uncounted c rs report m n os (decision_model c.symbol report.severity r)

  -- Both rounds end with the opinions of the first.
  evaluate_candidate-concluded :
      (enable_rebuttal : Bool) (c : Candidate D)
      → evaluate_candidate exact fmt b enable_rebuttal c ≡ (
          let rs = run_independent_round b (build_evidence_packet fmt c) in
          let os = successful_opinions rs in
          let report = detect_disagreement os in
          concluded exact fmt b c rs report
            (llm_calls exact fmt b (enable_rebuttal && report.challenge_required) rs)
            os)
  unfolding evaluate_candidate
  evaluate_candidate-concluded enable_rebuttal c =
      let evidence = build_evidence_packet fmt c in
      let rs = run_independent_round b evidence in
      let os = successful_opinions rs in
      let report = detect_disagreement os in
      let first =
        IsInitial-of_first os
          (successful_opinions-IsFirst rs (independent_round-first b valid evidence)) in
      ap
        (after_rebuttal exact fmt b c rs report
          (llm_calls exact fmt b (enable_rebuttal && report.challenge_required) rs))
        (final_round-initial b enable_rebuttal evidence os report first)

  -- If pydantic validates the confidences, the committee's evaluation of a candidate raises no
  -- exception, whatever the model replies, with the rebuttal round or without it.
  pub evaluate_candidate_total :
      (enable_rebuttal : Bool) (c : Candidate D)
      → is_some (evaluate_candidate exact fmt b enable_rebuttal c) ≡ true
  evaluate_candidate_total enable_rebuttal c =
      let rs = run_independent_round b (build_evidence_packet fmt c) in
      let os = successful_opinions rs in
      let report = detect_disagreement os in
      let first = independent_round-first b valid (build_evidence_packet fmt c) in
      rw (evaluate_candidate-concluded enable_rebuttal c) (
        concluded-total c rs report
          (llm_calls exact fmt b (enable_rebuttal && report.challenge_required) rs) os
          (agent_results-sure os rs (successful_opinions-IsFirst rs first) first))

  -- If pydantic validates the confidences, the rebuttal round changes nothing but the count of
  -- calls: with it and without it the evaluation of a candidate has the same result.
  pub rebuttal_changes_nothing :
      (c : Candidate D)
      → uncounted (evaluate_candidate exact fmt b true c)
        ≡ uncounted (evaluate_candidate exact fmt b false c)
  rebuttal_changes_nothing c =
      let rs = run_independent_round b (build_evidence_packet fmt c) in
      let os = successful_opinions rs in
      let report = detect_disagreement os in
      rw (evaluate_candidate-concluded true c, evaluate_candidate-concluded false c)
        (concluded-uncounted c rs report
          (llm_calls exact fmt b (true && report.challenge_required) rs)
          (llm_calls exact fmt b (false && report.challenge_required) rs) os)
