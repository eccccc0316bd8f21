-- ===== src/Committee/Firsts.antt =====
-- What the agents' first answers are known to be (backend/app/committee/agents/base.py, service.py).
use alpha_council.Base.{
  String, ◌≡◌, not, inl, inr, Option, none, some, List, [], ◌∷◌, All, select, arith, Option-cases,
}
use alpha_council.Base.Dict.{string_key, Entry}
use alpha_council.Decimal.{Decimal}
use alpha_council.Alpaca.{Outcome, answered, raised}
use alpha_council.Committee.Models.{
  AgentRole, quant, bull, bear, regime, AgentOpinion, AgentResult, EvidencePacket,
}
use alpha_council.Committee.Agents.{
  Backend, analysis, answer, analyze, rebuilt, replied, opinion_from, parse_reply, parse_opinion,
  failed_result, popped, own_fields, opinion_fields, unfenced,
}
use alpha_council.Committee.Aggregation.{has_opinion}
use alpha_council.Committee.Scores.{IsFraction}
use alpha_council.Committee.Ranges.{IsSureResult}
use alpha_council.Committee.Rounds.{IsInitial}
use alpha_council.Committee.Service.{successful_opinions, run_independent_round, agent_results}

module _ {V D : Type 0} ⦃d : Decimal D⦄ (b : Backend V D) where
  -- pydantic raises a ValidationError for a confidence outside of 0 to 1.
  abbrev pub IsValidating : Type 0
  IsValidating =
      (fields : List (Entry String V)) (o : AgentOpinion D)
      → b.validated fields ≡ some o
      → IsFraction o.confidence

module _ {D : Type 0} ⦃d : Decimal D⦄ where
  abbrev pub IsFirst : AgentOpinion D → Type 0
  IsFirst o = IsInitial o × IsFraction o.confidence

  abbrev pub IsFirstOption : Option (AgentOpinion D) → Type 0
  IsFirstOption none = Unit
  IsFirstOption (some o) = IsFirst o

  abbrev IsSureOption : Option (AgentOpinion D) → Type 0
  IsSureOption none = Unit
  IsSureOption (some o) = IsFraction o.confidence

  abbrev pub IsFirstResult : AgentResult D → Type 0
  IsFirstResult r = IsFirstOption r.opinion

  rebuilt-first :
      (keys : List String) (o : Option (AgentOpinion D))
      → IsSureOption o
      → IsFirstOption (rebuilt keys 1 o)
  unfolding rebuilt
  rebuilt-first keys none h = tt
  rebuilt-first keys (some o) h = ground arith

  answer-first :
      (role : AgentRole) (evidence : EvidencePacket) (o : Option (AgentOpinion D))
      → IsFirstOption o
      → IsFirstResult (answer role evidence o)
  unfolding answer failed_result
  answer-first role evidence none h = tt
  answer-first role evidence (some o) h = ground arith

  pub successful_opinions-IsFirst :
      (rs : List (AgentResult D)) → All IsFirstResult rs → All IsFirst (successful_opinions rs)
  unfolding successful_opinions
  successful_opinions-IsFirst [] h = tt
  successful_opinions-IsFirst (r ∷ rs) (h, rest) =
      ground (arith, successful_opinions-IsFirst rs rest)

  pub IsInitial-of_first : (os : List (AgentOpinion D)) → All IsFirst os → All IsInitial os
  IsInitial-of_first [] h = tt
  IsInitial-of_first (o ∷ os) (h, rest) = (h.0, IsInitial-of_first os rest)

  select-sure :
      (rs : List (AgentResult D))
      → All IsFirstResult rs
      → All IsSureResult (select (λ r. not (has_opinion r)) rs)
  unfolding select
  select-sure [] h = tt
  select-sure (r ∷ rs) (h, rest) = ground (arith, select-sure rs rest)

  pub agent_results-sure :
      (os : List (AgentOpinion D)) (rs : List (AgentResult D))
      → All IsFirst os
      → All IsFirstResult rs
      → All IsSureResult (agent_results os rs)
  unfolding agent_results
  agent_results-sure [] rs h k = select-sure rs k
  agent_results-sure (o ∷ os) rs (h, rest) k = (h.1, agent_results-sure os rs rest k)

module _ {V D : Type 0} ⦃d : Decimal D⦄ (b : Backend V D) (valid : IsValidating b) where
  validated-sure : (fields : List (Entry String V)) → IsSureOption (b.validated fields)
  validated-sure fields = elim (Option-cases (b.validated fields)) [
    | inl e ↦ rw e tt
    | inr (o, e) ↦ rw e (valid fields o e)
  ]

  opinion_from-sure :
      (role : AgentRole) (fields : Option (List (Entry String V)))
      → IsSureOption (opinion_from b role fields)
  unfolding opinion_from
  opinion_from-sure role none = tt
  opinion_from-sure role (some fields) = ground (arith, validated-sure fields)

  parse_reply-sure : (role : AgentRole) (o : Outcome String) → IsSureOption (parse_reply b role o)
  unfolding parse_opinion
  parse_reply-sure role raised = tt
  parse_reply-sure role (answered raw) = opinion_from-sure role (b.loads (unfenced (b.strip raw)))

  analyze-first :
      (role : AgentRole) (evidence : EvidencePacket) → IsFirstResult (analyze b role evidence)
  unfolding analyze replied
  analyze-first role evidence =
      let o = parse_reply b role (b.call_llm role (analysis evidence)) in
      let keys = popped own_fields opinion_fields in
      answer-first role evidence (rebuilt keys 1 o)
        (rebuilt-first keys o (parse_reply-sure role (b.call_llm role (analysis evidence))))

  pub independent_round-first :
      (evidence : EvidencePacket) → All IsFirstResult (run_independent_round b evidence)
  unfolding run_independent_round
  independent_round-first evidence = (
    analyze-first quant evidence,
    (
      analyze-first bull evidence,
      (analyze-first bear evidence, (analyze-first regime evidence, tt)),
    ),
  )
