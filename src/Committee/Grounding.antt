-- ===== src/Committee/Grounding.antt =====
-- What an agent's answer stands on (backend/app/committee/agents/base.py, evidence.py).
use alpha_council.Base.{
  ℕ, String, ◌≡◌, refl, sym, ap, ◌∙◌, true, ◌||◌, [], ◌∷◌, All, all, any, map, str_eq, ◌⊎◌, inl,
  inr, Option, none, some, List, arith, Bool-cases,
}
use alpha_council.Committee.Models.{
  AgentRole, success, AgentOpinion, AgentResult, AgentChallenge, EvidencePacket, EvidenceItem,
}
use alpha_council.Committee.Agents.{
  Backend, answer, analyze, rebut, rebuilt, replied, failed_result, is_grounded, contains,
  opinion_fields, own_fields, popped, analysis, rebuttal,
}

-- Some item of the packet has the id.
abbrev pub IsCited : EvidencePacket → String → Type 0
IsCited evidence id = any (λ item. str_eq item.id id) evidence.evidence ≡ true

contains-map :
    (id : String) (items : List EvidenceItem)
    → contains id (map (λ item. item.id) items) ≡ any (λ item. str_eq item.id id) items
contains-map id [] = refl
contains-map id (item ∷ items) = ap (λ b. str_eq item.id id || b) (contains-map id items)

all-IsCited :
    (evidence : EvidencePacket) (ids : List String)
    → all (λ id. contains id (map (λ item. item.id) evidence.evidence)) ids ≡ true
    → All (IsCited evidence) ids
all-IsCited evidence [] h = tt
all-IsCited evidence (id ∷ ids) h =
    let found : contains id (map (λ item. item.id) evidence.evidence) ≡ true = ground (arith, h) in
    (sym (contains-map id evidence.evidence) ∙ found, all-IsCited evidence ids (ground (arith, h)))

module _ {D : Type 0} where
  -- A result is a failure without an opinion, or a success with one of the first round that cites
  -- only evidence of the packet.
  unfoldable pub IsGrounded : AgentRole → EvidencePacket → AgentResult D → Type 0
  IsGrounded role evidence r =
      (r ≡ failed_result role)
      ⊎ ((o : AgentOpinion D) × (r.opinion ≡ some o)
          × (r.status ≡ success)
          × (r.agent_role ≡ role)
          × (o.round ≡ 1)
          × All (IsCited evidence) o.supporting_evidence_ids
          × All (IsCited evidence) o.contradicting_evidence_ids)

  -- The round of an opinion, if there is one.
  IsOfRound : ℕ → Option (AgentOpinion D) → Type 0
  IsOfRound n none = Unit
  IsOfRound n (some o) = o.round ≡ n

  rebuilt-IsOfRound :
      (keys : List String) (n : ℕ) (o : Option (AgentOpinion D)) → IsOfRound n (rebuilt keys n o)
  unfolding IsOfRound rebuilt
  rebuilt-IsOfRound keys n none = tt
  rebuilt-IsOfRound keys n (some o) = ground arith

  answer-IsGrounded :
      (role : AgentRole) (evidence : EvidencePacket) (o : Option (AgentOpinion D))
      → IsOfRound 1 o
      → IsGrounded role evidence (answer role evidence o)
  unfolding IsOfRound IsGrounded answer
  answer-IsGrounded role evidence none h = inl refl
  answer-IsGrounded role evidence (some o) h = elim (Bool-cases (is_grounded evidence o)) [
    | inl grounded ↦ rw grounded (
        inr (
          o,
          refl,
          refl,
          refl,
          h,
          all-IsCited evidence o.supporting_evidence_ids (ground (arith, grounded)),
          all-IsCited evidence o.contradicting_evidence_ids (ground (arith, grounded)),
        ))
    | inr cited ↦ rw cited (inl refl)
  ]

module _ {V D : Type 0} (b : Backend V D) where
  -- Whatever the model replies, a first analysis is a failure without an opinion, or a success
  -- under the agent's own role with an opinion of round 1, of whose cited ids, supporting and
  -- contradicting, each is the id of an item of the packet.
  pub analyze-IsGrounded :
      (role : AgentRole) (evidence : EvidencePacket)
      → IsGrounded role evidence (analyze b role evidence)
  unfolding analyze
  analyze-IsGrounded role evidence =
      let o = replied b role (analysis evidence) in
      let keys = popped own_fields opinion_fields in
      answer-IsGrounded role evidence (rebuilt keys 1 o) (rebuilt-IsOfRound keys 1 o)

  rebuilt-fails : (o : Option (AgentOpinion D)) → rebuilt opinion_fields 2 o ≡ none
  unfolding rebuilt
  rebuilt-fails none = refl
  rebuilt-fails (some o) = refl

  -- Whatever the model replies to a challenge, the rebuttal is a failure without an opinion.
  pub rebut-failed_result :
      (role : AgentRole) (evidence : EvidencePacket) (challenge : AgentChallenge)
      (prior : AgentOpinion D)
      → rebut b role evidence challenge prior ≡ failed_result role
  unfolding rebut answer
  rebut-failed_result role evidence challenge prior =
      rw (rebuilt-fails (replied b role (rebuttal evidence challenge prior))) refl
