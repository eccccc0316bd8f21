-- ===== src/Committee/Rebuttal.antt =====
-- The round of rebuttals (backend/app/committee/disagreement.py). The agents of a round are a
-- dictionary of what they answer to a challenge.
use alpha_council.Base.{String, ◌||◌, Option, none, some, List, [], ◌∷◌, map, if◌then◌else◌}
use alpha_council.Base.Dict.{string_key, Entry, get, put}
use alpha_council.Committee.Models.{
  AgentRole, role_text, role_key, AgentOpinion, AgentResult, is_success, is_abstained,
  AgentChallenge, EvidencePacket,
}

-- `agent.rebut` of an agent
abbrev pub Rebut : Type 0 → Type 0
Rebut D = EvidencePacket → AgentChallenge → AgentOpinion D → AgentResult D

-- updated_opinions
abbrev pub Opinions : Type 0 → Type 0
Opinions D = List (Entry AgentRole (AgentOpinion D))

module _ {D : Type 0} where
  abbrev pub initial_map : List (AgentOpinion D) → Opinions D → Opinions D
  initial_map [] updated = updated
  initial_map (o ∷ os) updated = initial_map os (put o.agent_role o updated)

  abbrev rebutted : AgentResult D → AgentRole → Opinions D → Opinions D
  rebutted result target updated = elim result.opinion [
    | none ↦ updated
    | some o ↦
        if is_success result.status || is_abstained result.status
        then put target o updated
        else updated
  ]

  -- the agent, if there is one, answers with its prior opinion at hand, if there is one
  abbrev pub answered_by :
      Option (Rebut D)
      → Option (AgentOpinion D)
      → EvidencePacket
      → AgentChallenge
      → Opinions D
      → Opinions D
  answered_by none prior evidence c updated = updated
  answered_by (some rebut) none evidence c updated = updated
  answered_by (some rebut) (some prior) evidence c updated =
      rebutted (rebut evidence c prior) c.target_agent updated

  unfoldable pub answer_challenge :
      List (Entry String (Rebut D)) → EvidencePacket → AgentChallenge → Opinions D → Opinions D
  answer_challenge agents evidence c updated =
      answered_by (get (role_text c.target_agent) agents) (get c.target_agent updated) evidence c
        updated

  abbrev pub answer_all :
      List (Entry String (Rebut D)) → EvidencePacket → List AgentChallenge → Opinions D → Opinions D
  answer_all agents evidence [] updated = updated
  answer_all agents evidence (c ∷ cs) updated =
      answer_all agents evidence cs (answer_challenge agents evidence c updated)

  unfoldable pub run_rebuttal_round :
      List (Entry String (Rebut D))
      → EvidencePacket
      → List AgentChallenge
      → List (AgentOpinion D)
      → List (AgentOpinion D)
  run_rebuttal_round agents evidence challenges initial_opinions =
      map (λ e. e.value) (answer_all agents evidence challenges (initial_map initial_opinions []))
