-- ===== src/Committee/Agents.antt =====
-- What an agent of the committee answers (backend/app/committee/agents/base.py). Parameters are the
-- call of the language model with its prompts, `str.strip`, `json.loads` and what pydantic makes of
-- the fields; an exception is `none`. Latencies and the texts of errors are left out.
use Prim.Native.Char.{code}
use alpha_council.Base.{
  ℕ, zero, suc, String, Bool, true, false, not, ◌&&◌, Option, none, some, List, [], ◌∷◌, map, all,
  any, select, str_eq, ◌==◌, if◌then◌else◌, is_some,
}
use alpha_council.Base.Dict.{string_key, Entry, get}
use alpha_council.Alpaca.{Outcome, answered, raised}
use alpha_council.Committee.Models.{
  AgentRole, role_text, AgentOpinion, AgentResult, success, failed, AgentChallenge, EvidencePacket,
}

-- What an agent asks the model: its first analysis, or an answer to a challenge.
pub data Request (D : Type 0) : Type 0 where
  analysis : EvidencePacket → Request D
  rebuttal : EvidencePacket → AgentChallenge → AgentOpinion D → Request D

-- Python, pydantic and the model behind an agent; V is the type of JSON's values.
pub record Backend (V D : Type 0) : Type 0 where
  pub call_llm : AgentRole → Request D → Outcome String
  pub strip : String → String
  pub loads : String → Option (List (Entry String V))
  -- a JSON value is the given text
  pub is_text : V → String → Bool
  -- `AgentOpinion(**data)`
  pub validated : List (Entry String V) → Option (AgentOpinion D)

abbrev starts_with : String → String → Bool
starts_with (String.◌∷◌ a p) (String.◌∷◌ b s) = code a == code b && starts_with p s
starts_with (String.◌∷◌ a p) s = false
starts_with p s = true

-- `s[n:]`
abbrev from : ℕ → String → String
from zero s = s
from (suc n) (String.◌∷◌ c s) = from n s
from (suc n) s = s

abbrev remove_prefix : String → ℕ → String → String
remove_prefix p n s = if starts_with p s then from n s else s

-- `s[:-n]`, where s ends with the text of n characters
abbrev remove_suffix : String → String → String
remove_suffix p (String.◌∷◌ c s) =
    let rest = remove_suffix p s in if str_eq (String.◌∷◌ c s) p then "" else String.◌∷◌ c rest
remove_suffix p s = s

unfoldable pub unfenced : String → String
unfenced content = remove_suffix "```" (remove_prefix "```" 3 (remove_prefix "```json" 7 content))

abbrev pub required_fields : List String
required_fields = "agent_role" ∷ "symbol" ∷ "stance" ∷ "confidence" ∷ "thesis" ∷ []

-- the fields of AgentOpinion, which are the keys of its model_dump()
abbrev pub opinion_fields : List String
opinion_fields =
    "agent_role" ∷ "symbol" ∷ "stance" ∷ "confidence" ∷ "thesis" ∷ "supporting_evidence_ids"
    ∷ "contradicting_evidence_ids" ∷ "key_risks" ∷ "invalidation_conditions" ∷ "uncertainties"
    ∷ "abstain_reason" ∷ "round" ∷ "prompt_version" ∷ "model" ∷ "latency_ms" ∷ []

-- the fields that the agent sets itself
abbrev pub own_fields : List String
own_fields = "round" ∷ "prompt_version" ∷ "model" ∷ "latency_ms" ∷ []

abbrev pub contains : String → List String → Bool
contains name names = any (λ n. str_eq n name) names

-- `data.pop(name, None)` of each name
abbrev pub popped : List String → List String → List String
popped names keys = select (λ k. not (contains k names)) keys

module _ {D : Type 0} where
  -- `AgentOpinion(**data, round=..., prompt_version=..., model=..., latency_ms=...)`, of the keys
  -- of data: a keyword that is given twice raises a TypeError.
  unfoldable pub rebuilt : List String → ℕ → Option (AgentOpinion D) → Option (AgentOpinion D)
  rebuilt keys round none = none
  rebuilt keys round (some opinion) =
      if any (λ k. contains k own_fields) keys
      then none
      else some (record opinion { round = round })

  abbrev pub is_grounded : EvidencePacket → AgentOpinion D → Bool
  is_grounded evidence opinion =
      let all_ids = map (λ item. item.id) evidence.evidence in
      all (λ id. contains id all_ids) opinion.supporting_evidence_ids
      && all (λ id. contains id all_ids) opinion.contradicting_evidence_ids

  unfoldable pub failed_result : AgentRole → AgentResult D
  failed_result role = record { agent_role = role; status = failed; opinion = none; attempts = 1 }

  -- The end of both rounds: the grounding of the opinion, unless an exception was raised before.
  unfoldable pub answer : AgentRole → EvidencePacket → Option (AgentOpinion D) → AgentResult D
  answer role evidence none = failed_result role
  answer role evidence (some o) =
      if is_grounded evidence o
      then record { agent_role = role; status = success; opinion = some o; attempts = 1 }
      else failed_result role

module _ {V D : Type 0} (b : Backend V D) where
  abbrev pub has_role : AgentRole → List (Entry String V) → Bool
  has_role role fields = elim (get "agent_role" fields) [
    | none ↦ false
    | some v ↦ b.is_text v (role_text role)
  ]

  -- the opinion in the fields of the reply, if they are JSON
  unfoldable pub opinion_from : AgentRole → Option (List (Entry String V)) → Option (AgentOpinion D)
  opinion_from role none = none
  opinion_from role (some fields) =
      if all (λ name. is_some (get name fields)) required_fields && has_role role fields
      then b.validated fields
      else none

  unfoldable pub parse_opinion : AgentRole → String → Option (AgentOpinion D)
  parse_opinion role raw_response = opinion_from role (b.loads (unfenced (b.strip raw_response)))

  abbrev pub parse_reply : AgentRole → Outcome String → Option (AgentOpinion D)
  parse_reply role raised = none
  parse_reply role (answered raw) = parse_opinion role raw

  unfoldable pub replied : AgentRole → Request D → Option (AgentOpinion D)
  replied role request = parse_reply role (b.call_llm role request)

  unfoldable pub analyze : AgentRole → EvidencePacket → AgentResult D
  analyze role evidence =
      answer role evidence
        (rebuilt (popped own_fields opinion_fields) 1 (replied role (analysis evidence)))

  -- model_dump() without the pops of `analyze`
  unfoldable pub rebut :
      AgentRole → EvidencePacket → AgentChallenge → AgentOpinion D → AgentResult D
  rebut role evidence challenge prior =
      answer role evidence
        (rebuilt opinion_fields 2 (replied role (rebuttal evidence challenge prior)))
