-- ===== src/Committee/Models.antt =====
-- What the committee's agents, its chair and the risk layer hand to each other
-- (backend/app/committee/models.py). Texts for people, models, latencies and time stamps are left
-- out. `no_disagreement` is the severity NONE.
use alpha_council.Base.{
  ℕ, ◌≡◌, refl, String, Bool, true, false, Option, none, some, List, ◌==◌, ◌||◌, find, select,
  str_eq, arith,
}
use alpha_council.Base.Int.{ℤ, pos, negsuc}
use alpha_council.Base.Dict.{Entry, Key}
use alpha_council.Market.{SignalDirection}

pub data AgentRole : Type 0 where
  quant bull bear regime : AgentRole

pub data AgentStance : Type 0 where
  strong_long long neutral short strong_short abstain : AgentStance

pub data DisagreementSeverity : Type 0 where
  no_disagreement low medium high : DisagreementSeverity

pub data CommitteeDecision : Type 0 where
  propose_long propose_short no_trade : CommitteeDecision

pub data NoTradeReason : Type 0 where
  low_conviction high_disagreement insufficient_analysis : NoTradeReason
  poor_data_quality mixed_evidence no_directional_edge : NoTradeReason

pub data EvidenceCategory : Type 0 where
  price returns momentum trend volatility : EvidenceCategory
  volume liquidity technical data_quality discovery : EvidenceCategory

pub data EvidenceSource : Type 0 where
  m1_feature m2_discovery market_snapshot : EvidenceSource

pub data AgentStatus : Type 0 where
  success failed abstained : AgentStatus

abbrev pub role_text : AgentRole → String
role_text quant = "QUANT"
role_text bull = "BULL"
role_text bear = "BEAR"
role_text regime = "REGIME"

abbrev role_number : AgentRole → ℕ
role_number quant = 0
role_number bull = 1
role_number bear = 2
role_number regime = 3

unfoldable pub same_role : AgentRole → AgentRole → Bool
same_role a b = role_number a == role_number b

pub same_role_refl : (a : AgentRole) → same_role a a ≡ true
unfolding same_role
same_role_refl quant = refl
same_role_refl bull = refl
same_role_refl bear = refl
same_role_refl regime = refl

pub same_role_eq : (a b : AgentRole) → same_role a b ≡ true → a ≡ b
unfolding same_role
same_role_eq a b h = ground arith

instance abbrev pub role_key : Key AgentRole
role_key = record { same = same_role; same_refl = same_role_refl; same_eq = same_role_eq }

-- STANCE_VALUE
abbrev pub stance_value_of : AgentStance → Option ℤ
stance_value_of strong_long = some (pos 2)
stance_value_of long = some (pos 1)
stance_value_of neutral = some (pos 0)
stance_value_of short = some (negsuc 0)
stance_value_of strong_short = some (negsuc 1)
stance_value_of abstain = none

abbrev pub is_abstain : AgentStance → Bool
is_abstain abstain = true
is_abstain _ = false

abbrev pub is_bullish : AgentStance → Bool
is_bullish strong_long = true
is_bullish long = true
is_bullish _ = false

abbrev pub is_bearish : AgentStance → Bool
is_bearish strong_short = true
is_bearish short = true
is_bearish _ = false

abbrev pub is_directional : AgentStance → Bool
is_directional s = is_bullish s || is_bearish s

abbrev pub is_success : AgentStatus → Bool
is_success success = true
is_success _ = false

abbrev pub is_abstained : AgentStatus → Bool
is_abstained abstained = true
is_abstained _ = false

pub record EvidenceItem : Type 0 where
  pub id : String
  pub category : EvidenceCategory
  pub label : String
  pub value : String
  pub unit : Option String
  pub source : EvidenceSource

pub record EvidencePacket : Type 0 where
  pub symbol : String
  pub candidate_rank : Option ℕ
  pub discovery_direction : Option String
  pub evidence : List EvidenceItem
  pub data_quality_status : Option String
  pub data_quality_warnings : List String
  pub discovery_reasons : List String

abbrev category_number : EvidenceCategory → ℕ
category_number price = 0
category_number returns = 1
category_number momentum = 2
category_number trend = 3
category_number volatility = 4
category_number volume = 5
category_number liquidity = 6
category_number technical = 7
category_number data_quality = 8
category_number discovery = 9

unfoldable pub get_evidence : EvidencePacket → String → Option EvidenceItem
get_evidence p evidence_id = find (λ item. str_eq item.id evidence_id) p.evidence

unfoldable pub get_evidence_by_category : EvidencePacket → EvidenceCategory → List EvidenceItem
get_evidence_by_category p category =
    select (λ item. category_number item.category == category_number category) p.evidence

pub record AgentOpinion (D : Type 0) : Type 0 where
  pub agent_role : AgentRole
  pub symbol : String
  pub stance : AgentStance
  pub confidence : D
  pub thesis : String
  pub supporting_evidence_ids : List String
  pub contradicting_evidence_ids : List String
  pub key_risks : List String
  pub invalidation_conditions : List String
  pub round : ℕ

-- The text of a challenge, by the parts that it is put together from.
pub record ChallengeSummary : Type 0 where
  pub challengers : List AgentRole
  pub challenged_stance : AgentStance
  pub opposing_theses : List (Entry AgentRole String)
  pub key_evidence_ids : List String

pub record AgentChallenge : Type 0 where
  pub target_agent : AgentRole
  pub source_agents : List AgentRole
  pub symbol : String
  pub opposing_stances : List (Entry AgentRole AgentStance)
  pub challenged_evidence_ids : List String
  pub challenge_summary : ChallengeSummary
  pub round : ℕ

pub record AgentResult (D : Type 0) : Type 0 where
  pub agent_role : AgentRole
  pub status : AgentStatus
  pub opinion : Option (AgentOpinion D)
  pub attempts : ℕ

pub record DisagreementReport : Type 0 where
  pub severity : DisagreementSeverity
  pub stance_spread : ℤ
  pub conflicting_agents : List AgentRole
  pub conflicting_evidence_ids : List String
  pub challenge_required : Bool
  pub bullish_agents : List AgentRole
  pub bearish_agents : List AgentRole
  pub neutral_agents : List AgentRole
  pub abstaining_agents : List AgentRole

pub record CommitteeDecisionModel (D : Type 0) : Type 0 where
  pub symbol : String
  pub decision : CommitteeDecision
  pub direction : Option SignalDirection
  pub committee_score : D
  pub committee_confidence : D
  pub initial_disagreement : DisagreementSeverity
  pub final_disagreement : DisagreementSeverity
  pub participating_agents : List AgentRole
  pub abstained_agents : List AgentRole
  pub failed_agents : List AgentRole
  pub supporting_evidence_ids : List String
  pub contradicting_evidence_ids : List String
  pub unresolved_risks : List String
  pub no_trade_reason : Option NoTradeReason

pub record TradeThesis (D : Type 0) : Type 0 where
  pub symbol : String
  pub proposed_direction : SignalDirection
  pub committee_confidence : D
  pub supporting_evidence_ids : List String
  pub contradicting_evidence_ids : List String
  pub key_risks : List String
  pub invalidation_conditions : List String
  pub candidate_score : D
  pub committee_decision : CommitteeDecisionModel D

pub record CommitteeResult (D : Type 0) : Type 0 where
  pub candidate_symbol : String
  pub evidence_packet : EvidencePacket
  pub initial_opinions : List (AgentOpinion D)
  pub disagreement_report : DisagreementReport
  pub challenges : List AgentChallenge
  pub final_opinions : List (AgentOpinion D)
  pub decision : CommitteeDecisionModel D
  pub trade_thesis : Option (TradeThesis D)
  pub total_llm_calls : ℕ
