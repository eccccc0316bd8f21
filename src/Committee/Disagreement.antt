-- ===== src/Committee/Disagreement.antt =====
-- Disagreement among the opinions and the challenges it leads to
-- (backend/app/committee/disagreement.py). An exception is `none`.
use alpha_council.Base.{
  Bool, true, false, not, Option, none, some, List, [], ◌∷◌, ◌++◌, map, length, select, take,
  if◌then◌else◌, ltb, leb, ◌+◌,
}
use alpha_council.Base.Int.{ℤ, pos, leb_ℤ, max_ℤ, min_ℤ, sub_ℤ}
use alpha_council.Base.Dict.{string_key, Entry, put}
use alpha_council.Committee.Models.{
  AgentRole, role_key, AgentStance, is_abstain, is_bullish, is_bearish, stance_value_of,
  AgentOpinion, AgentChallenge, DisagreementReport, DisagreementSeverity, no_disagreement, low,
  medium, high,
}

abbrev pub no_dissent : DisagreementReport
no_dissent = record {
  severity = no_disagreement;
  stance_spread = pos 0;
  conflicting_agents = [];
  conflicting_evidence_ids = [];
  challenge_required = false;
  bullish_agents = [];
  bearish_agents = [];
  neutral_agents = [];
  abstaining_agents = [];
}

-- What the loop over the opinions collects.
pub record Tally : Type 0 where
  pub stance_values : List ℤ
  pub bullish_agents : List AgentRole
  pub bearish_agents : List AgentRole
  pub neutral_agents : List AgentRole

unfoldable pub classify_severity :
    ℤ → List AgentRole → List AgentRole → List AgentRole → DisagreementSeverity
classify_severity stance_spread bullish bearish neutral =
    let total_directional = length bullish + length bearish in
    if leb_ℤ (pos 4) stance_spread
    then high
    else (if leb_ℤ (pos 3) stance_spread
        then high
        else (if leb_ℤ (pos 2) stance_spread
            then (if leb 3 total_directional then medium else low)
            else (if leb_ℤ (pos 1) stance_spread
                then (if leb 3 total_directional then low else no_disagreement)
                else no_disagreement)))

-- severity in (MEDIUM, HIGH)
abbrev pub is_severe : DisagreementSeverity → Bool
is_severe medium = true
is_severe high = true
is_severe _ = false

abbrev pub is_high : DisagreementSeverity → Bool
is_high high = true
is_high _ = false

-- max(values) and min(values) of the list v ∷ values
abbrev pub maximum : ℤ → List ℤ → ℤ
maximum v [] = v
maximum v (w ∷ values) = maximum (max_ℤ v w) values

abbrev pub minimum : ℤ → List ℤ → ℤ
minimum v [] = v
minimum v (w ∷ values) = minimum (min_ℤ v w) values

abbrev pub conflicting : List AgentRole → List AgentRole → List AgentRole
conflicting [] bearish = []
conflicting bullish [] = []
conflicting bullish bearish = bullish ++ bearish

abbrev pub both_sides :
    Option (List AgentChallenge) → Option (List AgentChallenge) → Option (List AgentChallenge)
both_sides none second = none
both_sides (some cs) none = none
both_sides (some cs) (some ds) = some (cs ++ ds)

module _ {D : Type 0} where
  abbrev pub roles : List (AgentOpinion D) → List AgentRole
  roles os = map (λ o. o.agent_role) os

  abbrev count_opinion : AgentOpinion D → Tally → Tally
  count_opinion o t = elim (stance_value_of o.stance) [
    | none ↦ t
    | some val ↦
        let counted = record t { stance_values = val ∷ t.stance_values } in
        if is_bullish o.stance
        then record counted { bullish_agents = o.agent_role ∷ t.bullish_agents }
        else (if is_bearish o.stance
            then record counted { bearish_agents = o.agent_role ∷ t.bearish_agents }
            else record counted { neutral_agents = o.agent_role ∷ t.neutral_agents })
  ]

  unfoldable pub tally : List (AgentOpinion D) → Tally
  tally [] = record {
    stance_values = [];
    bullish_agents = [];
    bearish_agents = [];
    neutral_agents = [];
  }
  tally (o ∷ os) = count_opinion o (tally os)

  -- the report on the values of the stances, of which there may be none
  unfoldable pub report_values : List (AgentOpinion D) → Tally → List ℤ → DisagreementReport
  report_values opinions t [] = no_dissent
  report_values opinions t (v ∷ values) =
      let stance_spread = sub_ℤ (maximum v values) (minimum v values) in
      let severity =
        classify_severity stance_spread t.bullish_agents t.bearish_agents t.neutral_agents in
      record {
        severity = severity;
        stance_spread = stance_spread;
        conflicting_agents = conflicting t.bullish_agents t.bearish_agents;
        conflicting_evidence_ids = [];
        challenge_required = is_severe severity;
        bullish_agents = t.bullish_agents;
        bearish_agents = t.bearish_agents;
        neutral_agents = t.neutral_agents;
        abstaining_agents = roles (select (λ o. is_abstain o.stance) opinions);
      }

  -- the report on the opinions that do not abstain, of which there may be none
  unfoldable pub report_on : List (AgentOpinion D) → List (AgentOpinion D) → DisagreementReport
  report_on opinions [] = record no_dissent { abstaining_agents = roles opinions }
  report_on opinions (o ∷ os) = let t = tally (o ∷ os) in report_values opinions t t.stance_values

  unfoldable pub detect_disagreement : List (AgentOpinion D) → DisagreementReport
  detect_disagreement opinions =
      report_on opinions (select (λ o. not (is_abstain o.stance)) opinions)

  abbrev stances_of :
      List (AgentOpinion D)
      → List (Entry AgentRole AgentStance)
      → List (Entry AgentRole AgentStance)
  stances_of [] stances = stances
  stances_of (o ∷ os) stances = stances_of os (put o.agent_role o.stance stances)

  -- `opposing_opinions[0]` raises an IndexError on an empty list.
  unfoldable pub create_challenge :
      List AgentRole → AgentOpinion D → List (AgentOpinion D) → Option AgentChallenge
  create_challenge sources target [] = none
  create_challenge sources target (o ∷ os) = some record {
    target_agent = target.agent_role;
    source_agents = sources;
    symbol = target.symbol;
    opposing_stances = stances_of (o ∷ os) [];
    challenged_evidence_ids = target.supporting_evidence_ids;
    challenge_summary = record {
      challengers = sources;
      challenged_stance = target.stance;
      opposing_theses = map (λ p. record { key = p.agent_role; value = p.thesis }) (o ∷ os);
      key_evidence_ids = take 3 o.supporting_evidence_ids;
    };
    round = 2;
  }

  -- the loop over the opinions of one side
  unfoldable pub challenge_side :
      List (AgentOpinion D) → List (AgentOpinion D) → Option (List AgentChallenge)
  challenge_side [] opposing = some []
  challenge_side (target ∷ targets) opposing =
      let rest = challenge_side targets opposing in
      if is_abstain target.stance
      then rest
      else (elim (create_challenge (roles opposing) target opposing) [
        | none ↦ none
        | some c ↦ elim rest [ none ↦ none | some cs ↦ some (c ∷ cs) ]
      ])

  unfoldable pub generate_challenges :
      List (AgentOpinion D) → DisagreementReport → Option (List AgentChallenge)
  generate_challenges opinions disagreement =
      let bullish = select (λ o. is_bullish o.stance) opinions in
      let bearish = select (λ o. is_bearish o.stance) opinions in
      if not disagreement.challenge_required
      then some []
      else (if ltb (length bearish) (length bullish)
          then challenge_side bearish bullish
          else (if ltb (length bullish) (length bearish)
              then challenge_side bullish bearish
              else (if is_high disagreement.severity
                  then both_sides (challenge_side bullish bearish) (challenge_side bearish bullish)
                  else some [])))
