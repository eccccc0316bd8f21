-- ===== src/Committee/Challenges.antt =====
-- Whom the challenges are aimed at (backend/app/committee/disagreement.py).
use alpha_council.Base.{
  ◌≡◌, refl, true, false, Option, none, some, List, [], ◌∷◌, ◌++◌, All, length, select, Bool-cases,
  inl, inr, ◌⊎◌, ltb, arith,
}
use alpha_council.Committee.Models.{
  AgentOpinion, AgentChallenge, DisagreementReport, is_abstain, is_bullish, is_bearish,
}
use alpha_council.Committee.Disagreement.{
  roles, create_challenge, challenge_side, both_sides, generate_challenges, is_high,
}

-- The challenges were put together without an exception, and the predicate holds of each.
abbrev pub AllOf : (AgentChallenge → Type 0) → Option (List AgentChallenge) → Type 0
AllOf P none = true ≡ false
AllOf P (some cs) = All P cs

weaken :
    (P Q : AgentChallenge → Type 0) (f : (c : AgentChallenge) → P c → Q c)
    (cs : List AgentChallenge)
    → All P cs
    → All Q cs
weaken P Q f [] h = tt
weaken P Q f (c ∷ cs) (h, rest) = (f c h, weaken P Q f cs rest)

weaken_all :
    (P Q : AgentChallenge → Type 0) (f : (c : AgentChallenge) → P c → Q c)
    (cs : Option (List AgentChallenge))
    → AllOf P cs
    → AllOf Q cs
weaken_all P Q f none h = h
weaken_all P Q f (some cs) h = weaken P Q f cs h

append-All :
    (P : AgentChallenge → Type 0) (cs ds : List AgentChallenge)
    → All P cs
    → All P ds
    → All P (cs ++ ds)
append-All P [] ds h k = k
append-All P (c ∷ cs) ds (h, rest) k = (h, append-All P cs ds rest k)

both_sides-AllOf :
    (P : AgentChallenge → Type 0) (cs ds : Option (List AgentChallenge))
    → AllOf P cs
    → AllOf P ds
    → AllOf P (both_sides cs ds)
both_sides-AllOf P none ds h k = h
both_sides-AllOf P (some cs) none h k = k
both_sides-AllOf P (some cs) (some ds) h k = append-All P cs ds h k

first-AllOf :
    (P : AgentChallenge → Type 0) (c : AgentChallenge) (rest : Option (List AgentChallenge))
    → P c
    → AllOf P rest
    → AllOf P (elim rest [ none ↦ none | some cs ↦ some (c ∷ cs) ])
first-AllOf P c none h k = k
first-AllOf P c (some cs) h k = (h, k)

module _ {D : Type 0} where
  -- The opinion is in the list.
  abbrev pub IsAmong : AgentOpinion D → List (AgentOpinion D) → Type 0
  IsAmong o [] = true ≡ false
  IsAmong o (x ∷ os) = (o ≡ x) ⊎ IsAmong o os

  -- The challenge is put by all the opinions of the second list to the agent of one of the first,
  -- on that agent's stance and evidence.
  abbrev pub IsFrom : List (AgentOpinion D) → List (AgentOpinion D) → AgentChallenge → Type 0
  IsFrom targets opposing c =
      (o : AgentOpinion D) × IsAmong o targets
      × (c.target_agent ≡ o.agent_role)
      × (c.challenge_summary.challenged_stance ≡ o.stance)
      × (c.challenged_evidence_ids ≡ o.supporting_evidence_ids)
      × (c.source_agents ≡ roles opposing)

  abbrev pub bullish_of : List (AgentOpinion D) → List (AgentOpinion D)
  bullish_of opinions = select (λ o. is_bullish o.stance) opinions

  abbrev pub bearish_of : List (AgentOpinion D) → List (AgentOpinion D)
  bearish_of opinions = select (λ o. is_bearish o.stance) opinions

  -- A bullish agent is challenged by all the bearish ones, or a bearish by all the bullish.
  unfoldable pub IsAimed : List (AgentOpinion D) → AgentChallenge → Type 0
  IsAimed opinions c =
      IsFrom (bullish_of opinions) (bearish_of opinions) c
      ⊎ IsFrom (bearish_of opinions) (bullish_of opinions) c

  behind :
      (target : AgentOpinion D) (targets opposing : List (AgentOpinion D)) (c : AgentChallenge)
      → IsFrom targets opposing c
      → IsFrom (target ∷ targets) opposing c
  behind target targets opposing c (o, among, named, stance, evidence, sources) =
      (o, inr among, named, stance, evidence, sources)

  challenge_side-IsFrom :
      (targets : List (AgentOpinion D)) (o : AgentOpinion D) (os : List (AgentOpinion D))
      → AllOf (IsFrom targets (o ∷ os)) (challenge_side targets (o ∷ os))
  unfolding challenge_side create_challenge
  challenge_side-IsFrom [] o os = tt
  challenge_side-IsFrom (target ∷ targets) o os =
      let rest =
        weaken_all (IsFrom targets (o ∷ os)) (IsFrom (target ∷ targets) (o ∷ os))
          (behind target targets (o ∷ os)) (challenge_side targets (o ∷ os))
          (challenge_side-IsFrom targets o os) in
      elim (Bool-cases (is_abstain target.stance)) [
        | inl silent ↦ rw silent rest
        | inr vocal ↦ rw vocal (
            first-AllOf (IsFrom (target ∷ targets) (o ∷ os)) _ (challenge_side targets (o ∷ os))
              (target, inl refl, refl, refl, refl, refl) rest)
      ]

  -- The challenges of one side of the opinions, where the other side has someone.
  side_challenges :
      (targets opposing : List (AgentOpinion D))
      → ltb (length opposing) (length targets) ≡ false
      → AllOf (IsFrom targets opposing) (challenge_side targets opposing)
  unfolding challenge_side
  side_challenges [] opposing less = tt
  side_challenges (target ∷ targets) [] less = ground arith
  side_challenges (target ∷ targets) (o ∷ os) less = challenge_side-IsFrom (target ∷ targets) o os

  on_bulls :
      (opinions : List (AgentOpinion D))
      → ltb (length (bearish_of opinions)) (length (bullish_of opinions)) ≡ false
      → AllOf (IsAimed opinions) (challenge_side (bullish_of opinions) (bearish_of opinions))
  unfolding IsAimed
  on_bulls opinions less =
      weaken_all (IsFrom (bullish_of opinions) (bearish_of opinions)) (IsAimed opinions)
        (λ c h. inl h) (challenge_side (bullish_of opinions) (bearish_of opinions))
        (side_challenges (bullish_of opinions) (bearish_of opinions) less)

  on_bears :
      (opinions : List (AgentOpinion D))
      → ltb (length (bullish_of opinions)) (length (bearish_of opinions)) ≡ false
      → AllOf (IsAimed opinions) (challenge_side (bearish_of opinions) (bullish_of opinions))
  unfolding IsAimed
  on_bears opinions less =
      weaken_all (IsFrom (bearish_of opinions) (bullish_of opinions)) (IsAimed opinions)
        (λ c h. inr h) (challenge_side (bearish_of opinions) (bullish_of opinions))
        (side_challenges (bearish_of opinions) (bullish_of opinions) less)

  -- For any opinions and any report the challenges are put together without an exception, each to
  -- the agent of a bullish opinion by all the bearish agents, or to the agent of a bearish opinion by
  -- all the bullish ones, and each on the stance and the supporting evidence of that opinion.
  pub generate_challenges-IsAimed :
      (opinions : List (AgentOpinion D)) (report : DisagreementReport)
      → AllOf (IsAimed opinions) (generate_challenges opinions report)
  unfolding generate_challenges
  generate_challenges-IsAimed opinions report =
      let bullish = bullish_of opinions in
      let bearish = bearish_of opinions in
      elim (Bool-cases report.challenge_required) [
        | inr idle ↦ rw idle tt
        | inl needed ↦ elim (Bool-cases (ltb (length bearish) (length bullish))) [
          | inl bulls_lead ↦ rw (needed, bulls_lead) (on_bears opinions (ground arith))
          | inr bulls_low ↦ elim (Bool-cases (ltb (length bullish) (length bearish))) [
            | inl bears_lead ↦ rw (needed, bulls_low, bears_lead) (on_bulls opinions (ground arith))
            | inr bears_low ↦ elim (Bool-cases (is_high report.severity)) [
              | inl severe ↦
                  rw (needed, bulls_low, bears_low, severe)
                    (both_sides-AllOf (IsAimed opinions) (challenge_side bullish bearish)
                      (challenge_side bearish bullish) (on_bulls opinions bulls_low)
                      (on_bears opinions bears_low))
              | inr mild ↦ rw (needed, bulls_low, bears_low, mild) tt
            ]
          ]
        ]
      ]
