-- ===== src/Committee/Severity.antt =====
-- What a report of disagreement says of the opinions (backend/app/committee/disagreement.py).
use alpha_council.Base.{
  ◌≡◌, ◌∙◌, ◌↔◌, ◌⊎◌, Bool, refl, true, false, not, List, [], ◌∷◌, All, length, select, is_empty,
  List-cases, inl, inr, arith,
}
use alpha_council.Base.Int.{ℤ, pos, negsuc, leb_ℤ, sub_ℤ, max_ℤ, min_ℤ}
use alpha_council.Committee.Models.{
  AgentStance, neutral, DisagreementSeverity, no_disagreement, medium, high, is_bullish, is_bearish,
  AgentRole, AgentOpinion, is_abstain, DisagreementReport,
}
use alpha_council.Committee.Disagreement.{
  roles, Tally, tally, maximum, minimum, classify_severity, is_high, is_severe, report_values,
  report_on, detect_disagreement,
}

abbrev IsWithin : ℤ → ℤ → ℤ → Type 0
IsWithin lo hi z = (leb_ℤ lo z ≡ true) × (leb_ℤ z hi ≡ true)

maximum-le :
    (lo hi v : ℤ) (values : List ℤ)
    → All (IsWithin lo hi) (v ∷ values)
    → leb_ℤ (maximum v values) hi ≡ true
maximum-le lo hi v [] h = h.0.1
maximum-le lo hi v (w ∷ values) (h, (k, rest)) =
    maximum-le lo hi (max_ℤ v w) values (ground arith, rest)

le-minimum :
    (lo hi v : ℤ) (values : List ℤ)
    → All (IsWithin lo hi) (v ∷ values)
    → leb_ℤ lo (minimum v values) ≡ true
le-minimum lo hi v [] h = h.0.0
le-minimum lo hi v (w ∷ values) (h, (k, rest)) =
    le-minimum lo hi (min_ℤ v w) values (ground arith, rest)

-- Values that span at most two steps are no reason for the severity HIGH.
narrow_is_not_high :
    (v : ℤ) (values : List ℤ) (bullish bearish others : List AgentRole)
    → leb_ℤ (pos 3) (sub_ℤ (maximum v values) (minimum v values)) ≡ false
    → is_high
        (classify_severity (sub_ℤ (maximum v values) (minimum v values)) bullish bearish others)
      ≡ false
unfolding classify_severity
narrow_is_not_high v values bullish bearish others h = ground arith

narrow :
    (lo hi v : ℤ) (values : List ℤ)
    → All (IsWithin lo hi) (v ∷ values)
    → leb_ℤ (pos 3) (sub_ℤ hi lo) ≡ false
    → leb_ℤ (pos 3) (sub_ℤ (maximum v values) (minimum v values)) ≡ false
narrow lo hi v values h k = ground (arith, maximum-le lo hi v values h, le-minimum lo hi v values h)

abbrev is_neutral : AgentStance → Bool
is_neutral neutral = true
is_neutral _ = false

-- The severities that demand a challenge.
is_severe_lem : (s : DisagreementSeverity) → (is_severe s ≡ true) ↔ ((s ≡ medium) ⊎ (s ≡ high))
is_severe_lem s = ground arith

module _ {D : Type 0} where
  -- Without a bullish agent no value is positive, and without a bearish one none is negative.
  no_bull :
      (os : List (AgentOpinion D))
      → (tally os).bullish_agents ≡ []
      → All (IsWithin (negsuc 1) (pos 0)) (tally os).stance_values
  unfolding tally
  no_bull [] h = tt
  no_bull (o ∷ os) h = ground (arith, no_bull os)

  no_bear :
      (os : List (AgentOpinion D))
      → (tally os).bearish_agents ≡ []
      → All (IsWithin (pos 0) (pos 2)) (tally os).stance_values
  unfolding tally
  no_bear [] h = tt
  no_bear (o ∷ os) h = ground (arith, no_bear os)

  -- The tally of the opinions that do not abstain names the agents of each stance.
  tally-bullish :
      (os : List (AgentOpinion D))
      → (tally (select (λ o. not (is_abstain o.stance)) os)).bullish_agents
        ≡ roles (select (λ o. is_bullish o.stance) os)
  unfolding tally select
  tally-bullish [] = refl
  tally-bullish (o ∷ os) = ground (arith, tally-bullish os)

  tally-bearish :
      (os : List (AgentOpinion D))
      → (tally (select (λ o. not (is_abstain o.stance)) os)).bearish_agents
        ≡ roles (select (λ o. is_bearish o.stance) os)
  unfolding tally select
  tally-bearish [] = refl
  tally-bearish (o ∷ os) = ground (arith, tally-bearish os)

  tally-neutral :
      (os : List (AgentOpinion D))
      → (tally (select (λ o. not (is_abstain o.stance)) os)).neutral_agents
        ≡ roles (select (λ o. is_neutral o.stance) os)
  unfolding tally select
  tally-neutral [] = refl
  tally-neutral (o ∷ os) = ground (arith, tally-neutral os)

  tally-length :
      (os : List (AgentOpinion D))
      → length (tally (select (λ o. not (is_abstain o.stance)) os)).stance_values
        ≡ length (select (λ o. not (is_abstain o.stance)) os)
  unfolding tally select
  tally-length [] = refl
  tally-length (o ∷ os) = ground (arith, tally-length os)

  -- Where every opinion abstains, the abstaining ones are all of them.
  all_abstain :
      (os : List (AgentOpinion D))
      → select (λ o. not (is_abstain o.stance)) os ≡ []
      → roles os ≡ roles (select (λ o. is_abstain o.stance) os)
  unfolding select
  all_abstain [] h = refl
  all_abstain (o ∷ os) h = ground (arith, all_abstain os)

  report_values-one_side :
      (opinions : List (AgentOpinion D)) (t : Tally) (values : List ℤ) (lo hi : ℤ)
      → leb_ℤ (pos 3) (sub_ℤ hi lo) ≡ false
      → All (IsWithin lo hi) values
      → is_high (report_values opinions t values).severity ≡ false
  unfolding report_values
  report_values-one_side opinions t [] lo hi gap h = refl
  report_values-one_side opinions t (v ∷ values) lo hi gap h =
      narrow_is_not_high v values t.bullish_agents t.bearish_agents t.neutral_agents
        (narrow lo hi v values h gap)

  report_values-high :
      (opinions : List (AgentOpinion D)) (t : Tally) (values : List ℤ)
      → is_high (report_values opinions t values).severity ≡ true
      → ((report_values opinions t values).bullish_agents ≡ t.bullish_agents)
        × ((report_values opinions t values).bearish_agents ≡ t.bearish_agents)
  unfolding report_values
  report_values-high opinions t [] h = ground arith
  report_values-high opinions t (v ∷ values) h = (refl, refl)

  report_on-high :
      (opinions os : List (AgentOpinion D))
      → is_high (report_on opinions os).severity ≡ true
      → (is_empty (report_on opinions os).bullish_agents ≡ false)
        × (is_empty (report_on opinions os).bearish_agents ≡ false)
  unfolding report_on
  report_on-high opinions [] h = ground arith
  report_on-high opinions (o ∷ os) h =
      let t = tally (o ∷ os) in
      let named = report_values-high opinions t t.stance_values h in
      rw (named.0, named.1)
        (elim (List-cases t.bullish_agents) [
          | inl e ↦ ground (
            arith,
            report_values-one_side opinions t t.stance_values (negsuc 1) (pos 0) refl
                (no_bull (o ∷ os) e),
          )
          | inr (x, xs, e) ↦ elim (List-cases t.bearish_agents) [
            | inl none_left ↦ ground (
              arith,
              report_values-one_side opinions t t.stance_values (pos 0) (pos 2) refl
                  (no_bear (o ∷ os) none_left),
            )
            | inr (y, ys, some_left) ↦ rw (e, some_left) (refl, refl)
          ]
        ])

  -- How a report accounts for the opinions.
  unfoldable pub IsAccount : List (AgentOpinion D) → DisagreementReport → Type 0
  IsAccount opinions r =
      (r.bullish_agents ≡ roles (select (λ o. is_bullish o.stance) opinions))
      × (r.bearish_agents ≡ roles (select (λ o. is_bearish o.stance) opinions))
      × (r.neutral_agents ≡ roles (select (λ o. is_neutral o.stance) opinions))
      × (r.abstaining_agents ≡ roles (select (λ o. is_abstain o.stance) opinions))
      × ((r.challenge_required ≡ true) ↔ ((r.severity ≡ medium) ⊎ (r.severity ≡ high)))

  -- The report names the agents of the tally, and those who abstain.
  IsTallied : List (AgentOpinion D) → Tally → DisagreementReport → Type 0
  IsTallied opinions t r =
      (r.bullish_agents ≡ t.bullish_agents)
      × (r.bearish_agents ≡ t.bearish_agents)
      × (r.neutral_agents ≡ t.neutral_agents)
      × (r.abstaining_agents ≡ roles (select (λ o. is_abstain o.stance) opinions))
      × ((r.challenge_required ≡ true) ↔ ((r.severity ≡ medium) ⊎ (r.severity ≡ high)))

  report_values-IsTallied :
      (opinions : List (AgentOpinion D)) (t : Tally) (values : List ℤ)
      → is_empty values ≡ false
      → IsTallied opinions t (report_values opinions t values)
  unfolding IsTallied report_values
  report_values-IsTallied opinions t [] full = ground arith
  report_values-IsTallied opinions t (v ∷ values) full =
      let spread = sub_ℤ (maximum v values) (minimum v values) in
      (
        refl,
        refl,
        refl,
        refl,
        is_severe_lem (classify_severity spread t.bullish_agents t.bearish_agents t.neutral_agents),
      )

  report_on-IsTallied :
      (opinions os : List (AgentOpinion D))
      → length (tally os).stance_values ≡ length os
      → (os ≡ [] → roles opinions ≡ roles (select (λ o. is_abstain o.stance) opinions))
      → IsTallied opinions (tally os) (report_on opinions os)
  unfolding IsTallied report_on tally
  report_on-IsTallied opinions [] h quiet =
      (refl, refl, refl, quiet refl, is_severe_lem no_disagreement)
  report_on-IsTallied opinions (o ∷ os) h quiet =
      report_values-IsTallied opinions (tally (o ∷ os)) (tally (o ∷ os)).stance_values
        (ground (arith, h, List-cases (tally (o ∷ os)).stance_values))

  -- The report names exactly the bullish, the bearish, the neutral and the abstaining agents, each
  -- in the order of the opinions, and a challenge is required exactly when the severity is MEDIUM or
  -- HIGH.
  pub detect_disagreement-IsAccount :
      (opinions : List (AgentOpinion D)) → IsAccount opinions (detect_disagreement opinions)
  unfolding detect_disagreement IsAccount IsTallied
  detect_disagreement-IsAccount opinions =
      let os = select (λ o. not (is_abstain o.stance)) opinions in
      let h = report_on-IsTallied opinions os (tally-length opinions) (all_abstain opinions) in
      (
        h.0 ∙ tally-bullish opinions,
        h.1 ∙ tally-bearish opinions,
        h.2 ∙ tally-neutral opinions,
        h.3,
        h.4,
      )

  -- If the severity is HIGH, the report names a bullish and a bearish agent.
  pub high_has_both_sides :
      (opinions : List (AgentOpinion D))
      → is_high (detect_disagreement opinions).severity ≡ true
      → (is_empty (detect_disagreement opinions).bullish_agents ≡ false)
        × (is_empty (detect_disagreement opinions).bearish_agents ≡ false)
  unfolding detect_disagreement
  high_has_both_sides opinions h =
      report_on-high opinions (select (λ o. not (is_abstain o.stance)) opinions) h
