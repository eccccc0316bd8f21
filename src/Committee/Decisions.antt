-- ===== src/Committee/Decisions.antt =====
-- The chair's decision and what it stands on (backend/app/committee/aggregation.py).
use alpha_council.Base.{
  ℕ, String, ◌≡◌, refl, true, false, Option, none, some, List, map, length, length-map, select,
  Bool-cases, inl, inr, arith, is_some, leb as leb_ℕ, ltb as ltb_ℕ,
}
use alpha_council.Base.Dict.{Entry}
use alpha_council.Decimal.{Decimal, leb, ltb, nought, whole}
use alpha_council.Market.{bullish, bearish}
use alpha_council.Committee.Models.{
  AgentResult, DisagreementSeverity, CommitteeDecision, propose_long, propose_short, no_trade,
  no_disagreement,
}
use alpha_council.Committee.Aggregation.{
  Float, ValidOpinion, AggregationResult, valid_opinions, has_opinion, norm_weights,
  successful_weight, normalized_stance, penalty_of, score_of, confidence_of, decision_of,
  direction_of, no_trade_reason_of, insufficient, scored, aggregate_opinions, aggregate,
}

module _ {D : Type 0} ⦃d : Decimal D⦄ where
  -- What each decision stands on.
  Supports : CommitteeDecision → AggregationResult D → Type 0
  Supports propose_long r =
      (r.direction ≡ some bullish)
      × (r.no_trade_reason ≡ none)
      × (leb (whole 60) r.committee_score ≡ true)
      × (leb_ℕ 3 (length r.participating_agents) ≡ true)
  Supports propose_short r =
      (r.direction ≡ some bearish)
      × (r.no_trade_reason ≡ none)
      × (leb r.committee_score (whole 40) ≡ true)
      × (leb_ℕ 3 (length r.participating_agents) ≡ true)
  Supports no_trade r = (r.direction ≡ none) × (is_some r.no_trade_reason ≡ true)

  unfoldable pub IsCoherent : AggregationResult D → Type 0
  unfolding Supports
  IsCoherent r = Supports r.decision r

module _ {D : Type 0} ⦃d : Decimal D⦄ where
  no_trade_reason_of-no_trade :
      (agents : ℕ) (disagreement : Option DisagreementSeverity) (confidence : D)
      → is_some (no_trade_reason_of no_trade agents disagreement confidence) ≡ true
  unfolding no_trade_reason_of
  no_trade_reason_of-no_trade agents disagreement confidence = ground arith

  Supports-final_disagreement :
      (c : CommitteeDecision) (r : AggregationResult D) (severity : DisagreementSeverity)
      → Supports c r
      → Supports c (record r { final_disagreement = severity })
  unfolding Supports
  Supports-final_disagreement propose_long r severity h = h
  Supports-final_disagreement propose_short r severity h = h
  Supports-final_disagreement no_trade r severity h = h

  scored-IsCoherent :
      (norm : List (Entry String D)) (opinions : List (AgentResult D)) (vs : List (ValidOpinion D))
      (disagreement : Option DisagreementSeverity)
      → ltb_ℕ (length vs) 3 ≡ false
      → IsCoherent (scored norm opinions vs disagreement)
  unfolding IsCoherent Supports scored decision_of direction_of no_trade_reason_of
  scored-IsCoherent norm opinions vs disagreement enough =
      let score = score_of (normalized_stance norm vs) (penalty_of disagreement) in
      let quorum : leb_ℕ 3 (length (map (λ v. v.agent_role) vs)) ≡ true =
        rw (length-map (λ v. v.agent_role) vs) (ground arith) in
      elim (Bool-cases (leb (whole 60) score)) [
        | inl long ↦ rw long (refl, refl, long, quorum)
        | inr below ↦ elim (Bool-cases (leb score (whole 40))) [
          | inl short ↦ rw (below, short) (refl, refl, short, quorum)
          | inr above ↦
              rw (below, above)
                (
                  refl,
                  no_trade_reason_of-no_trade (length vs) disagreement
                      (confidence_of vs (penalty_of disagreement)),
                )
        ]
      ]

module _ {F D : Type 0} ⦃f : Float F⦄ ⦃d : Decimal D⦄ (exact : F → D) where
  aggregate_opinions-IsCoherent :
      (opinions : List (AgentResult D)) (weights : List (Entry String F))
      (disagreement : Option DisagreementSeverity)
      → IsCoherent (aggregate_opinions exact opinions weights disagreement)
  unfolding IsCoherent Supports aggregate_opinions insufficient
  aggregate_opinions-IsCoherent opinions weights disagreement =
      let vs = valid_opinions opinions in
      let norm = norm_weights exact weights in
      elim (Bool-cases (ltb_ℕ (length vs) 3)) [
        | inl few ↦ rw few (refl, refl)
        | inr enough ↦
            elim (Bool-cases (ltb (successful_weight norm nought vs) (exact (f.fraction 60)))) [
              | inl light ↦ rw (enough, light) (refl, refl)
              | inr heavy ↦
                  rw (enough, heavy) (scored-IsCoherent norm opinions vs disagreement enough)
            ]
      ]

  -- Whatever the agents answer: a proposal names its direction, gives no reason against trading,
  -- has its score beyond its threshold, at least 60 for LONG and at most 40 for SHORT, and rests
  -- on at least three agents; NO_TRADE has no direction and gives a reason.
  pub aggregate-IsCoherent :
      (weights : List (Entry String F)) (results : List (AgentResult D))
      (disagreement : Option DisagreementSeverity)
      → IsCoherent (aggregate exact weights results disagreement)
  unfolding IsCoherent aggregate
  aggregate-IsCoherent weights results disagreement =
      let r = aggregate_opinions exact (select has_opinion results) weights disagreement in
      Supports-final_disagreement r.decision r
        (elim disagreement [ none ↦ no_disagreement | some severity ↦ severity ])
        (aggregate_opinions-IsCoherent (select has_opinion results) weights disagreement)
