-- ===== src/Committee/Ranges.antt =====
-- The ranges of what the chair answers, which the decision's record demands
-- (backend/app/committee/aggregation.py, models.py).
use alpha_council.Base.{
  String, ◌≡◌, refl, true, false, Option, none, some, List, [], ◌∷◌, All, length, select,
  Bool-cases, inl, inr, arith, ltb as ltb_ℕ,
}
use alpha_council.Base.Dict.{Entry}
use alpha_council.Decimal.{Decimal, leb, ltb, nought}
use alpha_council.Decimal.Laws.{IsDecimal}
use alpha_council.Decimal.Lemmas.{le_refl}
use alpha_council.Committee.Models.{AgentResult, DisagreementSeverity}
use alpha_council.Committee.Aggregation.{
  Float, ValidOpinion, AggregationResult, valid_opinions, has_opinion, norm_weights,
  successful_weight, normalized_stance, penalty_of, insufficient, scored, aggregate_opinions,
  aggregate, determine_final_decision,
}
use alpha_council.Committee.Scores.{
  IsFraction, IsScore, IsSure, score_of-IsScore, confidence_of-IsFraction, score_of-penalty_of,
}

module _ {D : Type 0} ⦃d : Decimal D⦄ where
  -- An opinion of an agent, if there is one, is held with a confidence between 0 and 1.
  abbrev pub IsSureResult : AgentResult D → Type 0
  IsSureResult r = elim r.opinion [ none ↦ Unit | some o ↦ IsFraction o.confidence ]

  unfoldable pub IsInRange : AggregationResult D → Type 0
  IsInRange r = IsScore r.committee_score × IsFraction r.committee_confidence

  valid_opinions-IsSure :
      (rs : List (AgentResult D)) → All IsSureResult rs → All IsSure (valid_opinions rs)
  unfolding valid_opinions
  valid_opinions-IsSure [] sure = tt
  valid_opinions-IsSure (r ∷ rs) (sure, rest) = ground (arith, valid_opinions-IsSure rs rest)

  select-All :
      (rs : List (AgentResult D)) → All IsSureResult rs → All IsSureResult (select has_opinion rs)
  unfolding select
  select-All [] sure = tt
  select-All (r ∷ rs) (sure, rest) = ground (arith, select-All rs rest)

  determine_final_decision-IsInRange :
      (r : AggregationResult D) → IsInRange r → determine_final_decision r ≡ r
  unfolding IsInRange determine_final_decision
  determine_final_decision-IsInRange r (score, confidence) = ground arith

module _ {D : Type 0} ⦃d : Decimal D⦄ (laws : IsDecimal D) where
  insufficient-IsInRange : (opinions : List (AgentResult D)) → IsInRange (insufficient opinions)
  unfolding IsInRange insufficient
  insufficient-IsInRange opinions =
      let zero_fine = le_refl laws nought in
      (
        (zero_fine, rw (laws.constant_le 0 1_000_000) refl),
        (zero_fine, rw (laws.constant_le 0 10_000) refl),
      )

  scored-IsInRange :
      (norm : List (Entry String D)) (opinions : List (AgentResult D)) (vs : List (ValidOpinion D))
      (disagreement : Option DisagreementSeverity)
      → ltb_ℕ (length vs) 3 ≡ false
      → All IsSure vs
      → IsInRange (scored norm opinions vs disagreement)
  unfolding IsInRange scored
  scored-IsInRange norm opinions [] disagreement enough sure = ground arith
  scored-IsInRange norm opinions (v ∷ vs) disagreement enough sure = (
    score_of-IsScore laws (normalized_stance norm (v ∷ vs)) (penalty_of disagreement),
    confidence_of-IsFraction laws v vs disagreement sure,
  )

module _ {F D : Type 0} ⦃f : Float F⦄ ⦃d : Decimal D⦄ (exact : F → D) (laws : IsDecimal D) where
  aggregate_opinions-IsInRange :
      (opinions : List (AgentResult D)) (weights : List (Entry String F))
      (disagreement : Option DisagreementSeverity)
      → All IsSureResult opinions
      → IsInRange (aggregate_opinions exact opinions weights disagreement)
  unfolding aggregate_opinions
  aggregate_opinions-IsInRange opinions weights disagreement sure =
      let vs = valid_opinions opinions in
      let norm = norm_weights exact weights in
      elim (Bool-cases (ltb_ℕ (length vs) 3)) [
        | inl few ↦ rw few (insufficient-IsInRange laws opinions)
        | inr enough ↦
            elim (Bool-cases (ltb (successful_weight norm nought vs) (exact (f.fraction 60)))) [
              | inl light ↦ rw (enough, light) (insufficient-IsInRange laws opinions)
              | inr heavy ↦
                  rw (enough, heavy)
                    (scored-IsInRange laws norm opinions vs disagreement enough
                      (valid_opinions-IsSure opinions sure))
            ]
      ]

  -- For results whose confidences lie between 0 and 1, the chair's score lies between 0 and 100
  -- and its confidence between 0 and 1, whatever the weights, the stances and the disagreement.
  pub aggregate-IsInRange :
      (weights : List (Entry String F)) (results : List (AgentResult D))
      (disagreement : Option DisagreementSeverity)
      → All IsSureResult results
      → IsInRange (aggregate exact weights results disagreement)
  unfolding IsInRange aggregate
  aggregate-IsInRange weights results disagreement sure =
      aggregate_opinions-IsInRange (select has_opinion results) weights disagreement
        (select-All results sure)

  -- For results whose confidences lie between 0 and 1, determine_final_decision leaves the
  -- chair's aggregation as it is.
  determine_final_decision-aggregate :
      (weights : List (Entry String F)) (results : List (AgentResult D))
      (disagreement : Option DisagreementSeverity)
      → All IsSureResult results
      → determine_final_decision (aggregate exact weights results disagreement)
        ≡ aggregate exact weights results disagreement
  determine_final_decision-aggregate weights results disagreement sure =
      determine_final_decision-IsInRange (aggregate exact weights results disagreement)
        (aggregate-IsInRange weights results disagreement sure)

  -- The score under any disagreement is at most the score of the same results without one.
  pub disagreement_lowers :
      (weights : List (Entry String F)) (results : List (AgentResult D))
      (severity : DisagreementSeverity)
      → leb
          (aggregate exact weights results (some severity)).committee_score
          (aggregate exact weights results none).committee_score
        ≡ true
  unfolding aggregate aggregate_opinions insufficient scored
  disagreement_lowers weights results severity =
      let vs = valid_opinions (select has_opinion results) in
      let norm = norm_weights exact weights in
      elim (Bool-cases (ltb_ℕ (length vs) 3)) [
        | inl few ↦ rw few (le_refl laws nought)
        | inr enough ↦
            elim (Bool-cases (ltb (successful_weight norm nought vs) (exact (f.fraction 60)))) [
              | inl light ↦ rw (enough, light) (le_refl laws nought)
              | inr heavy ↦
                  rw (enough, heavy)
                    (score_of-penalty_of laws (normalized_stance norm vs) (some severity))
            ]
      ]
