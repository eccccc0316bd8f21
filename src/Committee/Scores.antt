-- ===== src/Committee/Scores.antt =====
-- The range of the chair's score and confidence (backend/app/committee/aggregation.py).
use alpha_council.Base.{
  ℕ, suc, ◌+◌, ◌*◌, ◌≡◌, refl, true, false, Option, none, some, List, [], ◌∷◌, All, length,
  Bool-cases, inl, inr, arith, leb as leb_ℕ,
}
use alpha_council.Decimal.{Decimal, leb, add, mul, div, nought, one, whole, max, min}
use alpha_council.Decimal.Laws.{IsDecimal}
use alpha_council.Decimal.Lemmas.{
  max_left, max_right, max_le, min_left, min_right, le_min, le_of_not_le,
}
use alpha_council.Committee.Models.{DisagreementSeverity, no_disagreement, low, medium, high}
use alpha_council.Committee.Aggregation.{
  ValidOpinion, sum_confidence, confidence_of, score_of, penalty_of,
}

module _ {D : Type 0} ⦃d : Decimal D⦄ where
  -- Field(ge=0, le=1)
  abbrev pub IsFraction : D → Type 0
  IsFraction x = (leb nought x ≡ true) × (leb x one ≡ true)

  -- Field(ge=0, le=100)
  abbrev pub IsScore : D → Type 0
  IsScore x = (leb nought x ≡ true) × (leb x (whole 100) ≡ true)

  abbrev pub IsSure : ValidOpinion D → Type 0
  IsSure v = IsFraction v.opinion.confidence

module _ {D : Type 0} ⦃d : Decimal D⦄ (laws : IsDecimal D) where
  constant_true : (m n : ℕ) → leb_ℕ m n ≡ true → d.le (d.constant m) (d.constant n) ≡ true
  constant_true m n h = rw (laws.constant_le m n) h

  pub score_of-IsScore : (stance penalty : D) → IsScore (score_of stance penalty)
  unfolding score_of
  score_of-IsScore stance penalty =
      let x = mul (mul (add stance one) (whole 50)) penalty in
      (
        max_left laws nought (min (whole 100) x),
        max_le laws nought (min (whole 100) x) (whole 100) (constant_true 0 1_000_000 refl)
            (min_left laws (whole 100) x),
      )

  sum_confidence-bounds :
      (k : ℕ) (total : D) (vs : List (ValidOpinion D))
      → leb nought total ≡ true
      → leb total (d.constant k) ≡ true
      → All IsSure vs
      → (leb nought (sum_confidence total vs) ≡ true)
        × (leb (sum_confidence total vs) (d.constant (k + length vs * 10_000)) ≡ true)
  sum_confidence-bounds k total [] below above sure =
      (below, let e : k + 0 * 10_000 ≡ k = omega arith in rw e above)
  sum_confidence-bounds k total (v ∷ vs) below above (sure, rest) =
      let e : k + suc (length vs) * 10_000 ≡ (k + 10_000) + length vs * 10_000 = omega arith in
      rw e (
        sum_confidence-bounds (k + 10_000) (add total v.opinion.confidence) vs
          (laws.add_nonneg total v.opinion.confidence below sure.0)
          (laws.add_le total v.opinion.confidence k 10_000 above sure.1) rest)

  penalty-IsFraction :
      (disagreement : Option DisagreementSeverity) → IsFraction {D = D} (penalty_of disagreement)
  penalty-IsFraction none = (constant_true 0 10_000 refl, constant_true 10_000 10_000 refl)
  penalty-IsFraction (some no_disagreement) =
      (constant_true 0 10_000 refl, constant_true 10_000 10_000 refl)
  penalty-IsFraction (some low) = (constant_true 0 9_500 refl, constant_true 9_500 10_000 refl)
  penalty-IsFraction (some medium) = (constant_true 0 8_500 refl, constant_true 8_500 10_000 refl)
  penalty-IsFraction (some high) = (constant_true 0 7_000 refl, constant_true 7_000 10_000 refl)

  -- A non-empty mean of confidences, under any penalty.
  pub confidence_of-IsFraction :
      (v : ValidOpinion D) (vs : List (ValidOpinion D)) (disagreement : Option DisagreementSeverity)
      → All IsSure (v ∷ vs)
      → IsFraction (confidence_of (v ∷ vs) (penalty_of disagreement))
  unfolding confidence_of
  confidence_of-IsFraction v vs disagreement sure =
      let count = d.constant (length (v ∷ vs) * 10_000) in
      let positive : leb count nought ≡ false =
        rw (laws.constant_le (suc (length vs) * 10_000) 0) (ground arith) in
      let total = sum_confidence nought (v ∷ vs) in
      let bounds =
        sum_confidence-bounds 0 nought (v ∷ vs) (constant_true 0 0 refl) (constant_true 0 0 refl)
          sure in
      let shift : length (v ∷ vs) * 10_000 ≡ 0 + length (v ∷ vs) * 10_000 = omega arith in
      let bound : leb total count ≡ true = rw shift bounds.1 in
      let mean = div total count in
      let mean_low = laws.div_nonneg total count bounds.0 positive in
      let mean_high =
        laws.le_trans mean (div count count) one (laws.div_mono total count count bound positive)
          (laws.div_self count positive) in
      let penalty = penalty-IsFraction disagreement in
      (
        laws.mul_nonneg mean (penalty_of disagreement) mean_low penalty.0,
        laws.le_trans (mul mean (penalty_of disagreement)) mean one
            (laws.mul_le mean (penalty_of disagreement) mean_low penalty.1) mean_high,
      )

  clamp_mono :
      (x y : D)
      → leb x y ≡ true
      → leb (max nought (min (whole 100) x)) (max nought (min (whole 100) y)) ≡ true
  clamp_mono x y h =
      let a = min (whole 100) x in
      let b = min (whole 100) y in
      let a_le_b =
        le_min laws (whole 100) y a (min_left laws (whole 100) x)
          (laws.le_trans a x y (min_right laws (whole 100) x) h) in
      max_le laws nought a (max nought b) (max_left laws nought b)
        (laws.le_trans a b (max nought b) a_le_b (max_right laws nought b))

  -- A penalty lowers a score or leaves it alone.
  pub score_of-penalty_of :
      (stance : D) (disagreement : Option DisagreementSeverity)
      → leb (score_of stance (penalty_of disagreement)) (score_of stance (penalty_of none)) ≡ true
  unfolding score_of
  score_of-penalty_of stance disagreement =
      let x = mul (add stance one) (whole 50) in
      let p = penalty_of disagreement in
      let penalty = penalty-IsFraction disagreement in
      rw (laws.mul_one x) (elim (Bool-cases (leb nought x)) [
        | inl up ↦ clamp_mono (mul x p) x (laws.mul_le x p up penalty.1)
        | inr down ↦
            let below = laws.mul_nonpos x p (le_of_not_le laws nought x down) penalty.0 in
            let a = min (whole 100) (mul x p) in
            let b = min (whole 100) x in
            let low =
              laws.le_trans a (mul x p) nought (min_right laws (whole 100) (mul x p)) below in
            max_le laws nought a (max nought b) (max_left laws nought b)
              (laws.le_trans a nought (max nought b) low (max_left laws nought b))
      ])
