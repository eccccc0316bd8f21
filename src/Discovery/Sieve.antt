-- ===== src/Discovery/Sieve.antt =====
-- What passes the hard filters (backend/app/discovery/filters.py).
use alpha_council.Base.{
  ℕ, ◌≡◌, refl, ap, sym, is_some, Bool, true, false, not, ◌&&◌, Option, none, some, List, [], ◌∷◌,
  map, select, arith, ltb as ltb_ℕ, leb as leb_ℕ, inl, inr, Bool-cases,
}
use alpha_council.Decimal.{Decimal, leb, nought}
use alpha_council.Alpaca.{Outcome, answered, raised}
use alpha_council.Discovery.Models.{ScreeningObservation, RejectionReason, has_sufficient_data}
use alpha_council.Discovery.Filters.{
  FilterConfig, Filtered, validate, check_observation, filed, filter_all, apply_hard_filters,
  is_poor, is_short, is_illiquid,
}

abbrev bars_at_least : ℕ → Option ℕ → Bool
bars_at_least minimum none = true
bars_at_least minimum (some bars) = leb_ℕ minimum bars

bars_at_least-is_short :
    (minimum : ℕ) (bars : Option ℕ) → bars_at_least minimum bars ≡ not (is_short minimum bars)
bars_at_least-is_short minimum none = refl
bars_at_least-is_short minimum (some bars) = ground arith

module _ {D : Type 0} ⦃d : Decimal D⦄ where
  abbrev at_least : D → Option D → Bool
  at_least minimum none = true
  at_least minimum (some value) = leb minimum value

  at_least-is_illiquid :
      (minimum : D) (value : Option D) → at_least minimum value ≡ not (is_illiquid minimum value)
  at_least-is_illiquid minimum none = refl
  at_least-is_illiquid minimum (some value) = ground arith

  -- An observation that meets every demand: its price, its dollar volume and its bars where they
  -- are known, its fields and its quality.
  unfoldable pub is_eligible : FilterConfig D → ScreeningObservation D → Bool
  is_eligible c o =
      leb c.min_price o.price
      && (at_least c.min_avg_dollar_volume o.dollar_volume
          && (bars_at_least c.min_history_bars o.bars_received
              && (has_sufficient_data o && not (is_poor o.data_quality_status))))

  is_eligible-check_observation :
      (c : FilterConfig D) (o : ScreeningObservation D)
      → not (is_some (check_observation o c)) ≡ is_eligible c o
  unfolding check_observation is_eligible
  is_eligible-check_observation c o = ground (
    arith,
    at_least-is_illiquid c.min_avg_dollar_volume o.dollar_volume,
    bars_at_least-is_short c.min_history_bars o.bars_received,
  )

  -- The eligible observations are those that meet every demand, and the rejections are of the
  -- others, both in the order of the observations.
  abbrev pub IsSplit : FilterConfig D → List (ScreeningObservation D) → Filtered D → Type 0
  IsSplit c os f =
      (f.eligible ≡ select (λ o. is_eligible c o) os)
      × (map (λ r. r.symbol) f.rejections
          ≡ map (λ o. o.symbol) (select (λ o. not (is_eligible c o)) os))

  -- Thresholds that are refused are negative or no bars at all.
  abbrev pub IsSieved :
      FilterConfig D → List (ScreeningObservation D) → Outcome (Filtered D) → Type 0
  IsSieved c os raised =
      leb nought c.min_price && (leb nought c.min_avg_dollar_volume && ltb_ℕ 0 c.min_history_bars)
      ≡ false
  IsSieved c os (answered f) =
      (leb nought c.min_price && (leb nought c.min_avg_dollar_volume && ltb_ℕ 0 c.min_history_bars)
        ≡ true)
      × IsSplit c os f

  filed-IsSplit :
      (c : FilterConfig D) (o : ScreeningObservation D) (os : List (ScreeningObservation D))
      (f : Filtered D) (reason : Option RejectionReason)
      → not (is_some reason) ≡ is_eligible c o
      → IsSplit c os f
      → IsSplit c (o ∷ os) (filed o reason f)
  unfolding select
  filed-IsSplit c o os f none passes h = rw (sym passes) (ap (λ r. o ∷ r) h.0, h.1)
  filed-IsSplit c o os f (some reason) fails h = rw (sym fails) (h.0, ap (λ r. o.symbol ∷ r) h.1)

  filter_all-IsSplit :
      (c : FilterConfig D) (os : List (ScreeningObservation D)) → IsSplit c os (filter_all os c)
  unfolding filter_all select
  filter_all-IsSplit c [] = (refl, refl)
  filter_all-IsSplit c (o ∷ os) =
      filed-IsSplit c o os (filter_all os c) (check_observation o c)
        (is_eligible-check_observation c o) (filter_all-IsSplit c os)

  -- The filters raise exactly for a negative threshold or a history of no bars; otherwise the
  -- eligible observations are those that meet every demand, and the symbols of the rejections are
  -- those of the others, both in the order of the observations.
  pub apply_hard_filters-IsSieved :
      (os : List (ScreeningObservation D)) (c : FilterConfig D)
      → IsSieved c os (apply_hard_filters os c)
  unfolding apply_hard_filters validate
  apply_hard_filters-IsSieved os c = elim (Bool-cases (validate c)) [
    | inl valid ↦ rw valid (ground (arith, valid), filter_all-IsSplit c os)
    | inr refused ↦ rw refused (ground (arith, refused))
  ]
