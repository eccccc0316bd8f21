-- ===== src/Discovery/Filters.antt =====
-- The hard filters of the search for candidates (backend/app/discovery/filters.py).
use alpha_council.Base.{
  ℕ, String, Bool, true, false, ◌||◌, Option, none, some, List, [], ◌∷◌, str_eq, if◌then◌else◌,
  ltb as ltb_ℕ,
}
use alpha_council.Decimal.{Decimal, ltb, nought}
use alpha_council.Alpaca.{Outcome, answered, raised}
use alpha_council.Discovery.Models.{
  ScreeningObservation, has_sufficient_data, RejectionReason, price_too_low, low_liquidity,
  insufficient_history, invalid_data, data_quality_degraded, CandidateRejection,
}

-- The thresholds of the settings, as decimals.
pub record FilterConfig (D : Type 0) : Type 0 where
  pub min_price : D
  pub min_avg_dollar_volume : D
  pub min_history_bars : ℕ

-- data_quality_status in ("DEGRADED", "INSUFFICIENT", "STALE")
abbrev pub is_poor : Option String → Bool
is_poor none = false
is_poor (some s) = str_eq s "DEGRADED" || (str_eq s "INSUFFICIENT" || str_eq s "STALE")

-- bars_received is not None and bars_received < minimum
abbrev pub is_short : ℕ → Option ℕ → Bool
is_short minimum none = false
is_short minimum (some bars) = ltb_ℕ bars minimum

-- the eligible observations and the rejections
pub record Filtered (D : Type 0) : Type 0 where
  pub eligible : List (ScreeningObservation D)
  pub rejections : List CandidateRejection

module _ {D : Type 0} ⦃d : Decimal D⦄ where
  unfoldable pub validate : FilterConfig D → Bool
  validate c =
      if ltb c.min_price nought || ltb c.min_avg_dollar_volume nought
      then false
      else (if ltb_ℕ c.min_history_bars 1 then false else true)

  abbrev pub is_illiquid : D → Option D → Bool
  is_illiquid minimum none = false
  is_illiquid minimum (some dollars) = ltb dollars minimum

  -- The test for a missing price never holds, since the field is a Decimal.
  unfoldable pub check_observation :
      ScreeningObservation D → FilterConfig D → Option RejectionReason
  check_observation obs config =
      if ltb obs.price config.min_price
      then some price_too_low
      else (if is_illiquid config.min_avg_dollar_volume obs.dollar_volume
          then some low_liquidity
          else (if is_short config.min_history_bars obs.bars_received
              then some insufficient_history
              else (if has_sufficient_data obs
                  then (if is_poor obs.data_quality_status
                      then some data_quality_degraded
                      else none)
                  else some invalid_data)))

  -- one round of the loop, before what the rest of the observations gives
  abbrev pub filed : ScreeningObservation D → Option RejectionReason → Filtered D → Filtered D
  filed obs none rest = record rest { eligible = obs ∷ rest.eligible }
  filed obs (some reason) rest = record rest {
    rejections = record { symbol = obs.symbol; reason = reason } ∷ rest.rejections;
  }

  unfoldable pub filter_all : List (ScreeningObservation D) → FilterConfig D → Filtered D
  filter_all [] config = record { eligible = []; rejections = [] }
  filter_all (obs ∷ observations) config =
      filed obs (check_observation obs config) (filter_all observations config)

  -- `config.validate()` raises on thresholds below their minimum.
  unfoldable pub apply_hard_filters :
      List (ScreeningObservation D) → FilterConfig D → Outcome (Filtered D)
  apply_hard_filters observations config =
      if validate config then answered (filter_all observations config) else raised
