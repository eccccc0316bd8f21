-- ===== src/Discovery/Models.antt =====
-- The observations that the search for candidates screens, and the candidate that the committee takes
-- (backend/app/discovery/models.py). The scores of the single components, the messages and the time
-- stamps are left out.
use alpha_council.Base.{ℕ, String, Bool, ◌&&◌, Option, List, is_some}
use alpha_council.Market.{MarketState}

pub data SignalDirection : Type 0 where
  bullish bearish mixed neutral : SignalDirection

pub data RejectionReason : Type 0 where
  not_tradable price_too_low low_liquidity insufficient_history stale_data : RejectionReason
  invalid_data provider_error data_quality_degraded : RejectionReason

pub record CandidateRejection : Type 0 where
  pub symbol : String
  pub reason : RejectionReason

pub record ScreeningObservation (D : Type 0) : Type 0 where
  pub symbol : String
  pub price : D
  pub return_1d : Option D
  pub return_5d : Option D
  pub return_20d : Option D
  pub volume : Option D
  pub avg_volume_20 : Option D
  pub volume_ratio : Option D
  pub volume_zscore : Option D
  pub realized_vol_20 : Option D
  pub atr_pct : Option D
  pub distance_sma20_pct : Option D
  pub distance_sma50_pct : Option D
  pub rsi_14 : Option D
  pub trend_short : Option String
  pub trend_medium : Option String
  pub dollar_volume : Option D
  pub data_quality_status : Option String
  pub bars_received : Option ℕ

module _ {D : Type 0} where
  -- A price is never None: the field is a Decimal.
  unfoldable pub has_sufficient_data : ScreeningObservation D → Bool
  has_sufficient_data o =
      is_some o.return_5d
      && (is_some o.return_20d
          && (is_some o.avg_volume_20
              && (is_some o.volume
                  && (is_some o.realized_vol_20
                      && (is_some o.distance_sma20_pct && is_some o.rsi_14)))))

pub record OpportunityScore (D : Type 0) : Type 0 where
  pub total : D
  pub direction : SignalDirection
  pub reasons : List String

pub record PreliminaryCandidate (D : Type 0) : Type 0 where
  pub symbol : String
  pub observation : ScreeningObservation D
  pub score : OpportunityScore D
  pub rank : Option ℕ

pub record Candidate (D : Type 0) : Type 0 where
  pub symbol : String
  pub rank : ℕ
  pub direction : SignalDirection
  pub opportunity_score : OpportunityScore D
  pub market_state : MarketState D
