-- ===== src/Discovery/Tests.antt =====
-- Runs of the search for candidates on concrete observations, with decimals of four places.
use alpha_council.Base.{
  ℕ, ◌≡◌, refl, String, none, some, List, [], ◌∷◌, take, str_eq, if◌then◌else◌,
}
use alpha_council.Base.Dict.{get, put}
use alpha_council.Base.Int.{ℤ}
use alpha_council.Decimal.{whole}
use alpha_council.Decimal.Fixed.{fixed}
use alpha_council.Alpaca.{answered}
use alpha_council.Discovery.Models.{
  ScreeningObservation, price_too_low, data_quality_degraded, has_sufficient_data,
}
use alpha_council.Discovery.Filters.{
  FilterConfig, apply_hard_filters, filter_all, check_observation, validate,
}
use alpha_council.Discovery.Diversification.{category, sector, diversify, apply_diversification}
use alpha_council.Discovery.Caps.{members, members-apply_diversification}
use alpha_council.Discovery.Sieve.{IsSieved, apply_hard_filters-IsSieved}

abbrev config : FilterConfig ℤ
config = record { min_price = whole 5; min_avg_dollar_volume = whole 1_000; min_history_bars = 50 }

-- an observation with every field
abbrev complete : String → ℕ → String → ScreeningObservation ℤ
complete symbol dollars quality = record {
  symbol = symbol;
  price = whole dollars;
  return_1d = some (whole 1);
  return_5d = some (whole 1);
  return_20d = some (whole 2);
  volume = some (whole 900);
  avg_volume_20 = some (whole 800);
  volume_ratio = some (whole 1);
  volume_zscore = none;
  realized_vol_20 = some (whole 0);
  atr_pct = none;
  distance_sma20_pct = some (whole 3);
  distance_sma50_pct = none;
  rsi_14 = some (whole 55);
  trend_short = none;
  trend_medium = none;
  dollar_volume = some (whole 8_000);
  data_quality_status = some quality;
  bars_received = some 100;
}

-- What the screener files where the provider failed: a price of 0 and none of the fields.
abbrev failed : ScreeningObservation ℤ
failed = record (complete "XOM" 0 "PROVIDER_ERROR") { return_5d = none; bars_received = none }

abbrev observations : List (ScreeningObservation ℤ)
observations =
    complete "SPY" 400 "GOOD" ∷ complete "PNY" 2 "GOOD" ∷ complete "OLD" 90 "STALE" ∷ failed ∷ []

sieved :
    apply_hard_filters observations config
    ≡ answered record {
      eligible = complete "SPY" 400 "GOOD" ∷ [];
      rejections =
          record { symbol = "PNY"; reason = price_too_low }
          ∷ record { symbol = "OLD"; reason = data_quality_degraded }
          ∷ record { symbol = "XOM"; reason = price_too_low }
          ∷ [];
    }
unfolding apply_hard_filters validate filter_all check_observation has_sufficient_data
sieved = refl

apply_hard_filters-IsSieved_example :
    IsSieved config observations (apply_hard_filters observations config)
apply_hard_filters-IsSieved_example = apply_hard_filters-IsSieved observations config

abbrev category_of : String → String
category_of symbol = if str_eq symbol "SPY" then "ETF" else "EQUITY"

abbrev symbols : List String
symbols = "AAPL" ∷ "SPY" ∷ "MSFT" ∷ "NVDA" ∷ []

capped : apply_diversification category_of symbols 2 category ≡ "AAPL" ∷ "SPY" ∷ "MSFT" ∷ []
unfolding apply_diversification diversify get put
capped = refl

by_sector : apply_diversification category_of symbols 2 sector ≡ symbols
unfolding apply_diversification
by_sector = refl

members-apply_diversification_example :
    members category_of "EQUITY" (apply_diversification category_of symbols 2 category)
    ≡ take 2 (members category_of "EQUITY" symbols)
members-apply_diversification_example = members-apply_diversification category_of "EQUITY" symbols 2
