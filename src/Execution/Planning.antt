-- ===== src/Execution/Planning.antt =====
-- What a plan that could be built says (backend/app/execution/planner.py).
use alpha_council.Base.{
  ℕ, ◌+◌, String, ◌≡◌, refl, ◌⊎◌, Bool, true, false, Option, none, some, arith, inl, inr,
}
use mathlib.Core.Path.{subst}
use alpha_council.Decimal.{Decimal, decimal, leb, add, sub, mul, div, nought, whole, abs}
use alpha_council.Alpaca.{Outcome, answered, raised, AssetInfo, MarketClock}
use alpha_council.Market.{QuoteSnapshot, midpoint}
use alpha_council.Instruments.Models.{
  long, short, EquityInstrumentPlan, OptionInstrumentPlan, InstrumentPlan, InstrumentType, stock,
  etf, option, no_trade, is_stock_type, is_option_type,
}
use alpha_council.Risk.Models.{RiskEvaluation}
use alpha_council.Execution.Models.{ExecutionReasonCode, OrderSide, buy, ExecutionPlan}
use alpha_council.Execution.Validation.{Settings}
use alpha_council.Execution.Planner.{
  PlanError, Planned, from_gateway, ok, err, ◌>>=◌, raise_if, BrokerAnswers, Sizing,
  validate_quote_freshness, validate_quote_quality, validate_short_side, needs_short,
  validate_shortable, m5_reference, validate_price_deviation, limit_price_of, sizing_of, plan_of,
  build_execution_plan, get_asset_info, check_market_open, validate_asset_tradability,
}

from_gateway-ok : {A : Type 0} (o : Outcome A) (a : A) → from_gateway o ≡ ok a → o ≡ answered a
from_gateway-ok (answered a) b h = ground arith
from_gateway-ok raised b h = ground arith

ok-injective : {A : Type 0} (a b : A) → ok a ≡ ok b → a ≡ b
ok-injective a b h = ground arith

err-ok : {B : Type 0} (e : PlanError) (b : B) → ¬ (err e ≡ ok b)
err-ok e b h = ground arith

-- The chain of checks got past its first one.
bind-ok :
    {A B C : Type 0} (m : Planned A) (f : A → Planned B) (b : B)
    → m >>= f ≡ ok b
    → ((a : A) → m ≡ ok a → f a ≡ ok b → C)
    → C
bind-ok (ok a) f b h k = k a refl h
bind-ok (err e) f b h k = absurd (err-ok e b h)

raise_if-ok :
    (bad : Bool) (r : ExecutionReasonCode) (u : Unit) → raise_if bad r ≡ ok u → bad ≡ false
raise_if-ok true r u h = ground arith
raise_if-ok false r u h = refl

-- The broker, where there is one, says that the asset can be traded and that the market is open.
abbrev pub BrokerAgrees : Option BrokerAnswers → Type 0
BrokerAgrees none = Unit
BrokerAgrees (some b) =
    ((a : AssetInfo) × (b.asset ≡ answered a) × (a.tradable ≡ true))
    × ((c : MarketClock) × (b.clock ≡ answered c) × (c.is_open ≡ true))

broker_lem :
    (b : Option BrokerAnswers) (symbol : String) (a : AssetInfo) (u v : Unit)
    → get_asset_info symbol b ≡ ok a
    → check_market_open b ≡ ok u
    → validate_asset_tradability a ≡ ok v
    → BrokerAgrees b
unfolding get_asset_info check_market_open validate_asset_tradability
broker_lem none symbol a u v h k l = tt
broker_lem (some b) symbol a u v h k l = bind-ok (from_gateway b.clock) _ u k λ c clock is_open. (
  (a, from_gateway-ok b.asset a h, ground arith),
  (c, from_gateway-ok b.clock c clock, ground arith),
)

module _ {D : Type 0} ⦃d : Decimal D⦄ where
  -- Two positive prices, not crossed and not equal, whose spread is within the limit.
  pub record IsGoodQuote (s : Settings D) (q : QuoteSnapshot D) : Type 0 where
    pub bid_positive : leb q.bid_price nought ≡ false
    pub ask_positive : leb q.ask_price nought ≡ false
    pub uncrossed : leb q.ask_price q.bid_price ≡ false
    pub spread :
        let mid = div (add q.bid_price q.ask_price) (decimal 20_000) in
        leb mid nought ≡ false
        → leb (div (sub q.ask_price q.bid_price) mid) s.max_execution_spread_pct ≡ true

  -- The price has not left the reference price, if there is one, by more than the limit.
  abbrev pub IsNearReference : Settings D → InstrumentPlan D → QuoteSnapshot D → Type 0
  IsNearReference s ip q =
      let ref = m5_reference ip in
      leb ref nought ≡ false
      → leb (div (abs (sub (midpoint q) ref)) ref) s.max_execution_price_deviation_pct ≡ true

  fresh_lem :
      (q : QuoteSnapshot D) (u : Unit)
      → validate_quote_freshness q ≡ ok u
      → (leb q.bid_price nought ≡ false) × (leb q.ask_price nought ≡ false)
  unfolding validate_quote_freshness
  fresh_lem q u h = ground arith

  quality_lem :
      (s : Settings D) (q : QuoteSnapshot D) (u : Unit)
      → validate_quote_quality s q ≡ ok u
      → (leb q.ask_price q.bid_price ≡ false)
        × (let mid = div (add q.bid_price q.ask_price) (decimal 20_000) in
            leb mid nought ≡ false
            → leb (div (sub q.ask_price q.bid_price) mid) s.max_execution_spread_pct ≡ true)
  unfolding validate_quote_quality
  quality_lem s q u h = ground arith

  deviation_lem :
      (s : Settings D) (ip : InstrumentPlan D) (q : QuoteSnapshot D) (u : Unit)
      → validate_price_deviation s ip (midpoint q) ≡ ok u
      → IsNearReference s ip q
  unfolding validate_price_deviation
  deviation_lem s ip q u h = ground arith

  -- The side, the quantity and the notional are those that the instrument plan of a stock or of an
  -- option planned, and a stock is bought for a long position.
  abbrev pub IsSizedBy :
      InstrumentType
      → Option (EquityInstrumentPlan D)
      → Option (OptionInstrumentPlan D)
      → OrderSide
      → D
      → D
      → D
      → Type 0
  IsSizedBy t equity options side quantity notional price =
      (side ≡ buy)
      × (((e : EquityInstrumentPlan D) × (is_stock_type t ≡ true)
            × (equity ≡ some e)
            × (e.side ≡ long)
            × (quantity ≡ e.estimated_quantity)
            × (notional ≡ mul price e.estimated_quantity))
          ⊎ ((o : OptionInstrumentPlan D) × (t ≡ option)
              × (options ≡ some o)
              × (quantity ≡ whole o.planned_contracts)
              × (notional ≡ mul (mul price (whole o.planned_contracts)) (whole o.multiplier))))

  short_side_lem :
      (ip : InstrumentPlan D) (a : AssetInfo) (u : Unit)
      → validate_short_side ip a ≡ ok u
      → needs_short (is_stock_type ip.instrument_type) ip.equity_plan ≡ false
  unfolding validate_short_side validate_shortable
  short_side_lem ip a u h = ground arith

  size_lem :
      (t : InstrumentType) (equity : Option (EquityInstrumentPlan D))
      (options : Option (OptionInstrumentPlan D)) (price : D) (z : Sizing D)
      → needs_short (is_stock_type t) equity ≡ false
      → sizing_of (is_stock_type t) (is_option_type t) equity options price ≡ ok z
      → IsSizedBy t equity options z.side z.quantity z.expected_notional price
  unfolding needs_short sizing_of
  size_lem stock (some e) options price z h k =
      (ground arith, inl (e, refl, refl, ground arith, ground arith, ground arith))
  size_lem etf (some e) options price z h k =
      (ground arith, inl (e, refl, refl, ground arith, ground arith, ground arith))
  size_lem stock none none price z h k = absurd (err-ok _ _ k)
  size_lem stock none (some o) price z h k = absurd (err-ok _ _ k)
  size_lem etf none none price z h k = absurd (err-ok _ _ k)
  size_lem etf none (some o) price z h k = absurd (err-ok _ _ k)
  size_lem no_trade e none price z h k = absurd (err-ok _ _ k)
  size_lem no_trade e (some o) price z h k = absurd (err-ok _ _ k)
  size_lem option equity none price z h k = absurd (err-ok _ _ k)
  size_lem option equity (some o) price z h k =
      (ground arith, inr (o, refl, refl, ground arith, ground arith))

  unfoldable pub IsSound :
      Settings D
      → ℕ
      → Outcome (QuoteSnapshot D)
      → Option BrokerAnswers
      → InstrumentPlan D
      → ExecutionPlan D
      → Type 0
  IsSound s now latest b ip p =
      ((q : QuoteSnapshot D) × (latest ≡ answered q)
        × IsGoodQuote s q
        × IsNearReference s ip q
        × (p.limit_price ≡ limit_price_of q))
      × BrokerAgrees b
      × IsSizedBy ip.instrument_type ip.equity_plan ip.option_plan p.side p.quantity
          p.expected_notional p.limit_price
      × (p.expires_at ≡ now + s.execution_plan_ttl_seconds)

  -- Every plan that could be built stands on a quote of two positive, uncrossed prices within the
  -- limit for the spread, near the reference price where the instrument plan has a positive one, and
  -- buys what the instrument plan of a stock or an option planned, never a short position. Where the
  -- planner has a broker, the broker said that the asset can be traded and that the market is open.
  pub built_plan-IsSound :
      (s : Settings D) (now : ℕ) (latest : Outcome (QuoteSnapshot D)) (b : Option BrokerAnswers)
      (ip : InstrumentPlan D) (e : RiskEvaluation D) (p : ExecutionPlan D)
      → build_execution_plan s now latest b ip e ≡ ok p
      → IsSound s now latest b ip p
  unfolding build_execution_plan IsSound plan_of
  built_plan-IsSound s now latest b ip e p h = bind-ok (from_gateway latest) _ p h λ q quoted h1.
      bind-ok (get_asset_info ip.symbol b) _ p h1 λ a asset h2.
        bind-ok (check_market_open b) _ p h2 λ u1 opened h3.
          bind-ok (validate_quote_freshness q) _ p h3 λ u2 fresh h4.
            bind-ok (validate_quote_quality s q) _ p h4 λ u3 quality h5.
              bind-ok (validate_asset_tradability a) _ p h5 λ u4 tradable h6.
                bind-ok (validate_short_side ip a) _ p h6 λ u5 unshort h7.
                  bind-ok (validate_price_deviation s ip (midpoint q)) _ p h7 λ u6 near h8.
                    bind-ok
                      (sizing_of (is_stock_type ip.instrument_type)
                        (is_option_type ip.instrument_type) ip.equity_plan ip.option_plan
                        (limit_price_of q))
                      _ p h8
                      λ z sized h9.
                        let (bid, ask) = fresh_lem q u2 fresh in
                        let (uncrossed, spread) = quality_lem s q u3 quality in
                        subst (IsSound s now latest b ip) (ok-injective _ p h9) (
                          (
                            q,
                            from_gateway-ok latest q quoted,
                            record {
                              bid_positive = bid;
                              ask_positive = ask;
                              uncrossed = uncrossed;
                              spread = spread;
                            },
                            deviation_lem s ip q u6 near,
                            refl,
                          ),
                          broker_lem b ip.symbol a u1 u4 asset opened tradable,
                          size_lem ip.instrument_type ip.equity_plan ip.option_plan _ z
                              (short_side_lem ip a u5 unshort) sized,
                          refl,
                        )

  -- No plan can be built for a stock plan on the short side, whatever the market and the broker
  -- answer.
  pub short_never_builds :
      (s : Settings D) (now : ℕ) (latest : Outcome (QuoteSnapshot D)) (b : Option BrokerAnswers)
      (ip : InstrumentPlan D) (e : RiskEvaluation D) (q : EquityInstrumentPlan D)
      (p : ExecutionPlan D)
      → is_stock_type ip.instrument_type ≡ true
      → ip.equity_plan ≡ some q
      → q.side ≡ short
      → ¬ (build_execution_plan s now latest b ip e ≡ ok p)
  unfolding IsSound
  short_never_builds s now latest b ip e q p t h k built =
      let (quote, broker, sized, expiry) = built_plan-IsSound s now latest b ip e p built in
      ground arith
