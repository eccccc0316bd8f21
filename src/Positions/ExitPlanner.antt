-- ===== src/Positions/ExitPlanner.antt =====
-- The plan of an exit (backend/app/positions/exit_planner.py). `quantized` is Decimal.quantize in
-- the default context, which rounds half to even; the answers of the gateways are parameters.
use alpha_council.Base.{ℕ, ◌+◌, String, Bool, true, false, ◌&&◌, Option, none, some, if◌then◌else◌}
use alpha_council.Decimal.{Decimal, leb, ltb, nought, one, mul, min, truthy}
use alpha_council.Alpaca.{Outcome, answered, raised, MarketClock}
use alpha_council.Market.{QuoteSnapshot, midpoint}
use alpha_council.Positions.Models.{
  ExitUrgency, immediate, high, InstrumentKind, option, Side, long, short, ExitSide, sell,
  buy_to_cover, sell_to_close,
}
use alpha_council.Positions.Records.{
  ManagedPosition, ExitDecision, ExitPlan, PositionReconciliationResult, is_exit,
}

-- The parts that a planner has: `reconciler or PositionReconciler(...) if alpaca_gateway else None`
-- is a reconciler exactly where there is an Alpaca gateway.
pub record Parts : Type 0 where
  pub has_alpaca : Bool
  pub has_store : Bool

-- What the gateways and the reconciler answer to one call.
pub record Answers (D : Type 0) : Type 0 where
  pub quote : Outcome (QuoteSnapshot D)
  pub clock : Outcome MarketClock
  pub reconciliation : Outcome (Option (PositionReconciliationResult D))

abbrev pub is_urgent : ExitUrgency → Bool
is_urgent immediate = true
is_urgent high = true
is_urgent _ = false

abbrev pub exit_side_on : InstrumentKind → Side → ExitSide
exit_side_on option side = sell_to_close
exit_side_on _ long = sell
exit_side_on _ short = buy_to_cover

module _ {D : Type 0} where
  unfoldable pub determine_exit_side : ManagedPosition D → ExitSide
  determine_exit_side p = exit_side_on p.instrument_type p.side

module _ {D : Type 0} ⦃d : Decimal D⦄ (quantized : ℕ → D → D) where
  abbrev round_to_tick : D → D
  round_to_tick price = if leb one price then quantized 2 price else quantized 4 price

  abbrev touch : Side → QuoteSnapshot D → D
  touch long q = q.bid_price
  touch short q = q.ask_price

  unfoldable pub calculate_exit_limit_price :
      ExitDecision D → QuoteSnapshot D → ManagedPosition D → D
  calculate_exit_limit_price decision q p = round_to_tick (
      if is_exit decision.decision && is_urgent decision.urgency
      then touch p.side q
      else midpoint q)

  -- clamped to what the provider holds
  abbrev pub clamped : D → Option (PositionReconciliationResult D) → D
  clamped quantity none = quantity
  clamped quantity (some r) =
      if ltb r.provider_quantity quantity then min quantity r.provider_quantity else quantity

  abbrev reference : Bool → String → Option String
  reference true version = some version
  reference false version = none

  abbrev pub plan_of :
      ExitDecision D → ManagedPosition D → Bool → ℕ → ℕ → QuoteSnapshot D → D → ExitPlan D
  plan_of decision p has_risk_state ttl now q quantity =
      let limit = calculate_exit_limit_price decision q p in
      record {
        position_id = p.position_id;
        symbol = p.symbol;
        instrument_type = p.instrument_type;
        decision = decision.decision;
        side = determine_exit_side p;
        quantity = quantity;
        reason_codes = decision.reason_codes;
        urgency = decision.urgency;
        fresh_bid = some q.bid_price;
        fresh_ask = some q.ask_price;
        fresh_mid = some (midpoint q);
        reference_price = decision.reference_price;
        limit_price = some limit;
        expected_notional = if truthy limit then mul limit quantity else nought;
        risk_state_reference = reference has_risk_state p.constitution_version;
        constitution_version = p.constitution_version;
        created_at = now;
        expires_at = now + ttl;
      }

  -- the quantity of the plan, after the call of the reconciler where there is one
  abbrev pub quantity_of : Parts → D → Outcome (Option (PositionReconciliationResult D)) → Outcome D
  quantity_of parts quantity reconciliation =
      if parts.has_alpaca && parts.has_store
      then (elim reconciliation [ raised ↦ raised | answered r ↦ answered (clamped quantity r) ])
      else answered quantity

  abbrev pub planned :
      ExitDecision D
      → ManagedPosition D
      → Bool
      → ℕ
      → ℕ
      → QuoteSnapshot D
      → Outcome D
      → Outcome (ExitPlan D)
  planned decision p has_risk_state ttl now q raised = raised
  planned decision p has_risk_state ttl now q (answered quantity) =
      answered (plan_of decision p has_risk_state ttl now q quantity)

  -- the clock is asked, and its answer is not used
  abbrev pub clock_raises : Parts → Outcome MarketClock → Bool
  clock_raises parts raised = parts.has_alpaca
  clock_raises parts (answered clock) = false

  abbrev pub build_on :
      Parts
      → Answers D
      → ExitDecision D
      → ManagedPosition D
      → Bool
      → ℕ
      → ℕ
      → Outcome (QuoteSnapshot D)
      → Outcome (ExitPlan D)
  build_on parts a decision p has_risk_state ttl now raised = raised
  build_on parts a decision p has_risk_state ttl now (answered q) =
      if clock_raises parts a.clock
      then raised
      else planned decision p has_risk_state ttl now q
          (quantity_of parts decision.target_quantity_to_close a.reconciliation)

  unfoldable pub build_exit_plan :
      Parts → Answers D → ExitDecision D → ManagedPosition D → Bool → ℕ → ℕ → Outcome (ExitPlan D)
  build_exit_plan parts a decision p has_risk_state ttl now =
      build_on parts a decision p has_risk_state ttl now a.quote
