-- ===== src/Execution/Status.antt =====
-- `get_execution_status` (backend/app/execution/service.py): the record of a plan with what the
-- provider says of its order. It returns a plan of placeholders.
use alpha_council.Base.{
  ℕ, String, ◌≡◌, refl, Bool, true, false, Option, none, some, [], ◌∙◌, if◌then◌else◌,
}
use alpha_council.Decimal.{Decimal, nought}
use alpha_council.Market.{bullish}
use alpha_council.Execution.Models.{
  ExecutionStatus, ExecutionReasonCode, OrderType, TimeInForce, InstrumentType, buy, ExecutionPlan,
  ExecutionOrder, ExecutionResult, ExecutionStoreRecord,
}
use alpha_council.Execution.Validation.{Settings}
use alpha_council.Execution.Store.{get_by_execution_plan_id}
use alpha_council.Execution.World.{
  TradingClient, World, Error, Result, ok, err, Exec, pure, ◌>>=◌, recover, try_except,
}
use alpha_council.Execution.Gateway.{order_if_any}
use alpha_council.Execution.Quiet.{Quiet, Quiet-bind, Quiet-pure, Quiet-order_if_any}
use alpha_council.Execution.Tracked.{IsQuery, bind-IsQuery, get_order_by_id-IsQuery}

module _ {D : Type 0} ⦃d : Decimal D⦄ where
  unfoldable pub minimal_plan : ExecutionStoreRecord → ExecutionPlan D
  minimal_plan r = record {
    execution_plan_id = r.execution_plan_id;
    instrument_plan_id = r.instrument_plan_id;
    created_at = r.created_at;
    expires_at = r.created_at;
    symbol = "";
    instrument_type = InstrumentType.stock;
    direction = bullish;
    side = buy;
    quantity = nought;
    order_type = OrderType.limit;
    time_in_force = TimeInForce.day;
    m5_reference_price = nought;
    fresh_bid = nought;
    fresh_ask = nought;
    fresh_mid = nought;
    limit_price = nought;
    expected_notional = nought;
    risk_budget = nought;
    max_authorized_notional = nought;
    constitution_version = "v1";
  }

  abbrev pub known_status : Option (ExecutionOrder D) → ExecutionStatus
  known_status none = ExecutionStatus.unknown
  known_status (some o) = o.status

  -- The authorization is dated `now`, the time of the call.
  unfoldable pub status_result :
      ℕ → ExecutionStoreRecord → Option (ExecutionOrder D) → ExecutionResult D
  unfolding minimal_plan
  status_result now r order = record {
    execution_plan_id = r.execution_plan_id;
    instrument_plan_id = r.instrument_plan_id;
    status = known_status order;
    authorization = record {
      execution_plan_id = r.execution_plan_id;
      state = r.authorization_state;
      reason_code = ExecutionReasonCode.within_limits;
      authorized_at = now;
    };
    execution_plan = minimal_plan r;
    execution_order = order;
    reason_codes = [];
    submitted_at = r.submitted_at;
  }

module _ {D P : Type 0} (settings : Settings D) (client : TradingClient D P) ⦃d : Decimal D⦄
    (now : ℕ) where
  unfoldable pub status_of_record :
      Option ExecutionStoreRecord → Exec D P (Option (ExecutionResult D))
  status_of_record none = pure none
  status_of_record (some r) = do
    order ← order_if_any settings client r.provider_order_id
    pure (some (status_result now r order))

  unfoldable pub get_execution_status : String → Exec D P (Option (ExecutionResult D))
  get_execution_status id w = status_of_record (get_by_execution_plan_id id w.store) w

module _ {D P : Type 0} where
  recover-IsQuery :
      {A : Type 0} (r : Result A) (h : Error → Exec D P A)
      → ((e : Error) → IsQuery (h e))
      → IsQuery (recover r h)
  unfolding recover
  recover-IsQuery (ok a) h k = record { at = λ w. refl }
  recover-IsQuery (err e) h k = record { at = (k e).at }

  try-IsQuery :
      {A : Type 0} (m : Exec D P A) (h : Error → Exec D P A)
      → IsQuery m
      → ((e : Error) → IsQuery (h e))
      → IsQuery (try_except m h)
  unfolding try_except
  try-IsQuery m h q k = record {
    at = λ w. let (r, w') = m w in (recover-IsQuery r h k).at w' ∙ q.at w;
  }

  pure-IsQuery : {A : Type 0} (a : A) → IsQuery (pure {D = D} {P = P} a)
  pure-IsQuery a = record { at = λ w. refl }

  if-IsQuery :
      {A : Type 0} (b : Bool) (m n : Exec D P A)
      → IsQuery m
      → IsQuery n
      → IsQuery (if b then m else n)
  if-IsQuery true m n h k = h
  if-IsQuery false m n h k = k

module _ {D P : Type 0} (settings : Settings D) (client : TradingClient D P) where
  order_if_any-IsQuery : (id : Option String) → IsQuery (order_if_any settings client id)
  unfolding order_if_any
  order_if_any-IsQuery none = pure-IsQuery none
  order_if_any-IsQuery (some id) = if-IsQuery _ _ _ (pure-IsQuery none) (
      try-IsQuery _ _
        (bind-IsQuery _ _ (get_order_by_id-IsQuery settings client id) (λ o. pure-IsQuery (some o)))
        (λ e. pure-IsQuery none))

  module _ ⦃d : Decimal D⦄ (now : ℕ) where
    status_of_record-IsQuery :
        (r : Option ExecutionStoreRecord) → IsQuery (status_of_record settings client now r)
    unfolding status_of_record
    status_of_record-IsQuery none = pure-IsQuery none
    status_of_record-IsQuery (some r) =
        bind-IsQuery _ _ (order_if_any-IsQuery r.provider_order_id) (λ o. pure-IsQuery _)

    Quiet-status_of_record :
        (r : Option ExecutionStoreRecord) → Quiet (status_of_record settings client now r)
    unfolding status_of_record
    Quiet-status_of_record none = Quiet-pure none
    Quiet-status_of_record (some r) =
        Quiet-bind _ _ (Quiet-order_if_any settings client r.provider_order_id) (λ o. Quiet-pure _)

    -- Asking for the status of a plan sends no order and writes nothing to the store, whatever the
    -- provider answers.
    pub status_changes_nothing :
        (id : String) (w : World D P)
        → let out = get_execution_status settings client now id w in
          (out.1.journal ≡ w.journal) × (out.1.store ≡ w.store)
    unfolding get_execution_status
    status_changes_nothing id w = (
      (Quiet-status_of_record (get_by_execution_plan_id id w.store)).at w,
      (status_of_record-IsQuery (get_by_execution_plan_id id w.store)).at w,
    )
