-- ===== src/Execution/TrackingTests.antt =====
-- Runs of the store and of the tracker, and the adoption of an order whose acknowledgement was lost.
use alpha_council.Base.{
  sym, str_eq_iff, Bool-cases, inl, inr, ℕ, zero, suc, ◌-◌, String, ap, ◌∙◌, ◌≡◌, refl, false,
  Option, none, some, [], ◌∷◌, arith, str_eq,
}
use alpha_council.Base.Int.{ℤ}
use alpha_council.Decimal.{whole}
use alpha_council.Decimal.Fixed.{fixed}
use alpha_council.Execution.Models.{
  ExecutionStatus, ExecutionOrder, ExecutionResult, ExecutionAuthorization,
  ExecutionAuthorizationState, ExecutionReasonCode, ExecutionStoreRecord, OrderType, TimeInForce,
  buy, remove_ac,
}
use alpha_council.Execution.World.{World, OrderRequest, integrity_error, err}
use alpha_council.Execution.Tracking.{track_loop, track_order}
use alpha_council.Execution.Results.{result_of}
use alpha_council.Execution.Service.{with_provider}
use alpha_council.Execution.Store.{
  written, put, upsert, get_by_idempotency_key, get_by_execution_plan_id, get_by_client_order_id,
}
use alpha_council.Alpaca.{answered}
use alpha_council.Execution.Rows.{
  Clock, to_row, insert_row, select_by_plan_id, select_by_key, select_by_client_id,
}
use alpha_council.Execution.RowLaws.{IsClock, rows_of, rows_after, rows_refine}
use alpha_council.Execution.Keys.{IsKeyed}
use alpha_council.Execution.Status.{get_execution_status, status_changes_nothing}
use alpha_council.Execution.Statements.{insert, provider_info, run_all, run_all-IsKeyed}
use alpha_council.Execution.Rounds.{track_order_enough}
use alpha_council.Execution.LostResponse.{lost_response_blocks}
use alpha_council.Execution.Tests.{paper, accepting, empty, surroundings, plan}

abbrev authorization : ExecutionAuthorization
authorization = record {
  execution_plan_id = "ac-1";
  state = ExecutionAuthorizationState.authorized;
  reason_code = ExecutionReasonCode.within_limits;
  authorized_at = 1001;
}

abbrev order : ExecutionOrder ℤ
order = record {
  order_id = "order-1";
  client_order_id = "ac-1";
  symbol = "AAPL";
  side = buy;
  quantity = whole 9;
  order_type = OrderType.limit;
  time_in_force = TimeInForce.day;
  limit_price = some (whole 100);
  status = ExecutionStatus.submitted;
  submitted_at = 1002;
  filled_at = none;
  filled_quantity = whole 0;
  filled_avg_price = none;
  provider_status = "NEW";
}

abbrev submitted : ExecutionResult ℤ
submitted = result_of plan authorization "plan-0001" ExecutionStatus.submitted (some order) [] none

-- The row that is written before the submission.
abbrev row : ExecutionStoreRecord
row = record {
  execution_plan_id = "ac-1";
  instrument_plan_id = "plan-0001";
  idempotency_key = "ac-1";
  client_order_id = "ac-1";
  authorization_state = ExecutionAuthorizationState.authorized;
  provider_order_id = none;
  provider_status = none;
  created_at = 1000;
  submitted_at = none;
  updated_at = 1000;
}

abbrev interrupted : World ℤ (Option (OrderRequest ℤ))
interrupted = record empty { store = row ∷ [] }

track_order_enough_example :
    track_order paper accepting (λ i. i) 1002 submitted empty
    ≡ track_loop paper accepting (λ i. i) 100 0 1002 submitted order ExecutionStatus.submitted empty
track_order_enough_example =
    track_order_enough paper accepting (λ i. i) 100 1002 submitted order empty (λ j. omega arith)
      (omega arith)

other_plan : str_eq row.execution_plan_id (remove_ac order.client_order_id) ≡ false
unfolding remove_ac
other_plan = refl

lost_response_blocks_example :
    with_provider paper accepting surroundings plan authorization "plan-0001" "ac-1" "ac-1" false
      false
      (some order)
      interrupted
    ≡ (err integrity_error, interrupted)
lost_response_blocks_example =
    lost_response_blocks paper accepting surroundings plan authorization "plan-0001" "ac-1" "ac-1"
      false false order [] [] row interrupted refl refl other_plan

empty-IsKeyed : IsKeyed []
unfolding IsKeyed
empty-IsKeyed = tt

run_all-IsKeyed_example :
    IsKeyed
      (run_all (insert row ∷ provider_info 1002 "ac-1" "order-1" "NEW" none ∷ insert row ∷ []) [])
run_all-IsKeyed_example =
    run_all-IsKeyed (insert row ∷ provider_info 1002 "ac-1" "order-1" "NEW" none ∷ insert row ∷ [])
      [] empty-IsKeyed

row-written : upsert row [] ≡ written (row ∷ [])
unfolding upsert put
row-written = refl

-- A time written as a letter and as many letters as it has seconds, in place of an ISO text.
abbrev strokes : ℕ → String
strokes zero = "T"
strokes (suc n) = String.◌∷◌ "T" (strokes n)

abbrev letters : String → ℕ
letters (String.◌∷◌ c s) = suc (letters s)
letters _ = zero

abbrev clock : Clock
clock = record { isoformat = strokes; fromisoformat = λ s. answered (letters s - 1) }

letters-strokes : (n : ℕ) → letters (strokes n) ≡ suc n
letters-strokes zero = refl
letters-strokes (suc n) = ap suc (letters-strokes n)

strokes-filled : (n : ℕ) → str_eq (strokes n) "" ≡ false
strokes-filled n = elim (Bool-cases (str_eq (strokes n) "")) [
  | inl e ↦
      let h : suc n ≡ 0 = sym (letters-strokes n) ∙ ap letters ((str_eq_iff (strokes n) "").0 e) in
      ground (arith, h)
  | inr e ↦ e
]

clock-IsClock : IsClock clock
clock-IsClock = record {
  reads_back = λ n. ap answered (ap (λ m. m - 1) (letters-strokes n) ∙ omega arith);
  not_empty = strokes-filled;
}

rows_refine_example :
    (insert_row (to_row clock row) (rows_of clock (row ∷ []))
      ≡ rows_after clock (upsert row (row ∷ [])))
    × (select_by_plan_id clock "ac-1" (rows_of clock (row ∷ []))
        ≡ answered (get_by_execution_plan_id "ac-1" (row ∷ [])))
    × (select_by_key clock "ac-1" (rows_of clock (row ∷ []))
        ≡ answered (get_by_idempotency_key "ac-1" (row ∷ [])))
    × (select_by_client_id clock "ac-1" (rows_of clock (row ∷ []))
        ≡ answered (get_by_client_order_id "ac-1" (row ∷ [])))
rows_refine_example = rows_refine clock clock-IsClock (row ∷ []) row "ac-1"

status_changes_nothing_example :
    let out = get_execution_status paper accepting 2000 "ac-1" interrupted in
    (out.1.journal ≡ []) × (out.1.store ≡ row ∷ [])
status_changes_nothing_example = status_changes_nothing paper accepting 2000 "ac-1" interrupted
