-- ===== src/Execution/Tracking.antt =====
-- `OrderTracker` (backend/app/execution/tracking.py), whose asynchronous version differs only in
-- how it sleeps. `elapsed i` is what the clock reads at the loop's test number `i`, in seconds
-- since the start.
use alpha_council.Base.{
  ℕ, zero, suc, ◌+◌, String, Bool, true, false, Option, none, some, ◌==◌, leb, str_eq,
  if◌then◌else◌,
}
use alpha_council.Execution.Models.{
  ExecutionStatus, ExecutionOrder, ExecutionResult, is_terminal_status,
}
use alpha_council.Execution.Store.{update_status}
use alpha_council.Execution.Validation.{Settings}
use alpha_council.Execution.World.{TradingClient, World, Result, ok, err}
use alpha_council.Execution.Gateway.{get_order_by_id, get_order_by_client_id}

-- The statuses, numbered in the order of their declaration.
unfoldable pub status_index : ExecutionStatus → ℕ
status_index ExecutionStatus.planned = 0
status_index ExecutionStatus.authorized = 1
status_index ExecutionStatus.submitted = 2
status_index ExecutionStatus.partially_filled = 3
status_index ExecutionStatus.filled = 4
status_index ExecutionStatus.rejected = 5
status_index ExecutionStatus.canceled = 6
status_index ExecutionStatus.expired = 7
status_index ExecutionStatus.not_executed = 8
status_index ExecutionStatus.unknown = 9
status_index ExecutionStatus.failed = 10
status_index ExecutionStatus.pending_new = 11
status_index ExecutionStatus.accepted = 12
status_index ExecutionStatus.new = 13

unfoldable pub status_eq : ExecutionStatus → ExecutionStatus → Bool
unfolding status_index
status_eq a b = status_index a == status_index b

-- What one poll has found: an order, no order at all, or an exception.
pub data Poll (D : Type 0) : Type 0 where
  seen : ExecutionOrder D → Poll D
  missing failed : Poll D

-- A round returns a result, or goes on with the last known status.
pub data Round (D : Type 0) : Type 0 where
  finished : ExecutionResult D → Round D
  again : ExecutionStatus → Round D

module _ {D : Type 0} where
  unfoldable pub of_order : Result (ExecutionOrder D) → Poll D
  of_order (ok o) = seen o
  of_order (err e) = failed

  unfoldable pub of_optional : Result (Option (ExecutionOrder D)) → Poll D
  of_optional (ok none) = missing
  of_optional (ok (some o)) = seen o
  of_optional (err e) = failed

  -- `_build_terminal_result`
  abbrev pub terminal_result : ExecutionResult D → ExecutionOrder D → ExecutionResult D
  terminal_result result order = record result {
    status = order.status;
    execution_order = some order;
  }

  -- `_build_timeout_result`
  abbrev pub timeout_result : ExecutionResult D → ExecutionStatus → ExecutionResult D
  timeout_result result last = record result { status = last }

module _ {D P : Type 0} where
  -- The store learns of a status that differs from the last one.
  unfoldable pub note_status :
      ℕ → String → ExecutionStatus → ExecutionOrder D → World D P → World D P
  note_status now id last order w =
      if status_eq order.status last
      then w
      else record w { store = update_status now id order.provider_status w.store }

  -- The rest of the loop's body.
  unfoldable pub after_poll :
      ℕ → ExecutionResult D → ExecutionStatus → Poll D → World D P → Round D × World D P
  unfolding note_status
  after_poll now result last missing w = (finished (timeout_result result last), w)
  after_poll now result last failed w = (again last, w)
  after_poll now result last (seen o) w = (
    if is_terminal_status o.status then finished (terminal_result result o) else again o.status,
    note_status now result.execution_plan_id last o w,
  )

  -- The loop ends with a result, or goes on.
  unfoldable pub go_on :
      Round D
      → (ExecutionStatus → World D P → ExecutionResult D × World D P)
      → World D P
      → ExecutionResult D × World D P
  go_on (finished r) continue w = (r, w)
  go_on (again status) continue w = continue status w

module _ {D P : Type 0} (settings : Settings D) (client : TradingClient D P) where
  unfoldable pub poll_once : ExecutionOrder D → World D P → Poll D × World D P
  unfolding of_order of_optional
  poll_once order w =
      if str_eq order.order_id ""
      then (let (r, w') = get_order_by_client_id settings client order.client_order_id w in
          (of_optional r, w'))
      else (let (r, w') = get_order_by_id settings client order.order_id w in (of_order r, w'))

module _ {D P : Type 0} (settings : Settings D) (client : TradingClient D P) (elapsed : ℕ → ℕ) where
  -- One call for each round; the rounds that are left are the fuel.
  unfoldable pub track_loop :
      ℕ
      → ℕ
      → ℕ
      → ExecutionResult D
      → ExecutionOrder D
      → ExecutionStatus
      → World D P
      → ExecutionResult D × World D P
  track_loop zero i now result order last w = (timeout_result result last, w)
  track_loop (suc fuel) i now result order last w =
      elim (leb settings.execution_track_timeout_seconds (elapsed i)) [
        | true ↦ (timeout_result result last, w)
        | false ↦
            let (found, w') = poll_once settings client order w in
            let (round, w'') = after_poll now result last found w' in
            go_on round (λ status v. track_loop fuel (i + 1) now result order status v) w''
      ]

  -- `track_order`
  unfoldable pub track_order : ℕ → ExecutionResult D → World D P → ExecutionResult D × World D P
  track_order now result w = elim result.execution_order [
    | none ↦ (result, w)
    | some order ↦
        track_loop (suc settings.execution_track_timeout_seconds) 0 now result order order.status w
  ]
