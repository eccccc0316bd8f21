-- ===== src/Execution/Rounds.antt =====
-- The fuel of the tracker's loop (backend/app/execution/tracking.py).
use alpha_council.Base.{
  ℕ, zero, suc, ◌+◌, ◌≤◌, ◌<◌, ◌≡◌, refl, true, arith, Bool-cases, some, sym, inl, inr, leb,
}
use alpha_council.Execution.Models.{ExecutionStatus, ExecutionOrder, ExecutionResult}
use alpha_council.Execution.Validation.{Settings}
use alpha_council.Execution.World.{TradingClient, World}
use alpha_council.Execution.Tracking.{
  Round, finished, again, after_poll, go_on, poll_once, timeout_result, track_loop, track_order,
}

module _ {D P : Type 0} where
  go_on-ext :
      (x : Round D) (k l : ExecutionStatus → World D P → ExecutionResult D × World D P)
      (w : World D P)
      → ((s : ExecutionStatus) (v : World D P) → k s v ≡ l s v)
      → go_on x k w ≡ go_on x l w
  unfolding go_on
  go_on-ext (finished r) k l w h = refl
  go_on-ext (again s) k l w h = h s w

module _ {D P : Type 0} (settings : Settings D) (client : TradingClient D P) (elapsed : ℕ → ℕ) where
  -- A loop whose time is over returns at once, whatever the fuel.
  track_loop-over :
      (fuel i now : ℕ) (r : ExecutionResult D) (o : ExecutionOrder D) (last : ExecutionStatus)
      (w : World D P)
      → leb settings.execution_track_timeout_seconds (elapsed i) ≡ true
      → track_loop settings client elapsed fuel i now r o last w ≡ (timeout_result r last, w)
  unfolding track_loop
  track_loop-over zero i now r o last w h = refl
  track_loop-over (suc fuel) i now r o last w h = rw (h, track_loop) refl

  late_lem :
      (i : ℕ)
      → ((j : ℕ) → j ≤ elapsed j)
      → settings.execution_track_timeout_seconds < 0 + i
      → leb settings.execution_track_timeout_seconds (elapsed i) ≡ true
  late_lem i clock enough = ground (arith, clock i)

  -- On a clock that has gained at least one second in each round, every two amounts of fuel that
  -- reach beyond the timeout give the same result and leave the same world: the loop ends by itself.
  pub track_loop_enough :
      (m n i now : ℕ) (r : ExecutionResult D) (o : ExecutionOrder D) (last : ExecutionStatus)
      (w : World D P)
      → ((j : ℕ) → j ≤ elapsed j)
      → settings.execution_track_timeout_seconds < m + i
      → settings.execution_track_timeout_seconds < n + i
      → track_loop settings client elapsed m i now r o last w
        ≡ track_loop settings client elapsed n i now r o last w
  unfolding track_loop
  track_loop_enough zero n i now r o last w clock left right =
      sym (track_loop-over n i now r o last w (late_lem i clock left))
  track_loop_enough (suc m) zero i now r o last w clock left right =
      track_loop-over (suc m) i now r o last w (late_lem i clock right)
  track_loop_enough (suc m) (suc n) i now r o last w clock left right =
      elim (Bool-cases (leb settings.execution_track_timeout_seconds (elapsed i))) [
        | inl e ↦ rw (e, track_loop) refl
        | inr e ↦
            let (found, w') = poll_once settings client o w in
            let (round, w'') = after_poll now r last found w' in
            rw (e, track_loop)
              (go_on-ext round _ _ w'' λ s v.
                track_loop_enough m n (i + 1) now r o s v clock (omega (arith, left))
                  (omega (arith, right)))
      ]

  -- On such a clock `track_order`, called with an order, gives the result of the loop under any fuel
  -- beyond the timeout.
  pub track_order_enough :
      (n now : ℕ) (r : ExecutionResult D) (o : ExecutionOrder D) (w : World D P)
      → ((j : ℕ) → j ≤ elapsed j)
      → settings.execution_track_timeout_seconds < n
      → let result = record r { execution_order = some o } in
        track_order settings client elapsed now result w
        ≡ track_loop settings client elapsed n 0 now result o o.status w
  unfolding track_order
  track_order_enough n now r o w clock enough =
      track_loop_enough (suc settings.execution_track_timeout_seconds) n 0 now
        (record r { execution_order = some o }) o o.status w clock (omega arith)
        (omega (arith, enough))
