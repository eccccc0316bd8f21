-- ===== src/Execution/Polls.antt =====
-- Tracking and the journal of sent orders (backend/app/execution/tracking.py).
use alpha_council.Base.{
  ℕ, zero, suc, ◌+◌, ◌≡◌, refl, arith, Bool-cases, Option-cases, inl, inr, ◌∙◌, leb,
}
use alpha_council.Execution.Models.{ExecutionStatus, ExecutionOrder, ExecutionResult}
use alpha_council.Execution.Validation.{Settings}
use alpha_council.Execution.World.{TradingClient, World}
use alpha_council.Execution.Tracking.{
  Poll, seen, missing, failed, Round, finished, again, after_poll, go_on, poll_once, track_loop,
  track_order,
}
use alpha_council.Execution.Quiet.{Quiet-get_order_by_id, Quiet-get_order_by_client_id}

module _ {D P : Type 0} where
  after_poll-journal :
      (now : ℕ) (r : ExecutionResult D) (last : ExecutionStatus) (p : Poll D) (w : World D P)
      → (after_poll now r last p w).1.journal ≡ w.journal
  unfolding after_poll
  after_poll-journal now r last missing w = refl
  after_poll-journal now r last failed w = refl
  after_poll-journal now r last (seen o) w = ground arith

  go_on-journal :
      (x : Round D) (k : ExecutionStatus → World D P → ExecutionResult D × World D P)
      (w : World D P)
      → ((s : ExecutionStatus) (v : World D P) → (k s v).1.journal ≡ v.journal)
      → (go_on x k w).1.journal ≡ w.journal
  unfolding go_on
  go_on-journal (finished r) k w h = refl
  go_on-journal (again s) k w h = h s w

module _ {D P : Type 0} (settings : Settings D) (client : TradingClient D P) where
  poll_once-journal :
      (o : ExecutionOrder D) (w : World D P) → (poll_once settings client o w).1.journal ≡ w.journal
  unfolding poll_once
  poll_once-journal o w = ground (
    arith,
    (Quiet-get_order_by_id settings client o.order_id).at w,
    (Quiet-get_order_by_client_id settings client o.client_order_id).at w,
  )

module _ {D P : Type 0} (settings : Settings D) (client : TradingClient D P) (elapsed : ℕ → ℕ) where
  track_loop-journal :
      (fuel i now : ℕ) (r : ExecutionResult D) (o : ExecutionOrder D) (last : ExecutionStatus)
      (w : World D P)
      → (track_loop settings client elapsed fuel i now r o last w).1.journal ≡ w.journal
  unfolding track_loop
  track_loop-journal zero i now r o last w = refl
  track_loop-journal (suc fuel) i now r o last w =
      elim (Bool-cases (leb settings.execution_track_timeout_seconds (elapsed i))) [
        | inl e ↦ rw (e, track_loop)
        | inr e ↦
            let (found, w') = poll_once settings client o w in
            let (round, w'') = after_poll now r last found w' in
            rw (e, track_loop)
              (go_on-journal round _ w'' (track_loop-journal fuel (i + 1) now r o)
                ∙ (after_poll-journal now r last found w' ∙ poll_once-journal settings client o w))
      ]

  pub track_order-journal :
      (now : ℕ) (r : ExecutionResult D) (w : World D P)
      → (track_order settings client elapsed now r w).1.journal ≡ w.journal
  unfolding track_order
  track_order-journal now r w = elim (Option-cases r.execution_order) [
    | inl e ↦ rw (e, track_order)
    | inr (o, e) ↦ rw (e, track_order) (track_loop-journal _ 0 now r o o.status w)
  ]
