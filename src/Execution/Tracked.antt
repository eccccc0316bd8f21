-- ===== src/Execution/Tracked.antt =====
-- Queries and tracking, and what the store remembers (backend/app/execution/gateway.py,
-- tracking.py).
use alpha_council.Base.{
  ℕ, zero, suc, ◌+◌, String, ◌≡◌, refl, arith, Bool-cases, Option-cases, ◌∙◌, inl, inr, ap, leb,
}
use alpha_council.Execution.Models.{ExecutionStatus, ExecutionOrder, ExecutionResult}
use alpha_council.Execution.Validation.{Settings}
use alpha_council.Execution.World.{
  TradingClient, World, OrderRequest, Result, ok, err, Exec, continue, ◌>>=◌,
}
use alpha_council.Execution.Gateway.{
  enforce_paper_mode, send, submit_order, fetch_by_id, fetch_by_client_id, get_order_by_id,
  get_order_by_client_id,
}
use alpha_council.Execution.Tracking.{
  Poll, seen, missing, failed, Round, finished, again, note_status, after_poll, go_on, poll_once,
  track_loop, track_order,
}
use alpha_council.Execution.Remembered.{remembers, remembers-update_status}

module _ {D P : Type 0} where
  -- The method does not write the store.
  pub record IsQuery {A : Type 0} (m : Exec D P A) : Type 0 where
    pub at : (w : World D P) → (m w).1.store ≡ w.store

  module _ {A B : Type 0} where
    continue-IsQuery :
        (r : Result A) (f : A → Exec D P B) → ((a : A) → IsQuery (f a)) → IsQuery (continue r f)
    unfolding continue
    continue-IsQuery (ok a) f h = record { at = (h a).at }
    continue-IsQuery (err e) f h = record { at = λ w. refl }

    pub bind-IsQuery :
        (m : Exec D P A) (f : A → Exec D P B)
        → IsQuery m
        → ((a : A) → IsQuery (f a))
        → IsQuery (m >>= f)
    unfolding ◌>>=◌
    bind-IsQuery m f h k = record {
      at = λ w. let (r, w') = m w in (continue-IsQuery r f k).at w' ∙ h.at w;
    }

module _ {D P : Type 0} (settings : Settings D) (client : TradingClient D P) where
  enforce_paper_mode-IsQuery : IsQuery (enforce_paper_mode settings client)
  unfolding enforce_paper_mode
  enforce_paper_mode-IsQuery = record { at = λ w. ground arith }

  pub submit_order-IsQuery : (r : OrderRequest D) → IsQuery (submit_order settings client r)
  unfolding submit_order send
  submit_order-IsQuery r =
      bind-IsQuery _ _ enforce_paper_mode-IsQuery (λ _. record { at = λ w. refl })

  pub get_order_by_id-IsQuery : (id : String) → IsQuery (get_order_by_id settings client id)
  unfolding get_order_by_id fetch_by_id
  get_order_by_id-IsQuery id =
      bind-IsQuery _ _ enforce_paper_mode-IsQuery (λ _. record { at = λ w. refl })

  get_order_by_client_id-IsQuery :
      (id : String) → IsQuery (get_order_by_client_id settings client id)
  unfolding get_order_by_client_id fetch_by_client_id
  get_order_by_client_id-IsQuery id =
      bind-IsQuery _ _ enforce_paper_mode-IsQuery (λ _. record { at = λ w. refl })

  poll_once-store :
      (o : ExecutionOrder D) (w : World D P) → (poll_once settings client o w).1.store ≡ w.store
  unfolding poll_once
  poll_once-store o w = ground (
    arith,
    (get_order_by_id-IsQuery o.order_id).at w,
    (get_order_by_client_id-IsQuery o.client_order_id).at w,
  )

module _ {D P : Type 0} (key : String) where
  after_poll-remembers :
      (now : ℕ) (r : ExecutionResult D) (last : ExecutionStatus) (p : Poll D) (w : World D P)
      → remembers key (after_poll now r last p w).1.store ≡ remembers key w.store
  unfolding after_poll note_status
  after_poll-remembers now r last missing w = refl
  after_poll-remembers now r last failed w = refl
  after_poll-remembers now r last (seen o) w =
      ground (arith, remembers-update_status key r.execution_plan_id o.provider_status now w.store)

  go_on-remembers :
      (x : Round D) (k : ExecutionStatus → World D P → ExecutionResult D × World D P)
      (w : World D P)
      → ((s : ExecutionStatus) (v : World D P)
          → remembers key (k s v).1.store ≡ remembers key v.store)
      → remembers key (go_on x k w).1.store ≡ remembers key w.store
  unfolding go_on
  go_on-remembers (finished r) k w h = refl
  go_on-remembers (again s) k w h = h s w

module _ {D P : Type 0} (settings : Settings D) (client : TradingClient D P) (elapsed : ℕ → ℕ)
    (key : String) where
  track_loop-remembers :
      (fuel i now : ℕ) (r : ExecutionResult D) (o : ExecutionOrder D) (last : ExecutionStatus)
      (w : World D P)
      → remembers key (track_loop settings client elapsed fuel i now r o last w).1.store
        ≡ remembers key w.store
  unfolding track_loop
  track_loop-remembers zero i now r o last w = refl
  track_loop-remembers (suc fuel) i now r o last w =
      elim (Bool-cases (leb settings.execution_track_timeout_seconds (elapsed i))) [
        | inl e ↦ rw (e, track_loop)
        | inr e ↦
            let (found, w') = poll_once settings client o w in
            let (round, w'') = after_poll now r last found w' in
            rw (e, track_loop)
              (go_on-remembers key round _ w'' (track_loop-remembers fuel (i + 1) now r o)
                ∙ (after_poll-remembers key now r last found w'
                    ∙ ap (remembers key) (poll_once-store settings client o w)))
      ]

  pub track_order-remembers :
      (now : ℕ) (r : ExecutionResult D) (w : World D P)
      → remembers key (track_order settings client elapsed now r w).1.store ≡ remembers key w.store
  unfolding track_order
  track_order-remembers now r w = elim (Option-cases r.execution_order) [
    | inl e ↦ rw (e, track_order)
    | inr (o, e) ↦ rw (e, track_order) (track_loop-remembers _ 0 now r o o.status w)
  ]
