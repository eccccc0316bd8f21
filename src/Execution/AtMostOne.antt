-- ===== src/Execution/AtMostOne.antt =====
-- When a call of `execute` sends an order, and which one (backend/app/execution/service.py).
use alpha_council.Base.{
  String, ◌≡◌, refl, Bool, true, false, Option, none, some, ◌∷◌, Bool-cases, ◌⊎◌, inl, inr,
}
use alpha_council.Decimal.{Decimal}
use alpha_council.Instruments.Models.{InstrumentPlan}
use alpha_council.Risk.Models.{RiskEvaluation, RiskState}
use alpha_council.Execution.Models.{
  ExecutionOrder, ExecutionPlan, ExecutionAuthorization, IdempotencyKey, ExecutionStoreRecord,
  is_authorized, is_authorized_state, key_to_string, client_order_id_of,
}
use alpha_council.Execution.Validation.{Settings, authorize}
use alpha_council.Execution.Planner.{Planned, build_execution_plan}
use alpha_council.Execution.Store.{get_by_idempotency_key, has_order_id}
use alpha_council.Execution.World.{TradingClient, World, Result, ok, err, continue, ◌>>=◌}
use alpha_council.Execution.Idempotency.{generate_idempotency_key}
use alpha_council.Execution.Results.{Surroundings, lift, of_planned, request_of}
use alpha_council.Execution.Service.{
  no_duplicate, with_provider, check_provider, with_local, keyed_execution, authorized_execution,
  execute,
}
use alpha_council.Execution.Quiet.{Quiet-pure, Quiet-bind, Quiet-save, Quiet-get_order_by_client_id}
use alpha_council.Execution.Sends.{
  Sends, Sends-Quiet, Sends-if, Sends-after, Sends-submit_and_track, Quiet-adopted_result,
}

module _ {D P : Type 0} (settings : Settings D) (client : TradingClient D P)
    (env : Surroundings D) where
  Sends-no_duplicate :
      (p : ExecutionPlan D) (a : ExecutionAuthorization) (id key cid : String)
      (dry_run track : Bool)
      → Sends
          (dry_run ≡ false)
          (request_of p cid)
          (no_duplicate settings client env p a id key cid dry_run track)
  unfolding no_duplicate
  Sends-no_duplicate p a id key cid dry_run track =
      Sends-if _ dry_run _ _ (λ _. Sends-Quiet _ (Quiet-pure _))
        (λ live. Sends-submit_and_track settings client env live p a id key cid track)

  Sends-with_provider :
      (p : ExecutionPlan D) (a : ExecutionAuthorization) (id key cid : String)
      (dry_run track : Bool) (o : Option (ExecutionOrder D))
      → Sends
          (dry_run ≡ false)
          (request_of p cid)
          (with_provider settings client env p a id key cid dry_run track o)
  unfolding with_provider
  Sends-with_provider p a id key cid dry_run track none =
      Sends-no_duplicate p a id key cid dry_run track
  Sends-with_provider p a id key cid dry_run track (some o) =
      Sends-Quiet _
        (Quiet-bind _ _ (Quiet-save _) (λ _. Quiet-adopted_result settings client env p a _ id))

  Sends-check_provider :
      (p : ExecutionPlan D) (a : ExecutionAuthorization) (id key cid : String)
      (dry_run track : Bool)
      → Sends
          (dry_run ≡ false)
          (request_of p cid)
          (check_provider settings client env p a id key cid dry_run track)
  unfolding check_provider
  Sends-check_provider p a id key cid dry_run track =
      Sends-after _ _ _ (Quiet-get_order_by_client_id settings client cid)
        (Sends-with_provider p a id key cid dry_run track)

  Sends-with_local :
      (p : ExecutionPlan D) (a : ExecutionAuthorization) (id key cid : String)
      (dry_run track : Bool) (r : Option ExecutionStoreRecord)
      → Sends
          (dry_run ≡ false)
          (request_of p cid)
          (with_local settings client env p a id key cid dry_run track r)
  unfolding with_local
  Sends-with_local p a id key cid dry_run track none =
      Sends-check_provider p a id key cid dry_run track
  Sends-with_local p a id key cid dry_run track (some r) =
      Sends-if _ (has_order_id r.provider_order_id) _ _
        (λ _. Sends-Quiet _ (Quiet-adopted_result settings client env p a r id))
        (λ _. Sends-check_provider p a id key cid dry_run track)

  module _ ⦃d : Decimal D⦄ where
    keyed_execution-sends :
        (p : ExecutionPlan D) (a : ExecutionAuthorization) (id : String) (dry_run track : Bool)
        (r : Result (IdempotencyKey D)) (w : World D P)
        → let after = (keyed_execution settings client env p a id dry_run track r w).1.journal in
          (after ≡ w.journal)
          ⊎ ((k : IdempotencyKey D) × (r ≡ ok k)
              × (dry_run ≡ false)
              × (after ≡ request_of p (client_order_id_of (key_to_string k)) ∷ w.journal))
    unfolding keyed_execution
    keyed_execution-sends p a id dry_run track (err e) w = inl refl
    keyed_execution-sends p a id dry_run track (ok k) w =
        elim ((Sends-with_local p a id (key_to_string k) (client_order_id_of (key_to_string k))
            dry_run track (get_by_idempotency_key (key_to_string k) w.store)).at
          w) [ inl same ↦ inl same | inr (live, sent) ↦ inr (k, refl, live, sent) ]

    authorized_execution-sends :
        (p : ExecutionPlan D) (a : ExecutionAuthorization) (ip : InstrumentPlan D)
        (e : RiskEvaluation D) (dry_run track : Bool) (w : World D P)
        → let after =
            (authorized_execution settings client env p a ip e dry_run track w).1.journal in
          (after ≡ w.journal)
          ⊎ ((k : IdempotencyKey D) × (is_authorized_state a.state ≡ true)
              × (generate_idempotency_key ip e ≡ ok k)
              × (dry_run ≡ false)
              × (after ≡ request_of p (client_order_id_of (key_to_string k)) ∷ w.journal))
    unfolding authorized_execution
    authorized_execution-sends p a ip e dry_run track w =
        elim (Bool-cases (is_authorized_state a.state)) [
          | inr refused ↦ inl (rw (refused, authorized_execution) refl)
          | inl allowed ↦
              rw (allowed, authorized_execution)
                (elim (keyed_execution-sends p a ip.plan_id dry_run track
                  (generate_idempotency_key ip e) w) [
                    | inl same ↦ inl same
                    | inr (k, found, live, sent) ↦ inr (k, refl, found, live, sent)
                  ])
        ]

    planned_execution-sends :
        (m : Planned (ExecutionPlan D)) (ip : InstrumentPlan D) (e : RiskEvaluation D)
        (state : Option (RiskState D)) (dry_run track : Bool) (w : World D P)
        → let after =
            (lift (of_planned m) >>= λ p.
            authorized_execution settings client env p
              (authorize settings env.authorized_at p ip e state)
              ip
              e
              dry_run
              track)
              w in
          (after.1.journal ≡ w.journal)
          ⊎ ((p : ExecutionPlan D) × (k : IdempotencyKey D) × (m ≡ Planned.ok p)
              × (is_authorized (authorize settings env.authorized_at p ip e state) ≡ true)
              × (generate_idempotency_key ip e ≡ ok k)
              × (dry_run ≡ false)
              × (after.1.journal ≡ request_of p (client_order_id_of (key_to_string k)) ∷ w.journal))
    unfolding ◌>>=◌ continue
    planned_execution-sends (Planned.err x) ip e state dry_run track w = inl refl
    planned_execution-sends (Planned.ok p) ip e state dry_run track w =
        elim (authorized_execution-sends p (authorize settings env.authorized_at p ip e state) ip e
          dry_run track w) [
            | inl same ↦ inl same
            | inr (k, allowed, found, live, sent) ↦ inr (p, k, refl, allowed, found, live, sent)
          ]

    -- A call of `execute` sends no order, or exactly one: then the plan could be built, it was
    -- authorized, the call is not a dry run, and the order is the plan's, under the client id of the
    -- idempotency key.
    pub execute_sends :
        (ip : InstrumentPlan D) (e : RiskEvaluation D) (state : Option (RiskState D))
        (dry_run track : Bool) (w : World D P)
        → let after = (execute settings client env ip e state dry_run track w).1.journal in
          (after ≡ w.journal)
          ⊎ ((p : ExecutionPlan D) × (k : IdempotencyKey D) × (build_execution_plan settings
                  env.planned_at env.latest_quote env.broker ip e
                ≡ Planned.ok p)
              × (is_authorized (authorize settings env.authorized_at p ip e state) ≡ true)
              × (generate_idempotency_key ip e ≡ ok k)
              × (dry_run ≡ false)
              × (after ≡ request_of p (client_order_id_of (key_to_string k)) ∷ w.journal))
    unfolding execute
    execute_sends ip e state dry_run track w =
        planned_execution-sends
          (build_execution_plan settings env.planned_at env.latest_quote env.broker ip e) ip e state
          dry_run track w
