-- ===== src/Execution/Retry.antt =====
-- Executing a plan again (backend/app/execution/service.py, idempotency.py).
use alpha_council.Base.{
  String, ◌≡◌, ◌≢◌, refl, Bool, true, Option, none, some, arith, Bool-cases, inl, inr,
}
use alpha_council.Decimal.{Decimal}
use alpha_council.Instruments.Models.{InstrumentPlan}
use alpha_council.Risk.Models.{RiskEvaluation, RiskState}
use alpha_council.Execution.Models.{
  ExecutionPlan, ExecutionAuthorization, ExecutionStoreRecord, IdempotencyKey, is_authorized_state,
  key_to_string, client_order_id_of,
}
use alpha_council.Execution.Validation.{Settings, authorize}
use alpha_council.Execution.Planner.{Planned, build_execution_plan}
use alpha_council.Execution.Store.{get_by_idempotency_key}
use alpha_council.Execution.World.{TradingClient, World, ok, continue, ◌>>=◌}
use alpha_council.Execution.Idempotency.{generate_idempotency_key}
use alpha_council.Execution.Results.{Surroundings, lift, of_planned}
use alpha_council.Execution.Service.{with_local, keyed_execution, authorized_execution, execute}
use alpha_council.Execution.Sends.{Quiet-adopted_result}
use alpha_council.Execution.Remembered.{remembers, is_acknowledged}
use alpha_council.Execution.Settled.{GivesIds, HasFailed}
use alpha_council.Execution.NoDouble.{Ends, execute-Ends}

module _ {D P : Type 0} (settings : Settings D) (client : TradingClient D P)
    (env : Surroundings D) where
  with_local-remembered :
      (p : ExecutionPlan D) (a : ExecutionAuthorization) (id key cid : String)
      (dry_run track : Bool) (r : Option ExecutionStoreRecord) (w : World D P)
      → is_acknowledged r ≡ true
      → (with_local settings client env p a id key cid dry_run track r w).1.journal ≡ w.journal
  unfolding with_local
  with_local-remembered p a id key cid dry_run track none w h = ground arith
  with_local-remembered p a id key cid dry_run track (some r) w h =
      rw (h, with_local) ((Quiet-adopted_result settings client env p a r id).at w)

  module _ ⦃d : Decimal D⦄ where
    keyed_execution-remembered :
        (p : ExecutionPlan D) (a : ExecutionAuthorization) (id : String) (dry_run track : Bool)
        (k : IdempotencyKey D) (w : World D P)
        → remembers (key_to_string k) w.store ≡ true
        → (keyed_execution settings client env p a id dry_run track (ok k) w).1.journal ≡ w.journal
    unfolding keyed_execution remembers
    keyed_execution-remembered p a id dry_run track k w h =
        let key = key_to_string k in
        with_local-remembered p a id key (client_order_id_of key) dry_run track
          (get_by_idempotency_key key w.store) w h

    authorized_execution-remembered :
        (p : ExecutionPlan D) (a : ExecutionAuthorization) (ip : InstrumentPlan D)
        (e : RiskEvaluation D) (dry_run track : Bool) (k : IdempotencyKey D) (w : World D P)
        → generate_idempotency_key ip e ≡ ok k
        → remembers (key_to_string k) w.store ≡ true
        → (authorized_execution settings client env p a ip e dry_run track w).1.journal ≡ w.journal
    unfolding authorized_execution
    authorized_execution-remembered p a ip e dry_run track k w found h =
        elim (Bool-cases (is_authorized_state a.state)) [
          | inl allowed ↦
              rw (allowed, found, authorized_execution)
                (keyed_execution-remembered p a ip.plan_id dry_run track k w h)
          | inr refused ↦ rw (refused, authorized_execution) refl
        ]

    planned_execution-remembered :
        (m : Planned (ExecutionPlan D)) (ip : InstrumentPlan D) (e : RiskEvaluation D)
        (state : Option (RiskState D)) (dry_run track : Bool) (k : IdempotencyKey D) (w : World D P)
        → generate_idempotency_key ip e ≡ ok k
        → remembers (key_to_string k) w.store ≡ true
        → ((lift (of_planned m) >>= λ p.
              authorized_execution settings client env p
                (authorize settings env.authorized_at p ip e state)
                ip
                e
                dry_run
                track)
            w).1.journal
          ≡ w.journal
    unfolding ◌>>=◌ continue
    planned_execution-remembered (Planned.err x) ip e state dry_run track k w found h = refl
    planned_execution-remembered (Planned.ok p) ip e state dry_run track k w found h =
        authorized_execution-remembered p (authorize settings env.authorized_at p ip e state) ip e
          dry_run track k w found h

    -- If the store holds an order id under the idempotency key of a plan, executing that plan sends
    -- nothing, whatever the market, the broker and the provider answer.
    pub remembered_is_not_resent :
        (ip : InstrumentPlan D) (e : RiskEvaluation D) (state : Option (RiskState D))
        (dry_run track : Bool) (k : IdempotencyKey D) (w : World D P)
        → generate_idempotency_key ip e ≡ ok k
        → remembers (key_to_string k) w.store ≡ true
        → (execute settings client env ip e state dry_run track w).1.journal ≡ w.journal
    unfolding execute
    remembered_is_not_resent ip e state dry_run track k w found h =
        planned_execution-remembered
          (build_execution_plan settings env.planned_at env.latest_quote env.broker ip e) ip e state
          dry_run track k w found h

-- With a provider that gives every accepted order an id, a call of `execute` that sent an order and
-- did not fail is followed by no second order for the same plan and evaluation: executing it again
-- sends nothing, at any time and whatever the market, the broker and the risk state are then.
pub no_double_submission :
    {D P : Type 0} ⦃d : Decimal D⦄ (settings : Settings D) (client : TradingClient D P)
    (first second : Surroundings D) (ip : InstrumentPlan D) (e : RiskEvaluation D)
    (state state' : Option (RiskState D)) (dry_run dry_run' track track' : Bool) (w : World D P)
    → GivesIds client
    → let out = execute settings client first ip e state dry_run track w in
      out.1.journal ≢ w.journal
      → ¬ HasFailed out.0
      → (execute settings client second ip e state' dry_run' track' out.1).1.journal ≡ out.1.journal
unfolding Ends
no_double_submission settings client first second ip e state state' dry_run dry_run' track track' w
      ids sent succeeded =
    let out = execute settings client first ip e state dry_run track w in
    elim (execute-Ends settings client first ids ip e state dry_run track w) [
      | inl same ↦ absurd (sent same)
      | inr (inl lost) ↦ absurd (succeeded lost)
      | inr (inr (k, found, kept)) ↦
          remembered_is_not_resent settings client second ip e state' dry_run' track' k out.1 found
            kept
    ]
