-- ===== src/Execution/NoDouble.antt =====
-- What a call of `execute` leaves behind for the next one (backend/app/execution/service.py).
use alpha_council.Base.{
  String, ◌≡◌, refl, Bool, true, false, Option, none, some, List, Bool-cases, ◌∙◌, ◌⊎◌, inl, inr,
  if◌then◌else◌,
}
use alpha_council.Decimal.{Decimal}
use alpha_council.Instruments.Models.{InstrumentPlan}
use alpha_council.Risk.Models.{RiskEvaluation, RiskState}
use alpha_council.Execution.Models.{
  ExecutionOrder, ExecutionPlan, ExecutionAuthorization, ExecutionStoreRecord, ExecutionResult,
  IdempotencyKey, is_authorized_state, key_to_string, client_order_id_of,
}
use alpha_council.Execution.Validation.{Settings, authorize}
use alpha_council.Execution.Planner.{Planned, build_execution_plan}
use alpha_council.Execution.Store.{get_by_idempotency_key, has_order_id}
use alpha_council.Execution.World.{
  OrderRequest, TradingClient, World, Result, ok, err, Exec, continue, ◌>>=◌,
}
use alpha_council.Execution.Gateway.{get_order_by_client_id}
use alpha_council.Execution.Idempotency.{save, generate_idempotency_key, adopted_record}
use alpha_council.Execution.Results.{Surroundings, lift, of_planned}
use alpha_council.Execution.Service.{
  no_duplicate, with_provider, check_provider, with_local, keyed_execution, authorized_execution,
  execute,
}
use alpha_council.Execution.Quiet.{Quiet-bind, Quiet-save, Quiet-get_order_by_client_id}
use alpha_council.Execution.Sends.{Quiet-adopted_result}
use alpha_council.Execution.Remembered.{remembers}
use alpha_council.Execution.Settled.{GivesIds, HasFailed, Settles, submit_and_track-Settles}

Settles-if :
    {D P : Type 0} (journal : List (OrderRequest D)) (key : String) (b : Bool)
    (m n : Exec D P (ExecutionResult D)) (w : World D P)
    → Settles key journal (m w)
    → Settles key journal (n w)
    → Settles key journal ((if b then m else n) w)
Settles-if journal key true m n w h k = h
Settles-if journal key false m n w h k = k

quiet-Settles :
    {D P : Type 0} (journal : List (OrderRequest D)) (out : Result (ExecutionResult D) × World D P)
    (key : String)
    → out.1.journal ≡ journal
    → Settles key journal out
unfolding Settles
quiet-Settles journal out key h = inl h

module _ {D P : Type 0} (settings : Settings D) (client : TradingClient D P) (env : Surroundings D)
    (ids : GivesIds client) where
  no_duplicate-Settles :
      (p : ExecutionPlan D) (a : ExecutionAuthorization) (id key cid : String)
      (dry_run track : Bool) (w : World D P)
      → Settles key w.journal (no_duplicate settings client env p a id key cid dry_run track w)
  unfolding no_duplicate Settles
  no_duplicate-Settles p a id key cid true track w = inl refl
  no_duplicate-Settles p a id key cid false track w =
      submit_and_track-Settles settings client env p a id key cid track w ids

  with_provider-Settles :
      (p : ExecutionPlan D) (a : ExecutionAuthorization) (id key cid : String)
      (dry_run track : Bool) (o : Option (ExecutionOrder D)) (w : World D P)
      → Settles key w.journal (with_provider settings client env p a id key cid dry_run track o w)
  unfolding with_provider Settles
  with_provider-Settles p a id key cid dry_run track none w =
      no_duplicate-Settles p a id key cid dry_run track w
  with_provider-Settles p a id key cid dry_run track (some o) w = inl (
      (Quiet-bind (save (adopted_record o)) _ (Quiet-save _)
          (λ _. Quiet-adopted_result settings client env p a _ id)).at
        w)

  continue-Settles :
      (key : String) (journal : List (OrderRequest D)) (r : Result (Option (ExecutionOrder D)))
      (f : Option (ExecutionOrder D) → Exec D P (ExecutionResult D)) (w : World D P)
      → w.journal ≡ journal
      → ((o : Option (ExecutionOrder D)) → Settles key w.journal (f o w))
      → Settles key journal (continue r f w)
  unfolding continue Settles
  continue-Settles key journal (err e) f w same h = inl same
  continue-Settles key journal (ok o) f w same h = elim (h o) [
    | inl quiet ↦ inl (quiet ∙ same)
    | inr other ↦ inr other
  ]

  check_provider-Settles :
      (p : ExecutionPlan D) (a : ExecutionAuthorization) (id key cid : String)
      (dry_run track : Bool) (w : World D P)
      → Settles key w.journal (check_provider settings client env p a id key cid dry_run track w)
  unfolding check_provider ◌>>=◌
  check_provider-Settles p a id key cid dry_run track w =
      let (r, w1) = get_order_by_client_id settings client cid w in
      continue-Settles key w.journal r _ w1
        ((Quiet-get_order_by_client_id settings client cid).at w)
        (λ o. with_provider-Settles p a id key cid dry_run track o w1)

  with_local-Settles :
      (p : ExecutionPlan D) (a : ExecutionAuthorization) (id key cid : String)
      (dry_run track : Bool) (r : Option ExecutionStoreRecord) (w : World D P)
      → Settles key w.journal (with_local settings client env p a id key cid dry_run track r w)
  unfolding with_local
  with_local-Settles p a id key cid dry_run track none w =
      check_provider-Settles p a id key cid dry_run track w
  with_local-Settles p a id key cid dry_run track (some r) w =
      Settles-if w.journal key (has_order_id r.provider_order_id) _ _ w
        (quiet-Settles w.journal _ key ((Quiet-adopted_result settings client env p a r id).at w))
        (check_provider-Settles p a id key cid dry_run track w)

  module _ ⦃d : Decimal D⦄ where
    -- Nothing was sent, the call failed, or the store remembers the order under its key.
    unfoldable pub Ends :
        List (OrderRequest D)
        → Result (IdempotencyKey D)
        → Result (ExecutionResult D) × World D P
        → Type 0
    Ends journal found out =
        (out.1.journal ≡ journal)
        ⊎ (HasFailed out.0
            ⊎ ((k : IdempotencyKey D) × (found ≡ ok k)
                × (remembers (key_to_string k) out.1.store ≡ true)))

    keyed_execution-Ends :
        (p : ExecutionPlan D) (a : ExecutionAuthorization) (id : String) (dry_run track : Bool)
        (r : Result (IdempotencyKey D)) (w : World D P)
        → Ends w.journal r (keyed_execution settings client env p a id dry_run track r w)
    unfolding keyed_execution Ends Settles
    keyed_execution-Ends p a id dry_run track (err e) w = inl refl
    keyed_execution-Ends p a id dry_run track (ok k) w =
        let key = key_to_string k in
        elim (with_local-Settles p a id key (client_order_id_of key) dry_run track
          (get_by_idempotency_key key w.store) w) [
            | inl quiet ↦ inl quiet
            | inr other ↦ inr (elim other [ inl kept ↦ inr (k, refl, kept) | inr lost ↦ inl lost ])
          ]

    authorized_execution-Ends :
        (p : ExecutionPlan D) (a : ExecutionAuthorization) (ip : InstrumentPlan D)
        (e : RiskEvaluation D) (dry_run track : Bool) (w : World D P)
        → Ends w.journal
            (generate_idempotency_key ip e)
            (authorized_execution settings client env p a ip e dry_run track w)
    unfolding authorized_execution Ends
    authorized_execution-Ends p a ip e dry_run track w =
        elim (Bool-cases (is_authorized_state a.state)) [
          | inl allowed ↦
              rw (allowed, authorized_execution)
                (keyed_execution-Ends p a ip.plan_id dry_run track (generate_idempotency_key ip e)
                  w)
          | inr refused ↦ rw (refused, authorized_execution) (inl refl)
        ]

    planned_execution-Ends :
        (m : Planned (ExecutionPlan D)) (ip : InstrumentPlan D) (e : RiskEvaluation D)
        (state : Option (RiskState D)) (dry_run track : Bool) (w : World D P)
        → Ends w.journal (generate_idempotency_key ip e) (
            (lift (of_planned m) >>= λ p.
            authorized_execution settings client env p
              (authorize settings env.authorized_at p ip e state)
              ip
              e
              dry_run
              track)
              w)
    unfolding ◌>>=◌ continue Ends
    planned_execution-Ends (Planned.err x) ip e state dry_run track w = inl refl
    planned_execution-Ends (Planned.ok p) ip e state dry_run track w =
        authorized_execution-Ends p (authorize settings env.authorized_at p ip e state) ip e dry_run
          track w

    pub execute-Ends :
        (ip : InstrumentPlan D) (e : RiskEvaluation D) (state : Option (RiskState D))
        (dry_run track : Bool) (w : World D P)
        → Ends w.journal
            (generate_idempotency_key ip e)
            (execute settings client env ip e state dry_run track w)
    unfolding execute
    execute-Ends ip e state dry_run track w =
        planned_execution-Ends
          (build_execution_plan settings env.planned_at env.latest_quote env.broker ip e) ip e state
          dry_run track w
