-- ===== src/Execution/Settled.antt =====
-- How a call that may have sent an order ends (backend/app/execution/service.py).
use alpha_council.Base.{
  String, ◌≡◌, refl, Bool, true, false, some, List, [], any, arith, Bool-cases, ◌∙◌, ◌⊎◌, inl, inr,
  ap, str_eq,
}
use mathlib.Core.Path.{subst⁻¹}
use alpha_council.Execution.Models.{
  ExecutionStatus, ExecutionOrder, ExecutionPlan, ExecutionAuthorization, ExecutionStoreRecord,
  ExecutionResult,
}
use alpha_council.Execution.Validation.{Settings}
use alpha_council.Execution.Store.{Table, put, upsert, key_taken, update_provider_info}
use alpha_council.Execution.World.{
  AlpacaOrder, OrderRequest, Reply, answered, not_found, failed, TradingClient, World, Error,
  integrity_error, Result, ok, err, Exec, continue, ◌>>=◌, recover, try_except, modify_store,
}
use alpha_council.Execution.Gateway.{
  normalize_order, required, enforce_paper_mode, send, submit_order,
}
use alpha_council.Execution.Idempotency.{save}
use alpha_council.Execution.Results.{Surroundings, request_of, result_of, pending_record}
use alpha_council.Execution.Service.{finish, submission, failure, submit_and_track}
use alpha_council.Execution.Remembered.{remembers, remembers-update_provider_info}
use alpha_council.Execution.Tracked.{submit_order-IsQuery, track_order-remembers}

-- The provider gives every order that it accepts an id.
unfoldable pub GivesIds : {D P : Type 0} → TradingClient D P → Type 0
GivesIds {D} {P} client =
    (r : OrderRequest D) (p : P) (o : AlpacaOrder D)
    → (client.submit_order r p).0 ≡ answered o
    → str_eq o.id "" ≡ false

-- The call raised, or its result says FAILED.
abbrev pub HasFailed : {D : Type 0} → Result (ExecutionResult D) → Type 0
HasFailed (ok r) = r.status ≡ ExecutionStatus.failed
HasFailed (err e) = Unit

module _ {D P : Type 0} (key : String) where
  -- The last of a chain of methods is reached and leaves a store that remembers, or the chain raised.
  unfoldable pub Remembers : {A : Type 0} → Result A × World D P → Type 0
  Remembers {A} out = ((e : Error) × (out.0 ≡ err e)) ⊎ (remembers key out.1.store ≡ true)

  continue-Remembers :
      {A B : Type 0} (r : Result A) (f : A → Exec D P B) (w : World D P)
      → ((a : A) → r ≡ ok a → Remembers (f a w))
      → Remembers (continue r f w)
  unfolding continue Remembers
  continue-Remembers (ok a) f w h = h a refl
  continue-Remembers (err e) f w h = inl (e, refl)

  bind-Remembers :
      {A B : Type 0} (m : Exec D P A) (f : A → Exec D P B) (w : World D P)
      → ((a : A) → (m w).0 ≡ ok a → Remembers (f a (m w).1))
      → Remembers ((m >>= f) w)
  unfolding ◌>>=◌
  bind-Remembers m f w h = let (r, w') = m w in continue-Remembers r f w' h

module _ {D P : Type 0} (settings : Settings D) (client : TradingClient D P) where
  required-named :
      (reply : Reply (AlpacaOrder D)) (o : ExecutionOrder D)
      → ((a : AlpacaOrder D) → reply ≡ answered a → str_eq a.id "" ≡ false)
      → required reply ≡ ok o
      → str_eq o.order_id "" ≡ false
  unfolding required normalize_order
  required-named (answered a) o h k = ground (arith, h a refl)
  required-named not_found o h k = ground arith
  required-named failed o h k = ground arith

  continue-named :
      (request : OrderRequest D) (r : Result (Unit {0})) (w : World D P) (o : ExecutionOrder D)
      → GivesIds client
      → (continue r (λ _. send settings client request) w).0 ≡ ok o
      → str_eq o.order_id "" ≡ false
  unfolding continue send GivesIds
  continue-named request (ok u) w o ids h =
      required-named (client.submit_order request w.provider).0 o (λ a. ids request w.provider a) h
  continue-named request (err e) w o ids h = ground arith

  submit_order-named :
      (request : OrderRequest D) (w : World D P) (o : ExecutionOrder D)
      → GivesIds client
      → (submit_order settings client request w).0 ≡ ok o
      → str_eq o.order_id "" ≡ false
  unfolding submit_order ◌>>=◌
  submit_order-named request w o ids h =
      let (r, w') = enforce_paper_mode settings client w in continue-named request r w' o ids h

module _ {D P : Type 0} where
  save-cases :
      (r : ExecutionStoreRecord) (w : World D P)
      → (save r w ≡ (err integrity_error, w))
        ⊎ ((any (key_taken r) w.store ≡ false)
            × (save r w ≡ (ok tt, record w { store = put r w.store })))
  unfolding save upsert
  save-cases r w = elim (Bool-cases (any (key_taken r) w.store)) [
    | inl taken ↦ inl (rw taken refl)
    | inr free ↦ inr (free, rw free refl)
  ]

module _ {D P : Type 0} (key : String) where
  unfoldable pub Settles : List (OrderRequest D) → Result (ExecutionResult D) × World D P → Type 0
  Settles journal out =
      (out.1.journal ≡ journal) ⊎ ((remembers key out.1.store ≡ true) ⊎ HasFailed out.0)

  recover-settled :
      (r : Result (ExecutionResult D)) (handler : Error → Exec D P (ExecutionResult D))
      (w : World D P)
      → Remembers key (r, w)
      → ((e : Error) → HasFailed (handler e w).0)
      → (remembers key (recover r handler w).1.store ≡ true) ⊎ HasFailed (recover r handler w).0
  unfolding recover Remembers
  recover-settled (ok a) handler w (inl (e, h)) k = ground arith
  recover-settled (ok a) handler w (inr h) k = inl h
  recover-settled (err e) handler w h k = inr (k e)

module _ {D P : Type 0} (settings : Settings D) (client : TradingClient D P)
    (env : Surroundings D) where
  finish-remembers :
      (key : String) (p : ExecutionPlan D) (a : ExecutionAuthorization) (id : String) (track : Bool)
      (o : ExecutionOrder D) (w : World D P)
      → remembers key (finish settings client env p a id track o w).1.store ≡ remembers key w.store
  unfolding finish
  finish-remembers key p a id track o w = ground (
    arith,
    track_order-remembers settings client env.elapsed key env.written_at
        (result_of p a id o.status (some o) [] (some o.submitted_at)) w,
  )

  submission-Remembers :
      (p : ExecutionPlan D) (a : ExecutionAuthorization) (id key cid : String) (track : Bool)
      (t : Table) (w : World D P)
      → GivesIds client
      → any (key_taken (pending_record env.written_at p id key cid)) t ≡ false
      → w.store ≡ put (pending_record env.written_at p id key cid) t
      → Remembers key (submission settings client env p a id cid track w)
  unfolding submission Remembers pending_record
  submission-Remembers p a id key cid track t w ids free stored =
      bind-Remembers key (submit_order settings client (request_of p cid)) _ w λ o sent.
        bind-Remembers key (modify_store _) _ (submit_order settings client (request_of p cid) w).1
          λ u done.
            let pending = pending_record env.written_at p id key cid in
            let written =
              update_provider_info env.written_at p.execution_plan_id o.order_id o.provider_status
                (some o.submitted_at) in
            inr (
              finish-remembers key p a id track o _
              ∙ (ap (λ s. remembers key (written s))
                    ((submit_order-IsQuery settings client (request_of p cid)).at w ∙ stored)
                  ∙ remembers-update_provider_info pending t env.written_at o.order_id
                      o.provider_status (some o.submitted_at) free
                      (submit_order-named settings client (request_of p cid) w o ids sent)))

  failure-HasFailed :
      (p : ExecutionPlan D) (a : ExecutionAuthorization) (id : String) (e : Error) (w : World D P)
      → HasFailed (failure settings client env p a id e w).0
  unfolding failure ◌>>=◌ continue
  failure-HasFailed p a id e w = refl

  pub submit_and_track-Settles :
      (p : ExecutionPlan D) (a : ExecutionAuthorization) (id key cid : String) (track : Bool)
      (w : World D P)
      → GivesIds client
      → Settles key w.journal (submit_and_track settings client env p a id key cid track w)
  unfolding submit_and_track Settles ◌>>=◌ continue try_except
  submit_and_track-Settles p a id key cid track w ids =
      let pending = pending_record env.written_at p id key cid in
      let rest =
        try_except (submission settings client env p a id cid track)
          (failure settings client env p a id) in
      let goal : Result Unit × World D P → Type 0 =
        λ x. Settles key w.journal (continue x.0 (λ u. rest) x.1) in
      elim (save-cases pending w) [
        | inl refused ↦ subst⁻¹ goal refused (inl refl)
        | inr (free, saved) ↦
            let w1 = record w { store = put pending w.store } in
            let (out, w2) = submission settings client env p a id cid track w1 in
            subst⁻¹ goal saved (
              inr (
                recover-settled key out (failure settings client env p a id) w2
                  (submission-Remembers p a id key cid track w.store w1 ids free refl)
                  (λ e. failure-HasFailed p a id e w2)))
      ]
