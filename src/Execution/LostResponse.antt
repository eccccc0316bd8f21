-- ===== src/Execution/LostResponse.antt =====
-- The adoption of an order whose acknowledgement was lost (backend/app/execution/idempotency.py,
-- store.py).
use alpha_council.Base.{
  String, ◌≡◌, refl, Bool, true, false, some, List, [], ◌∷◌, ◌++◌, any, arith, str_eq,
}
use alpha_council.Execution.Models.{
  ExecutionStoreRecord, ExecutionOrder, ExecutionPlan, ExecutionAuthorization, remove_ac,
}
use alpha_council.Execution.Validation.{Settings}
use alpha_council.Execution.Store.{Table, key_taken, upsert}
use alpha_council.Execution.World.{TradingClient, World, integrity_error, err, continue, ◌>>=◌}
use alpha_council.Execution.Idempotency.{save, adopted_record}
use alpha_council.Execution.Results.{Surroundings}
use alpha_council.Execution.Service.{with_provider}

any-append {ℓ} :
    {A : Type ℓ} (p : A → Bool) (xs ys : List A) (x : A)
    → p x ≡ true
    → any p (xs ++ (x ∷ ys)) ≡ true
any-append p [] ys x h = ground arith
any-append p (y ∷ xs) ys x h = ground (arith, any-append p xs ys x h)

-- If a row holds the client order id of the provider's order as its idempotency key, and its plan
-- id is not that text without "ac-", then adopting the order raises an IntegrityError: the call ends
-- in that error and nothing changes.
pub lost_response_blocks :
    {D P : Type 0} (settings : Settings D) (client : TradingClient D P) (env : Surroundings D)
    (p : ExecutionPlan D) (a : ExecutionAuthorization) (id key cid : String) (dry_run track : Bool)
    (o : ExecutionOrder D) (before after : Table) (r : ExecutionStoreRecord) (w : World D P)
    → w.store ≡ before ++ (r ∷ after)
    → str_eq r.idempotency_key o.client_order_id ≡ true
    → str_eq r.execution_plan_id (remove_ac o.client_order_id) ≡ false
    → with_provider settings client env p a id key cid dry_run track (some o) w
      ≡ (err integrity_error, w)
unfolding with_provider ◌>>=◌ continue save upsert adopted_record
lost_response_blocks settings client env p a id key cid dry_run track o before after r w stored same
      other =
    let taken : any (key_taken (adopted_record o)) w.store ≡ true =
      rw stored (any-append (key_taken (adopted_record o)) before after r (ground arith)) in
    rw (taken, continue) refl
