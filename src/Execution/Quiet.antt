-- ===== src/Execution/Quiet.antt =====
-- Which methods send no order: the journal of the trading client is left as it was
-- (backend/app/execution/gateway.py, service.py, tracking.py, reconciliation.py).
use alpha_council.Base.{
  ℕ, String, ◌≡◌, refl, Bool, true, false, Option, none, some, List, [], ◌∷◌, arith, ◌∙◌,
  if◌then◌else◌,
}
use alpha_council.Execution.Models.{ExecutionOrder, ExecutionStoreRecord}
use alpha_council.Execution.Validation.{Settings}
use alpha_council.Execution.Store.{Table}
use alpha_council.Execution.World.{
  TradingClient, World, Error, Result, ok, err, Exec, pure, continue, ◌>>=◌, recover, try_except,
  modify_store,
}
use alpha_council.Execution.Gateway.{
  enforce_paper_mode, fetch_by_id, fetch_by_client_id, get_order_by_id, get_order_by_client_id,
  order_if_any,
}
use alpha_council.Execution.Idempotency.{save}
use alpha_council.Execution.Reconciliation.{
  by_client_id, reconcile_record, reconcile_each, reconcile_pending_executions,
}

module _ {D P : Type 0} where
  pub record Quiet {A : Type 0} (m : Exec D P A) : Type 0 where
    pub at : (w : World D P) → (m w).1.journal ≡ w.journal

  module _ {A : Type 0} where
    pub Quiet-pure : (a : A) → Quiet (pure {D = D} {P = P} a)
    Quiet-pure a = record { at = λ w. refl }

    pub Quiet-if : (b : Bool) (m n : Exec D P A) → Quiet m → Quiet n → Quiet (if b then m else n)
    Quiet-if true m n h k = h
    Quiet-if false m n h k = k

  module _ {A B : Type 0} where
    pub Quiet-continue :
        (r : Result A) (f : A → Exec D P B) → ((a : A) → Quiet (f a)) → Quiet (continue r f)
    unfolding continue
    Quiet-continue (ok a) f h = record { at = (h a).at }
    Quiet-continue (err e) f h = record { at = λ w. refl }

    pub Quiet-bind :
        (m : Exec D P A) (f : A → Exec D P B) → Quiet m → ((a : A) → Quiet (f a)) → Quiet (m >>= f)
    unfolding ◌>>=◌
    Quiet-bind m f h k = record {
      at = λ w. let (r, w') = m w in (Quiet-continue r f k).at w' ∙ h.at w;
    }

  module _ {A : Type 0} where
    pub Quiet-recover :
        (r : Result A) (h : Error → Exec D P A) → ((e : Error) → Quiet (h e)) → Quiet (recover r h)
    unfolding recover
    Quiet-recover (ok a) h k = record { at = λ w. refl }
    Quiet-recover (err e) h k = record { at = (k e).at }

    pub Quiet-try :
        (m : Exec D P A) (h : Error → Exec D P A)
        → Quiet m
        → ((e : Error) → Quiet (h e))
        → Quiet (try_except m h)
    unfolding try_except
    Quiet-try m h q k = record {
      at = λ w. let (r, w') = m w in (Quiet-recover r h k).at w' ∙ q.at w;
    }

  pub Quiet-modify_store : (f : Table → Table) → Quiet (modify_store {D = D} {P = P} f)
  Quiet-modify_store f = record { at = λ w. refl }

  pub Quiet-save : (r : ExecutionStoreRecord) → Quiet (save {D = D} {P = P} r)
  unfolding save
  Quiet-save r = record { at = λ w. ground arith }

  pub ruleset quiet_rules =
      (Quiet-pure, Quiet-if, Quiet-bind, Quiet-try, Quiet-modify_store, Quiet-save)

module _ {D P : Type 0} (settings : Settings D) (client : TradingClient D P) where
  pub Quiet-enforce : Quiet (enforce_paper_mode settings client)
  unfolding enforce_paper_mode
  Quiet-enforce = record { at = λ w. ground arith }

  Quiet-fetch_by_id : (id : String) → Quiet (fetch_by_id settings client id)
  unfolding fetch_by_id
  Quiet-fetch_by_id id = record { at = λ w. refl }

  Quiet-fetch_by_client_id : (id : String) → Quiet (fetch_by_client_id settings client id)
  unfolding fetch_by_client_id
  Quiet-fetch_by_client_id id = record { at = λ w. refl }

  pub Quiet-get_order_by_id : (id : String) → Quiet (get_order_by_id settings client id)
  unfolding get_order_by_id
  Quiet-get_order_by_id id = Quiet-bind _ _ Quiet-enforce (λ _. Quiet-fetch_by_id id)

  pub Quiet-get_order_by_client_id :
      (id : String) → Quiet (get_order_by_client_id settings client id)
  unfolding get_order_by_client_id
  Quiet-get_order_by_client_id id = Quiet-bind _ _ Quiet-enforce (λ _. Quiet-fetch_by_client_id id)

  pub Quiet-order_if_any : (id : Option String) → Quiet (order_if_any settings client id)
  unfolding order_if_any
  Quiet-order_if_any none = Quiet-pure none
  Quiet-order_if_any (some id) = Quiet-if _ _ _ (Quiet-pure none) (
      Quiet-try _ _ (Quiet-bind _ _ (Quiet-get_order_by_id id) (λ o. Quiet-pure (some o)))
        (λ e. Quiet-pure none))

  Quiet-by_client_id :
      (r : ExecutionStoreRecord) (o : Option (ExecutionOrder D))
      → Quiet (by_client_id settings client r o)
  unfolding by_client_id
  Quiet-by_client_id r (some o) = Quiet-pure (some o)
  Quiet-by_client_id r none =
      Quiet-if _ _ _ (Quiet-pure none)
        (Quiet-try _ _ (Quiet-get_order_by_client_id r.client_order_id) (λ e. Quiet-pure none))

  module _ (now : ℕ) where
    Quiet-reconcile_record :
        (r : ExecutionStoreRecord) → Quiet (reconcile_record settings client now r)
    unfolding reconcile_record
    Quiet-reconcile_record r = Quiet-bind _ _ (Quiet-order_if_any r.provider_order_id) (λ first.
        Quiet-bind _ _ (Quiet-by_client_id r first)
          (λ found. Quiet-bind _ _ (Quiet-modify_store _) (λ _. Quiet-pure _)))

    Quiet-reconcile_each :
        (rs : List ExecutionStoreRecord) → Quiet (reconcile_each settings client now rs)
    unfolding reconcile_each
    Quiet-reconcile_each [] = Quiet-pure []
    Quiet-reconcile_each (r ∷ rs) =
        Quiet-bind _ _ (Quiet-reconcile_record r)
          (λ result. Quiet-bind _ _ (Quiet-reconcile_each rs) (λ rest. Quiet-pure _))

    -- Crash recovery sends no order, whatever the store holds and the provider answers.
    pub Quiet-reconcile_pending_executions :
        Quiet (reconcile_pending_executions settings client now)
    unfolding reconcile_pending_executions
    Quiet-reconcile_pending_executions = record { at = λ w. (Quiet-reconcile_each _).at w }
