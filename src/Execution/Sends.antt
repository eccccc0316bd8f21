-- ===== src/Execution/Sends.antt =====
-- Which methods may send an order, and which one (backend/app/execution/service.py, tracking.py).
use alpha_council.Base.{
  String, ◌≡◌, refl, Bool, true, false, some, [], ◌∷◌, arith, ◌⊎◌, inl, inr, if◌then◌else◌,
}
use alpha_council.Execution.Models.{
  ExecutionOrder, ExecutionPlan, ExecutionAuthorization, ExecutionStoreRecord,
}
use alpha_council.Execution.Validation.{Settings}
use alpha_council.Execution.World.{
  TradingClient, OrderRequest, World, Error, Result, ok, err, Exec, continue, ◌>>=◌, try_except,
}
use alpha_council.Execution.Gateway.{submit_order, send}
use alpha_council.Execution.Polls.{track_order-journal}
use alpha_council.Execution.Results.{Surroundings, request_of, result_of}
use alpha_council.Execution.Service.{adopted_result, finish, submission, failure, submit_and_track}
use alpha_council.Execution.Quiet.{
  Quiet, Quiet-pure, Quiet-bind, Quiet-continue, Quiet-recover, Quiet-modify_store, Quiet-save,
  Quiet-enforce, Quiet-order_if_any,
}

-- At most one order is sent, it is `request`, and then `May` holds.
pub record Sends {D P : Type 0} (May : Type 0) (request : OrderRequest D) {A : Type 0}
    (m : Exec D P A) : Type 0 where
  pub at :
      (w : World D P)
      → ((m w).1.journal ≡ w.journal) ⊎ (May × ((m w).1.journal ≡ request ∷ w.journal))

module _ {D P : Type 0} {May : Type 0} (request : OrderRequest D) where
  pub Sends-Quiet : {A : Type 0} {m : Exec D P A} → Quiet m → Sends May request m
  Sends-Quiet q = record { at = λ w. inl (q.at w) }

  pub Sends-if :
      {A : Type 0} (b : Bool) (m n : Exec D P A)
      → (b ≡ true → Sends May request m)
      → (b ≡ false → Sends May request n)
      → Sends May request (if b then m else n)
  Sends-if true m n h k = h refl
  Sends-if false m n h k = k refl

  module _ {A B : Type 0} where
    Sends-continue :
        (r : Result A) (f : A → Exec D P B)
        → ((a : A) → Sends May request (f a))
        → Sends May request (continue r f)
    unfolding continue
    Sends-continue (ok a) f h = record { at = (h a).at }
    Sends-continue (err e) f h = record { at = λ w. inl refl }

    -- What comes first sends nothing.
    pub Sends-after :
        (m : Exec D P A) (f : A → Exec D P B)
        → Quiet m
        → ((a : A) → Sends May request (f a))
        → Sends May request (m >>= f)
    unfolding ◌>>=◌
    Sends-after m f q h = record {
      at = λ w. let (r, w') = m w in ground (arith, q.at w, (Sends-continue r f h).at w');
    }

    -- What comes last sends nothing.
    Sends-before :
        (m : Exec D P A) (f : A → Exec D P B)
        → Sends May request m
        → ((a : A) → Quiet (f a))
        → Sends May request (m >>= f)
    unfolding ◌>>=◌
    Sends-before m f h q = record {
      at = λ w. let (r, w') = m w in ground (arith, h.at w, (Quiet-continue r f q).at w');
    }

  Sends-try :
      {A : Type 0} (m : Exec D P A) (h : Error → Exec D P A)
      → Sends May request m
      → ((e : Error) → Quiet (h e))
      → Sends May request (try_except m h)
  unfolding try_except
  Sends-try m h s q = record {
    at = λ w. let (r, w') = m w in ground (arith, s.at w, (Quiet-recover r h q).at w');
  }

module _ {D P May : Type 0} (settings : Settings D) (client : TradingClient D P) where
  Sends-submit_order :
      May → (request : OrderRequest D) → Sends May request (submit_order settings client request)
  unfolding submit_order send
  Sends-submit_order may request =
      Sends-after request _ _ (Quiet-enforce settings client)
        (λ _. record { at = λ w. inr (may, refl) })

module _ {D P : Type 0} (settings : Settings D) (client : TradingClient D P)
    (env : Surroundings D) where
  Quiet-finish :
      (p : ExecutionPlan D) (a : ExecutionAuthorization) (id : String) (track : Bool)
      (o : ExecutionOrder D)
      → Quiet (finish settings client env p a id track o)
  unfolding finish
  Quiet-finish p a id track o = record {
    at = λ w. ground (
      arith,
      track_order-journal settings client env.elapsed env.written_at
          (result_of p a id o.status (some o) [] (some o.submitted_at)) w,
    );
  }

  pub Quiet-adopted_result :
      (p : ExecutionPlan D) (a : ExecutionAuthorization) (r : ExecutionStoreRecord) (id : String)
      → Quiet (adopted_result settings client env p a r id)
  unfolding adopted_result
  Quiet-adopted_result p a r id =
      Quiet-bind _ _ (Quiet-order_if_any settings client r.provider_order_id) (λ o. Quiet-pure _)

  Quiet-failure :
      (p : ExecutionPlan D) (a : ExecutionAuthorization) (id : String) (e : Error)
      → Quiet (failure settings client env p a id e)
  unfolding failure
  Quiet-failure p a id e = Quiet-bind _ _ (Quiet-modify_store _) (λ _. Quiet-pure _)

module _ {D P May : Type 0} (settings : Settings D) (client : TradingClient D P)
    (env : Surroundings D) where
  Sends-submission :
      May
      → (p : ExecutionPlan D) (a : ExecutionAuthorization) (id cid : String) (track : Bool)
      → Sends May (request_of p cid) (submission settings client env p a id cid track)
  unfolding submission
  Sends-submission may p a id cid track =
      Sends-before _ _ _ (Sends-submit_order settings client may _) (λ o.
        Quiet-bind _ _ (Quiet-modify_store _)
          (λ _. Quiet-finish settings client env p a id track o))

  pub Sends-submit_and_track :
      May
      → (p : ExecutionPlan D) (a : ExecutionAuthorization) (id key cid : String) (track : Bool)
      → Sends May (request_of p cid) (submit_and_track settings client env p a id key cid track)
  unfolding submit_and_track
  Sends-submit_and_track may p a id key cid track = Sends-after _ _ _ (Quiet-save _) (λ _.
      Sends-try _ _ _ (Sends-submission may p a id cid track)
        (Quiet-failure settings client env p a id))
