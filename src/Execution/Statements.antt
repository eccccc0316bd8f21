-- ===== src/Execution/Statements.antt =====
-- What the statements of the store do to its table (backend/app/execution/store.py).
use mathlib.Core.Path.{subst}
use alpha_council.Base.{
  ℕ, String, ◌≡◌, refl, sym, ◌∙◌, true, false, Option, none, some, List, [], ◌∷◌, arith, All, any,
  Bool-cases, inl, inr, str_eq, str_eq_iff,
}
use alpha_council.Execution.Models.{ExecutionStoreRecord}
use alpha_council.Execution.Store.{
  Table, Written, written, integrity_error, same_plan, key_taken, put, upsert,
  get_by_idempotency_key, get_by_execution_plan_id, update_where, update_provider_info,
  update_status,
}
use alpha_council.Execution.Keys.{AreApart, IsKeyed, put-IsKeyed}

-- A statement that writes.
pub data Statement : Type 0 where
  insert : ExecutionStoreRecord → Statement
  provider_info : ℕ → String → String → String → Option ℕ → Statement
  status : ℕ → String → String → Statement

-- An IntegrityError rolls the statement back.
abbrev pub table_after : Written → Table → Table
table_after (written t) old = t
table_after integrity_error old = old

unfoldable pub run : Statement → Table → Table
run (insert r) t = table_after (upsert r t) t
run (provider_info now id order text submitted) t =
    update_provider_info now id order text submitted t
run (status now id text) t = update_status now id text t

unfoldable pub run_all : List Statement → Table → Table
run_all [] t = t
run_all (s ∷ ss) t = run_all ss (run s t)

module _ (id : String) (f : ExecutionStoreRecord → ExecutionStoreRecord) where
  update_where-All :
      (x x' : ExecutionStoreRecord) (t : Table)
      → ((r : ExecutionStoreRecord)
          → ((f r).execution_plan_id ≡ r.execution_plan_id)
            × ((f r).idempotency_key ≡ r.idempotency_key))
      → x'.execution_plan_id ≡ x.execution_plan_id
      → x'.idempotency_key ≡ x.idempotency_key
      → All (AreApart x) t
      → All (AreApart x') (update_where id f t)
  unfolding update_where
  update_where-All x x' [] keeps plan key h = tt
  update_where-All x x' (y ∷ t) keeps plan key ((p, k), h) = (
    elim (Bool-cases (same_plan id y)) [
      | inl e ↦ rw e ((λ q. p (sym plan ∙ (q ∙ (keeps y).0))), λ q. k (sym key ∙ (q ∙ (keeps y).1)))
      | inr e ↦ rw e ((λ q. p (sym plan ∙ q)), λ q. k (sym key ∙ q))
    ],
    update_where-All x x' t keeps plan key h,
  )

  update_where-IsKeyed :
      (t : Table)
      → ((r : ExecutionStoreRecord)
          → ((f r).execution_plan_id ≡ r.execution_plan_id)
            × ((f r).idempotency_key ≡ r.idempotency_key))
      → IsKeyed t
      → IsKeyed (update_where id f t)
  unfolding update_where IsKeyed
  update_where-IsKeyed [] keeps h = tt
  update_where-IsKeyed (x ∷ t) keeps (apart, rest) = (
    elim (Bool-cases (same_plan id x)) [
      | inl e ↦ rw e (update_where-All x (f x) t keeps (keeps x).0 (keeps x).1 apart)
      | inr e ↦ rw e (update_where-All x x t keeps refl refl apart)
    ],
    update_where-IsKeyed t keeps rest,
  )

run-IsKeyed : (s : Statement) (t : Table) → IsKeyed t → IsKeyed (run s t)
unfolding run upsert update_provider_info update_status
run-IsKeyed (insert r) t h = elim (Bool-cases (any (key_taken r) t)) [
  | inl taken ↦ rw taken h
  | inr free ↦ rw free (put-IsKeyed r t free h)
]
run-IsKeyed (provider_info now id order text submitted) t h =
    update_where-IsKeyed id _ t (λ r. (refl, refl)) h
run-IsKeyed (status now id text) t h = update_where-IsKeyed id _ t (λ r. (refl, refl)) h

-- However the store is written, starting from a table that satisfies the constraints: no two rows
-- ever share a plan id or an idempotency key.
pub run_all-IsKeyed : (ss : List Statement) (t : Table) → IsKeyed t → IsKeyed (run_all ss t)
unfolding run_all
run_all-IsKeyed [] t h = h
run_all-IsKeyed (s ∷ ss) t h = run_all-IsKeyed ss (run s t) (run-IsKeyed s t h)

eq_refl : (s : String) → str_eq s s ≡ true
eq_refl s = (str_eq_iff s s).1 refl

-- The row of a plan, read by its plan id, after it was written.
unfoldable written_row : ExecutionStoreRecord → Option ExecutionStoreRecord → ExecutionStoreRecord
written_row r none = r
written_row r (some old) = record r { created_at = old.created_at }

find-put :
    (r : ExecutionStoreRecord) (t : Table)
    → any (key_taken r) t ≡ false
    → (get_by_execution_plan_id r.execution_plan_id (put r t)
        ≡ some (written_row r (get_by_execution_plan_id r.execution_plan_id t)))
      × (get_by_idempotency_key r.idempotency_key (put r t)
          ≡ some (written_row r (get_by_execution_plan_id r.execution_plan_id t)))
unfolding put get_by_execution_plan_id get_by_idempotency_key written_row
find-put r [] free = ground (arith, eq_refl r.execution_plan_id, eq_refl r.idempotency_key)
find-put r (x ∷ t) free =
    ground (arith, eq_refl r.execution_plan_id, eq_refl r.idempotency_key, find-put r t)

upsert-written :
    (r : ExecutionStoreRecord) (t t' : Table)
    → upsert r t ≡ written t'
    → (any (key_taken r) t ≡ false) × (put r t ≡ t')
unfolding upsert
upsert-written r t t' h = elim (Bool-cases (any (key_taken r) t)) [
  | inl taken ↦ ground arith
  | inr free ↦ ground arith
]

-- A record that was written without an IntegrityError is read back by its plan id and by its
-- idempotency key, with the creation time of the plan's earlier row if there was one.
upsert-get :
    (r : ExecutionStoreRecord) (t t' : Table)
    → upsert r t ≡ written t'
    → (get_by_execution_plan_id r.execution_plan_id t'
        ≡ some (written_row r (get_by_execution_plan_id r.execution_plan_id t)))
      × (get_by_idempotency_key r.idempotency_key t'
          ≡ some (written_row r (get_by_execution_plan_id r.execution_plan_id t)))
upsert-get r t t' h =
    let (free, done) = upsert-written r t t' h in
    subst
      (λ u.
        (get_by_execution_plan_id r.execution_plan_id u
          ≡ some (written_row r (get_by_execution_plan_id r.execution_plan_id t)))
        × (get_by_idempotency_key r.idempotency_key u
            ≡ some (written_row r (get_by_execution_plan_id r.execution_plan_id t))))
      done (find-put r t free)
