-- ===== src/Execution/RowLaws.antt =====
-- That the table of records stands for the rows of the store (backend/app/execution/store.py).
use alpha_council.Base.{
  ℕ, ◌≡◌, refl, ap, String, Bool, false, Option, none, some, List, [], ◌∷◌, map, find, any, str_eq,
  arith, Bool-cases, inl, inr,
}
use alpha_council.Alpaca.{Outcome, answered, raised}
use alpha_council.Execution.Models.{
  ExecutionAuthorizationState, authorized, denied, ExecutionStoreRecord,
}
use alpha_council.Execution.Store.{
  Table, Written, written, integrity_error, key_taken, put, upsert, get_by_execution_plan_id,
  get_by_idempotency_key, get_by_client_order_id,
}
use alpha_council.Execution.Rows.{
  Row, Clock, state_text, state_of, row_key_taken, put_row, insert_row, to_row, time_text,
  submitted_of, row_to_record, fetched, select_by_plan_id, select_by_key, select_by_client_id,
}

-- What datetime documents of its conversions: a time is read back from its text, which is not empty.
pub record IsClock (clock : Clock) : Type 0 where
  pub reads_back : (t : ℕ) → clock.fromisoformat (clock.isoformat t) ≡ answered t
  pub not_empty : (t : ℕ) → str_eq (clock.isoformat t) "" ≡ false

state_of-state_text : (s : ExecutionAuthorizationState) → state_of (state_text s) ≡ answered s
state_of-state_text authorized = refl
state_of-state_text denied = refl

module _ (clock : Clock) where
  -- The rows of a table of records.
  abbrev pub rows_of : Table → List Row
  rows_of t = map (λ r. to_row clock r) t

  -- The rows that a statement leaves, or its IntegrityError.
  abbrev pub rows_after : Written → Outcome (List Row)
  rows_after (written t) = answered (rows_of t)
  rows_after integrity_error = raised

  any-rows_of :
      (new : ExecutionStoreRecord) (t : Table)
      → any (row_key_taken (to_row clock new)) (rows_of t) ≡ any (key_taken new) t
  unfolding to_row
  any-rows_of new [] = refl
  any-rows_of new (r ∷ t) = ground (arith, any-rows_of new t)

  put_row-rows_of :
      (new : ExecutionStoreRecord) (t : Table)
      → put_row (to_row clock new) (rows_of t) ≡ rows_of (put new t)
  unfolding put_row put to_row
  put_row-rows_of new [] = refl
  put_row-rows_of new (r ∷ t) =
      elim (Bool-cases (str_eq r.execution_plan_id new.execution_plan_id)) [
        | inl same ↦ rw same refl
        | inr other ↦ rw other (ap (λ rows. to_row clock r ∷ rows) (put_row-rows_of new t))
      ]

  insert_row-rows_of :
      (new : ExecutionStoreRecord) (t : Table)
      → insert_row (to_row clock new) (rows_of t) ≡ rows_after (upsert new t)
  unfolding insert_row upsert
  insert_row-rows_of new t = elim (Bool-cases (any (key_taken new) t)) [
    | inl taken ↦ rw (any-rows_of new t, taken) refl
    | inr free ↦ rw (any-rows_of new t, free) (ap answered (put_row-rows_of new t))
  ]

  module _ (laws : IsClock clock) where
    submitted_of-time_text : (t : Option ℕ) → submitted_of clock (time_text clock t) ≡ answered t
    submitted_of-time_text none = refl
    submitted_of-time_text (some t) = rw (laws.not_empty t, laws.reads_back t) refl

    row_to_record-to_row :
        (r : ExecutionStoreRecord) → row_to_record clock (to_row clock r) ≡ answered r
    unfolding row_to_record to_row
    row_to_record-to_row r =
        rw
          (
            state_of-state_text r.authorization_state,
            laws.reads_back r.created_at,
            submitted_of-time_text r.submitted_at,
            laws.reads_back r.updated_at,
          )
          refl

    fetched-find :
        (p : Row → Bool) (t : Table)
        → fetched clock (find p (rows_of t)) ≡ answered (find (λ r. p (to_row clock r)) t)
    fetched-find p [] = refl
    fetched-find p (r ∷ t) = elim (Bool-cases (p (to_row clock r))) [
      | inl here ↦ rw (here, row_to_record-to_row r) refl
      | inr there ↦ rw there (fetched-find p t)
    ]

    -- If datetime reads a time back from its text, the table of records stands for the rows: the
    -- INSERT leaves the rows of the table that upsert leaves, and raises exactly where upsert does,
    -- and each SELECT by a plan id, an idempotency key or a client order id reads from the rows of a
    -- table the record that the store gets from the table.
    pub rows_refine :
        (t : Table) (new : ExecutionStoreRecord) (text : String)
        → (insert_row (to_row clock new) (rows_of t) ≡ rows_after (upsert new t))
          × (select_by_plan_id clock text (rows_of t) ≡ answered (get_by_execution_plan_id text t))
          × (select_by_key clock text (rows_of t) ≡ answered (get_by_idempotency_key text t))
          × (select_by_client_id clock text (rows_of t) ≡ answered (get_by_client_order_id text t))
    unfolding select_by_plan_id select_by_key select_by_client_id get_by_execution_plan_id
        get_by_idempotency_key get_by_client_order_id to_row
    rows_refine t new text = (
      insert_row-rows_of new t,
      fetched-find (λ row. str_eq row.execution_plan_id text) t,
      fetched-find (λ row. str_eq row.idempotency_key text) t,
      fetched-find (λ row. str_eq row.client_order_id text) t,
    )
