-- ===== src/Execution/Rows.antt =====
-- The rows of `ExecutionStore` (backend/app/execution/store.py): the texts that a record is written
-- as, the statement that writes them, and `_row_to_record`. `isoformat` and `fromisoformat` of
-- datetime are parameters; Execution/Store keeps in place of each row the record that it is read as.
use alpha_council.Base.{
  ℕ, String, Bool, not, ◌&&◌, Option, none, some, List, [], ◌∷◌, find, any, str_eq, if◌then◌else◌,
}
use alpha_council.Alpaca.{Outcome, answered, raised}
use alpha_council.Execution.Models.{
  ExecutionAuthorizationState, authorized, denied, ExecutionStoreRecord,
}

-- The columns of `executions`.
pub record Row : Type 0 where
  pub execution_plan_id : String
  pub instrument_plan_id : String
  pub idempotency_key : String
  pub client_order_id : String
  pub authorization_state : String
  pub provider_order_id : Option String
  pub provider_status : Option String
  pub created_at : String
  pub submitted_at : Option String
  pub updated_at : String

-- datetime's conversions; `fromisoformat` raises a ValueError on other texts.
pub record Clock : Type 0 where
  pub isoformat : ℕ → String
  pub fromisoformat : String → Outcome ℕ

abbrev pub state_text : ExecutionAuthorizationState → String
state_text authorized = "AUTHORIZED"
state_text denied = "DENIED"

-- `ExecutionAuthorizationState(text)`, which raises a ValueError on another text
abbrev pub state_of : String → Outcome ExecutionAuthorizationState
state_of text =
    if str_eq text "AUTHORIZED"
    then answered authorized
    else (if str_eq text "DENIED" then answered denied else raised)

-- Another row holds the idempotency key.
abbrev pub row_key_taken : Row → Row → Bool
row_key_taken new row =
    str_eq row.idempotency_key new.idempotency_key
    && not (str_eq row.execution_plan_id new.execution_plan_id)

-- ON CONFLICT(execution_plan_id) DO UPDATE, of every column but created_at
unfoldable pub put_row : Row → List Row → List Row
put_row new [] = new ∷ []
put_row new (row ∷ rows) =
    let rest = put_row new rows in
    if str_eq row.execution_plan_id new.execution_plan_id
    then record new { created_at = row.created_at } ∷ rows
    else row ∷ rest

-- The INSERT of `upsert`, which raises an IntegrityError on the unique key.
unfoldable pub insert_row : Row → List Row → Outcome (List Row)
insert_row new rows = if any (row_key_taken new) rows then raised else answered (put_row new rows)

module _ (clock : Clock) where
  abbrev pub time_text : Option ℕ → Option String
  time_text none = none
  time_text (some t) = some (clock.isoformat t)

  -- the values of the INSERT
  unfoldable pub to_row : ExecutionStoreRecord → Row
  to_row r = record {
    execution_plan_id = r.execution_plan_id;
    instrument_plan_id = r.instrument_plan_id;
    idempotency_key = r.idempotency_key;
    client_order_id = r.client_order_id;
    authorization_state = state_text r.authorization_state;
    provider_order_id = r.provider_order_id;
    provider_status = r.provider_status;
    created_at = clock.isoformat r.created_at;
    submitted_at = time_text r.submitted_at;
    updated_at = clock.isoformat r.updated_at;
  }

  abbrev pub some_time : Outcome ℕ → Outcome (Option ℕ)
  some_time raised = raised
  some_time (answered t) = answered (some t)

  -- `datetime.fromisoformat(submitted) if submitted else None`
  abbrev pub submitted_of : Option String → Outcome (Option ℕ)
  submitted_of none = answered none
  submitted_of (some text) =
      if str_eq text "" then answered none else some_time (clock.fromisoformat text)

  abbrev pub record_of :
      Row
      → Outcome ExecutionAuthorizationState
      → Outcome ℕ
      → Outcome (Option ℕ)
      → Outcome ℕ
      → Outcome ExecutionStoreRecord
  record_of row (answered state) (answered created) (answered submitted) (answered updated) =
      answered record {
        execution_plan_id = row.execution_plan_id;
        instrument_plan_id = row.instrument_plan_id;
        idempotency_key = row.idempotency_key;
        client_order_id = row.client_order_id;
        authorization_state = state;
        provider_order_id = row.provider_order_id;
        provider_status = row.provider_status;
        created_at = created;
        submitted_at = submitted;
        updated_at = updated;
      }
  record_of row _ _ _ _ = raised

  unfoldable pub row_to_record : Row → Outcome ExecutionStoreRecord
  row_to_record row =
      record_of row (state_of row.authorization_state) (clock.fromisoformat row.created_at)
        (submitted_of row.submitted_at) (clock.fromisoformat row.updated_at)

  abbrev some_record : Outcome ExecutionStoreRecord → Outcome (Option ExecutionStoreRecord)
  some_record raised = raised
  some_record (answered r) = answered (some r)

  -- `self._row_to_record(row) if row else None`
  abbrev pub fetched : Option Row → Outcome (Option ExecutionStoreRecord)
  fetched none = answered none
  fetched (some row) = some_record (row_to_record row)

  -- SELECT ... WHERE execution_plan_id = ?, idempotency_key = ?, client_order_id = ?
  unfoldable pub select_by_plan_id : String → List Row → Outcome (Option ExecutionStoreRecord)
  select_by_plan_id id rows = fetched (find (λ row. str_eq row.execution_plan_id id) rows)

  unfoldable pub select_by_key : String → List Row → Outcome (Option ExecutionStoreRecord)
  select_by_key key rows = fetched (find (λ row. str_eq row.idempotency_key key) rows)

  unfoldable pub select_by_client_id : String → List Row → Outcome (Option ExecutionStoreRecord)
  select_by_client_id id rows = fetched (find (λ row. str_eq row.client_order_id id) rows)
