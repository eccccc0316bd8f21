-- ===== src/Execution/Store.antt =====
-- `ExecutionStore` (backend/app/execution/store.py): the table `executions` of SQLite, with its
-- primary key and its unique idempotency key, and the statements that the store runs on it. The
-- table holds, in place of each row of texts, the record that `_row_to_record` reads it as; the rows
-- and their conversions are in Execution/Rows.
use alpha_council.Base.{
  ℕ, ◌-◌, ◌/◌, String, Bool, false, not, ◌&&◌, ◌||◌, Option, none, some, List, [], ◌∷◌, find, any,
  select, str_eq, leb, if◌then◌else◌,
}
use alpha_council.Execution.Models.{ExecutionStoreRecord, is_authorized_state}

abbrev pub Table : Type 0
Table = List ExecutionStoreRecord

-- `IntegrityError` is raised by the constraint on `idempotency_key`.
pub data Written : Type 0 where
  written : Table → Written
  integrity_error : Written

abbrev pub same_plan : String → ExecutionStoreRecord → Bool
same_plan id r = str_eq r.execution_plan_id id

-- Another row holds the idempotency key.
abbrev pub key_taken : ExecutionStoreRecord → ExecutionStoreRecord → Bool
key_taken new r =
    str_eq r.idempotency_key new.idempotency_key && not (same_plan new.execution_plan_id r)

-- The columns of ON CONFLICT DO UPDATE: all but `created_at`.
abbrev pub overwrite : ExecutionStoreRecord → ExecutionStoreRecord → ExecutionStoreRecord
overwrite new old = record new { created_at = old.created_at }

unfoldable pub put : ExecutionStoreRecord → Table → Table
put new [] = new ∷ []
put new (r ∷ t) =
    let rest = put new t in
    if same_plan new.execution_plan_id r then overwrite new r ∷ t else r ∷ rest

unfoldable pub upsert : ExecutionStoreRecord → Table → Written
upsert new t = if any (key_taken new) t then integrity_error else written (put new t)

unfoldable pub get_by_idempotency_key : String → Table → Option ExecutionStoreRecord
get_by_idempotency_key key = find (λ r. str_eq r.idempotency_key key)

unfoldable pub get_by_client_order_id : String → Table → Option ExecutionStoreRecord
get_by_client_order_id id = find (λ r. str_eq r.client_order_id id)

unfoldable pub get_by_execution_plan_id : String → Table → Option ExecutionStoreRecord
get_by_execution_plan_id id = find (same_plan id)

-- An id that is neither NULL nor the empty text.
abbrev pub has_order_id : Option String → Bool
has_order_id none = false
has_order_id (some id) = not (str_eq id "")

-- `updated_at > datetime('now', '-1 hour')` compares texts: an ISO time has a `T` where SQLite's
-- has a space, which is smaller, so within one day every time is later.
abbrev pub is_recent : ℕ → ℕ → Bool
is_recent now updated = leb ((now - 3600) / 86_400) (updated / 86_400)

unfoldable pub get_pending_executions : ℕ → Table → Table
get_pending_executions now = select λ r.
    is_authorized_state r.authorization_state
    && (not (has_order_id r.provider_order_id) && is_recent now r.updated_at)

-- `provider_status NOT IN (...)`, which is not true of NULL
abbrev pub is_open : Option String → Bool
is_open none = false
is_open (some s) =
    not (str_eq s "FILLED" || (str_eq s "CANCELED" || (str_eq s "EXPIRED" || str_eq s "REJECTED")))

unfoldable pub get_active_executions : Table → Table
get_active_executions = select λ r.
    is_authorized_state r.authorization_state
    && (has_order_id r.provider_order_id && is_open r.provider_status)

-- `UPDATE executions SET ... WHERE execution_plan_id = ?`
unfoldable pub update_where : String → (ExecutionStoreRecord → ExecutionStoreRecord) → Table → Table
update_where id f [] = []
update_where id f (r ∷ t) = (if same_plan id r then f r else r) ∷ update_where id f t

abbrev pub or_now : Option ℕ → ℕ → ℕ
or_now none now = now
or_now (some t) now = t

unfoldable pub update_provider_info : ℕ → String → String → String → Option ℕ → Table → Table
unfolding update_where
update_provider_info now id order_id status submitted = update_where id λ r. record r {
  provider_order_id = some order_id;
  provider_status = some status;
  submitted_at = some (or_now submitted now);
  updated_at = now;
}

unfoldable pub update_status : ℕ → String → String → Table → Table
unfolding update_where
update_status now id status =
    update_where id λ r. record r { provider_status = some status; updated_at = now }
