-- ===== src/Execution/Remembered.antt =====
-- What the store remembers of an order that was acknowledged (backend/app/execution/store.py).
use alpha_council.Base.{
  ℕ, String, ◌≡◌, refl, Bool, true, false, Option, none, some, [], ◌∷◌, arith, any, str_eq,
  str_eq_iff,
}
use alpha_council.Execution.Models.{ExecutionStoreRecord}
use alpha_council.Execution.Store.{
  Table, key_taken, put, get_by_idempotency_key, has_order_id, update_provider_info, update_status,
}

eq_refl : (s : String) → str_eq s s ≡ true
eq_refl s = (str_eq_iff s s).1 refl

abbrev pub is_acknowledged : Option ExecutionStoreRecord → Bool
is_acknowledged none = false
is_acknowledged (some r) = has_order_id r.provider_order_id

-- The first record of the key has the id of an order.
unfoldable pub remembers : String → Table → Bool
unfolding get_by_idempotency_key
remembers key t = is_acknowledged (get_by_idempotency_key key t)

-- A record under a key that no other row holds is the one that is found once its provider's order
-- id has been written.
pub remembers-update_provider_info :
    (r : ExecutionStoreRecord) (t : Table) (now : ℕ) (order status : String) (submitted : Option ℕ)
    → any (key_taken r) t ≡ false
    → str_eq order "" ≡ false
    → remembers r.idempotency_key
        (update_provider_info now r.execution_plan_id order status submitted (put r t))
      ≡ true
unfolding remembers update_provider_info put
remembers-update_provider_info r [] now order status submitted free named =
    ground (arith, eq_refl r.idempotency_key, eq_refl r.execution_plan_id)
remembers-update_provider_info r (x ∷ t) now order status submitted free named = ground (
  arith,
  eq_refl r.idempotency_key,
  eq_refl r.execution_plan_id,
  remembers-update_provider_info r t now order status submitted,
)

-- A later status does not change that.
pub remembers-update_status :
    (key id status : String) (now : ℕ) (t : Table)
    → remembers key (update_status now id status t) ≡ remembers key t
unfolding remembers update_status
remembers-update_status key id status now [] = refl
remembers-update_status key id status now (x ∷ t) =
    ground (arith, remembers-update_status key id status now t)
