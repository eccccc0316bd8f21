-- ===== src/Execution/Keys.antt =====
-- The constraints of the table: its primary key and its unique idempotency key
-- (backend/app/execution/store.py).
use alpha_council.Base.{
  String, ◌≡◌, ◌≢◌, sym, ◌∙◌, true, false, [], ◌∷◌, arith, All, any, Bool-cases, inl, inr,
  str_eq_iff,
}
use alpha_council.Execution.Models.{ExecutionStoreRecord}
use alpha_council.Execution.Store.{Table, same_plan, key_taken, overwrite, put}

-- Two rows that share neither key.
abbrev pub AreApart : ExecutionStoreRecord → ExecutionStoreRecord → Type 0
AreApart a b = (a.execution_plan_id ≢ b.execution_plan_id) × (a.idempotency_key ≢ b.idempotency_key)

unfoldable pub IsKeyed : Table → Type 0
IsKeyed [] = Unit
IsKeyed (r ∷ t) = All (AreApart r) t × IsKeyed t

same_plan-true :
    (id : String) (r : ExecutionStoreRecord) → same_plan id r ≡ true → r.execution_plan_id ≡ id
same_plan-true id r h = (str_eq_iff r.execution_plan_id id).0 h

same_plan-false :
    (id : String) (r : ExecutionStoreRecord) → same_plan id r ≡ false → r.execution_plan_id ≢ id
same_plan-false id r h e = ground (arith, (str_eq_iff r.execution_plan_id id).1 e)

-- A row that does not take the key, and is not the plan's own, has another key.
key_free :
    (new r : ExecutionStoreRecord)
    → key_taken new r ≡ false
    → r.execution_plan_id ≢ new.execution_plan_id
    → new.idempotency_key ≢ r.idempotency_key
key_free new r h other same = ground (
  arith,
  (str_eq_iff r.idempotency_key new.idempotency_key).1 (sym same),
  (str_eq_iff r.execution_plan_id new.execution_plan_id).0,
)

-- The row stays apart from all rows after a write of another plan under another key.
put-All :
    (x new : ExecutionStoreRecord) (t : Table)
    → AreApart x new
    → All (AreApart x) t
    → All (AreApart x) (put new t)
unfolding put
put-All x new [] h k = (h, tt)
put-All x new (y ∷ t) h k = ground (arith, put-All x new t h)

-- The plan's own row, in front, stays apart from the rest under its new key.
overwrite-All :
    (x new : ExecutionStoreRecord) (t : Table)
    → x.execution_plan_id ≡ new.execution_plan_id
    → any (key_taken new) t ≡ false
    → All (AreApart x) t
    → All (AreApart (overwrite new x)) t
overwrite-All x new [] same free k = tt
overwrite-All x new (y ∷ t) same free ((plan, key), k) =
    let other : y.execution_plan_id ≢ new.execution_plan_id = λ e. plan (same ∙ sym e) in
    (
      ((λ e. other (sym e)), key_free new y (ground arith) other),
      overwrite-All x new t same (ground arith) k,
    )

pub put-IsKeyed :
    (new : ExecutionStoreRecord) (t : Table)
    → any (key_taken new) t ≡ false
    → IsKeyed t
    → IsKeyed (put new t)
unfolding put IsKeyed
put-IsKeyed new [] free h = (tt, tt)
put-IsKeyed new (x ∷ t) free (apart, rest) = elim (Bool-cases (same_plan new.execution_plan_id x)) [
  | inl same ↦
      rw (same, put)
        (
          overwrite-All x new t (same_plan-true new.execution_plan_id x same) (ground arith) apart,
          rest,
        )
  | inr other ↦
      let differs = same_plan-false new.execution_plan_id x other in
      rw (other, put)
        (
          put-All x new t (differs, λ e. key_free new x (ground arith) differs (sym e)) apart,
          put-IsKeyed new t (ground arith) rest,
        )
]
