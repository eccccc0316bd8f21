-- ===== src/Positions/Store.antt =====
-- The store of positions (backend/app/positions/store.py): the table with its primary key, and the
-- statements as functions on it. A decimal is written as its text, which is read back exactly. The
-- engine, its connections and its indexes are not modelled.
use alpha_council.Base.{
  ℕ, String, Bool, ◌&&◌, ◌||◌, Option, none, some, List, [], ◌∷◌, find, select, is_some, str_eq,
  if◌then◌else◌,
}
use alpha_council.Decimal.{Decimal, if_truthy}
use alpha_council.Alpaca.{Outcome, answered, raised}
use alpha_council.Positions.Models.{
  PositionStatus, open_position, partially_exited, ExitState, status_text, status_of, exit_text,
  exit_of,
}
use alpha_council.Positions.Records.{PositionStoreRecord}

abbrev pub Table : Type 0 → Type 0
Table D = List (PositionStoreRecord D)

module _ {D : Type 0} where
  abbrev pub has_id : String → PositionStoreRecord D → Bool
  has_id id r = str_eq r.position_id id

  abbrev pub has_status : PositionStatus → PositionStoreRecord D → Bool
  has_status status r = str_eq r.status (status_text status)

  abbrev pub is_open : PositionStoreRecord D → Bool
  is_open r =
      has_status open_position r
      || (has_status partially_exited r || has_status PositionStatus.exit_pending r)

  -- INSERT ... ON CONFLICT(position_id) DO UPDATE, which leaves created_at alone
  unfoldable pub put : PositionStoreRecord D → Table D → Table D
  put new [] = new ∷ []
  put new (x ∷ t) =
      let rest = put new t in
      if has_id new.position_id x then record new { created_at = x.created_at } ∷ t else x ∷ rest

  -- `_row_to_record`, which raises a ValueError on a status or an exit state that is no member
  unfoldable pub row_to_record : PositionStoreRecord D → Outcome (PositionStoreRecord D)
  row_to_record r =
      if is_some (status_of r.status) && is_some (exit_of r.exit_state) then answered r else raised

  abbrev pub one_of : Option (PositionStoreRecord D) → Outcome (Option (PositionStoreRecord D))
  one_of none = answered none
  one_of (some r) = elim (row_to_record r) [ answered x ↦ answered (some x) | raised ↦ raised ]

  abbrev pub all_of : List (PositionStoreRecord D) → Outcome (List (PositionStoreRecord D))
  all_of [] = answered []
  all_of (r ∷ rs) = elim (row_to_record r) [
    | raised ↦ raised
    | answered x ↦ elim (all_of rs) [ raised ↦ raised | answered xs ↦ answered (x ∷ xs) ]
  ]

  unfoldable pub get_by_position_id : String → Table D → Outcome (Option (PositionStoreRecord D))
  get_by_position_id id t = one_of (find (λ r. has_id id r) t)

  unfoldable pub get_by_entry_execution_id :
      String → Table D → Outcome (Option (PositionStoreRecord D))
  get_by_entry_execution_id id t = one_of (find (λ r. str_eq r.entry_execution_id id) t)

  unfoldable pub get_by_entry_order_id : String → Table D → Outcome (Option (PositionStoreRecord D))
  get_by_entry_order_id id t = one_of (find (λ r. str_eq r.entry_order_id id) t)

  unfoldable pub get_open_positions : Table D → Outcome (List (PositionStoreRecord D))
  get_open_positions t = all_of (select is_open t)

  unfoldable pub get_positions_needing_reconciliation :
      Table D → Outcome (List (PositionStoreRecord D))
  get_positions_needing_reconciliation t =
      all_of (select (has_status PositionStatus.reconciliation_required) t)

  unfoldable pub get_all_positions : Table D → Outcome (List (PositionStoreRecord D))
  get_all_positions t = all_of t

  -- UPDATE ... WHERE position_id = ?
  unfoldable pub update_row :
      String → (PositionStoreRecord D → PositionStoreRecord D) → Table D → Table D
  update_row id f [] = []
  update_row id f (r ∷ t) =
      let rest = update_row id f t in if has_id id r then f r ∷ rest else r ∷ rest

  unfoldable pub update_status : ℕ → String → PositionStatus → Option ExitState → Table D → Table D
  update_status now id status none t =
      update_row id (λ r. record r { status = status_text status; updated_at = now }) t
  update_status now id status (some exit_state) t =
      update_row id
        (λ r. record r {
          status = status_text status;
          exit_state = exit_text exit_state;
          updated_at = now;
        })
        t

  unfoldable pub update_quantity : ℕ → String → D → Table D → Table D
  update_quantity now id quantity t =
      update_row id (λ r. record r { current_quantity = quantity; updated_at = now }) t

  unfoldable pub update_current_price : ℕ → String → D → D → D → D → Table D → Table D
  update_current_price now id price notional pnl pnl_pct t =
      update_row id
        (λ r. record r {
          current_price = price;
          current_notional = notional;
          unrealized_pnl = pnl;
          unrealized_pnl_pct = pnl_pct;
          updated_at = now;
        })
        t

  unfoldable pub update_stop_reference : ℕ → String → D → Table D → Table D
  update_stop_reference now id stop t =
      update_row id (λ r. record r { current_stop_reference = some stop; updated_at = now }) t

  unfoldable pub update_realized_pnl : ℕ → String → D → Table D → Table D
  update_realized_pnl now id pnl t =
      update_row id (λ r. record r { realized_pnl = pnl; updated_at = now }) t

module _ {D : Type 0} ⦃d : Decimal D⦄ where
  -- the row that a record is written as: an optional decimal that is zero becomes NULL
  unfoldable pub written_row : PositionStoreRecord D → PositionStoreRecord D
  written_row r = record r {
    initial_stop_reference = if_truthy r.initial_stop_reference;
    current_stop_reference = if_truthy r.current_stop_reference;
    highest_price_since_entry = if_truthy r.highest_price_since_entry;
    lowest_price_since_entry = if_truthy r.lowest_price_since_entry;
  }

  unfoldable pub upsert : PositionStoreRecord D → Table D → Table D
  upsert r t = put (written_row r) t

  unfoldable pub update_watermarks : ℕ → String → Option D → Option D → D → D → Table D → Table D
  update_watermarks now id highest lowest mfe mae t =
      update_row id
        (λ r. record r {
          highest_price_since_entry = if_truthy highest;
          lowest_price_since_entry = if_truthy lowest;
          mfe = mfe;
          mae = mae;
          updated_at = now;
        })
        t
