-- ===== src/Positions/Reconciliation.antt =====
-- The reconciliation with the broker's positions (backend/app/positions/reconciliation.py). What
-- list_positions answers while a position is reconciled is a parameter.
use alpha_council.Base.{
  String, Bool, true, false, not, ◌&&◌, ◌||◌, Option, none, some, List, [], ◌∷◌, map, any, select,
  str_eq, if◌then◌else◌,
}
use alpha_council.Base.Dict.{string_key, Entry, get, put}
use alpha_council.Decimal.{Decimal, leb, ltb, nought, abs}
use alpha_council.Alpaca.{Outcome, answered, raised, PositionSnapshot}
use alpha_council.Positions.Models.{Side, long, short, side_text, side_of}
use alpha_council.Positions.Records.{PositionStoreRecord, PositionReconciliationResult}
use alpha_council.Positions.Store.{Table, get_open_positions, get_by_position_id}

-- What list_positions answers when the position of an id is reconciled.
abbrev pub Provider : Type 0 → Type 0
Provider D = String → Outcome (List (PositionSnapshot D))

module _ {D : Type 0} ⦃d : Decimal D⦄ where
  -- `{pos.symbol: pos for pos in positions}`
  abbrev pub by_symbol :
      List (PositionSnapshot D)
      → List (Entry String (PositionSnapshot D))
      → List (Entry String (PositionSnapshot D))
  by_symbol [] positions = positions
  by_symbol (p ∷ ps) positions = by_symbol ps (put p.symbol p positions)

  abbrev or_nought : Option D → D
  or_nought none = nought
  or_nought (some a) = a

  abbrev pub differs : D → D → Bool
  differs a b = not (leb a b && leb b a)

  abbrev pub provider_side_of : D → Side
  provider_side_of quantity = if ltb nought quantity then long else short

  abbrev pub missing_result : PositionStoreRecord D → Side → PositionReconciliationResult D
  missing_result r side = record {
    position_id = r.position_id;
    symbol = r.symbol;
    local_quantity = r.current_quantity;
    provider_quantity = nought;
    local_notional = r.current_notional;
    provider_notional = nought;
    reconciled = false;
    action_required = true;
    mismatch_detected = true;
    position_missing_at_provider = true;
    unexpected_provider_position = false;
    local_side = some side;
    provider_side = none;
  }

  abbrev pub compared_result :
      PositionStoreRecord D → Side → PositionSnapshot D → PositionReconciliationResult D
  compared_result r side p =
      let quantity = abs p.qty in
      let side_mismatch = not (str_eq r.side (side_text (provider_side_of p.qty))) in
      let mismatch = side_mismatch || differs r.current_quantity quantity in
      record {
        position_id = r.position_id;
        symbol = r.symbol;
        local_quantity = r.current_quantity;
        provider_quantity = quantity;
        local_notional = r.current_notional;
        provider_notional = or_nought p.market_value;
        reconciled = not mismatch;
        action_required = mismatch;
        mismatch_detected = mismatch;
        position_missing_at_provider = false;
        unexpected_provider_position = false;
        local_side = some side;
        provider_side = some (provider_side_of p.qty);
      }

  abbrev pub result_on :
      PositionStoreRecord D → Side → Option (PositionSnapshot D) → PositionReconciliationResult D
  result_on r side none = missing_result r side
  result_on r side (some p) = compared_result r side p

  -- after the call of list_positions, and the assertion on the local side
  abbrev pub reconciled_with :
      PositionStoreRecord D
      → Outcome (List (PositionSnapshot D))
      → Option Side
      → Outcome (PositionReconciliationResult D)
  reconciled_with r raised side = raised
  reconciled_with r (answered positions) none = raised
  reconciled_with r (answered positions) (some side) =
      answered (result_on r side (get r.symbol (by_symbol positions [])))

  unfoldable pub reconcile_record :
      Provider D → PositionStoreRecord D → Outcome (PositionReconciliationResult D)
  reconcile_record provider r = reconciled_with r (provider r.position_id) (side_of r.side)

  abbrev pub reconcile_records :
      Provider D → List (PositionStoreRecord D) → Outcome (List (PositionReconciliationResult D))
  reconcile_records provider [] = answered []
  reconcile_records provider (r ∷ rs) = elim (reconcile_record provider r) [
    | raised ↦ raised
    | answered x ↦ elim (reconcile_records provider rs) [
      | raised ↦ raised
      | answered xs ↦ answered (x ∷ xs)
    ]
  ]

  unfoldable pub reconcile_all :
      Provider D → Table D → Outcome (List (PositionReconciliationResult D))
  reconcile_all provider t = elim (get_open_positions t) [
    | raised ↦ raised
    | answered records ↦ reconcile_records provider records
  ]

  abbrev pub reconcile_found :
      Provider D
      → Outcome (Option (PositionStoreRecord D))
      → Outcome (Option (PositionReconciliationResult D))
  reconcile_found provider raised = raised
  reconcile_found provider (answered none) = answered none
  reconcile_found provider (answered (some r)) = elim (reconcile_record provider r) [
    | raised ↦ raised
    | answered x ↦ answered (some x)
  ]

  unfoldable pub reconcile_position :
      Provider D → String → Table D → Outcome (Option (PositionReconciliationResult D))
  reconcile_position provider id t = reconcile_found provider (get_by_position_id id t)

  unfoldable pub find_unmanaged_provider_positions :
      List String → List (PositionSnapshot D) → List (PositionSnapshot D)
  find_unmanaged_provider_positions managed_symbols positions =
      map (λ e. e.value)
        (select (λ e. not (any (λ s. str_eq s e.key) managed_symbols)) (by_symbol positions []))
