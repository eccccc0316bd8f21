-- ===== src/Positions/Roundtrip.antt =====
-- Positions through their records (backend/app/positions/models.py, monitor.py).
use alpha_council.Base.{◌≡◌, refl, some}
use alpha_council.Positions.Models.{
  PositionStatus, pending_entry, open_position, partially_exited, closed, unknown, ExitState,
  no_exit, exiting, exited, InstrumentKind, stock, etf, option, Side, long, short, status_text,
  status_of, exit_text, exit_of, side_text, side_of, kind_text, kind_of,
}
use alpha_council.Positions.Records.{
  ManagedPosition, to_store_record, store_record_to_managed_position,
}

status_of-status_text : (s : PositionStatus) → status_of (status_text s) ≡ some s
unfolding status_of
status_of-status_text pending_entry = refl
status_of-status_text open_position = refl
status_of-status_text partially_exited = refl
status_of-status_text PositionStatus.exit_pending = refl
status_of-status_text closed = refl
status_of-status_text PositionStatus.reconciliation_required = refl
status_of-status_text unknown = refl

exit_of-exit_text : (s : ExitState) → exit_of (exit_text s) ≡ some s
unfolding exit_of
exit_of-exit_text no_exit = refl
exit_of-exit_text ExitState.exit_pending = refl
exit_of-exit_text exiting = refl
exit_of-exit_text exited = refl
exit_of-exit_text ExitState.reconciliation_required = refl

side_of-side_text : (s : Side) → side_of (side_text s) ≡ some s
unfolding side_of
side_of-side_text long = refl
side_of-side_text short = refl

kind_of-kind_text : (k : InstrumentKind) → kind_of (kind_text k) ≡ some k
unfolding kind_of
kind_of-kind_text stock = refl
kind_of-kind_text etf = refl
kind_of-kind_text option = refl

-- The record of a managed position is read back as that position.
pub store_record_to_managed_position-to_store_record :
    {D : Type 0} (p : ManagedPosition D)
    → store_record_to_managed_position (to_store_record p) ≡ some p
unfolding store_record_to_managed_position to_store_record
store_record_to_managed_position-to_store_record p =
    rw
      (
        status_of-status_text p.status,
        exit_of-exit_text p.exit_state,
        side_of-side_text p.side,
        kind_of-kind_text p.instrument_type,
      )
      refl
