-- ===== src/Execution/RetryTests.antt =====
-- A plan executed twice against the provider that accepts every order.
use alpha_council.Base.{
  String, ◌≡◌, ◌≢◌, refl, true, false, Option, none, some, [], ◌∷◌, arith, ap, str_eq,
}
use mathlib.Core.Path.{subst}
use alpha_council.Base.Int.{ℤ}
use alpha_council.Decimal.{whole}
use alpha_council.Decimal.Fixed.{fixed}
use alpha_council.Execution.Models.{
  ExecutionStatus, IdempotencyKey, ExecutionResult, ExecutionAuthorizationState, key_to_string,
  client_order_id_of, buy, first_chars, side_text, remove_ac, is_active_status,
}
use alpha_council.Execution.Validation.{
  risk_rejected_reason, quantity_limit, exceeds, option_loss_exceeds, kill_switch_on, m5_quantity,
  decide_authorization, validate_execution_plan, validate_m4_authority, validate_upstream_gates,
  validate_execution_config, all_reasons, authorize,
}
use alpha_council.Execution.Planner.{
  get_asset_info, check_market_open, validate_quote_freshness, validate_quote_quality,
  validate_asset_tradability, validate_short_side, needs_short, m5_reference,
  validate_price_deviation, round_to_tick, limit_price_of, sizing_of, plan_of, build_execution_plan,
}
use alpha_council.Execution.Store.{
  get_by_idempotency_key, put, upsert, update_where, update_provider_info,
}
use alpha_council.Execution.World.{
  AlpacaOrder, OrderRequest, Reply, answered, World, Result, ok, err, continue, ◌>>=◌, recover,
  try_except,
}
use alpha_council.Execution.Gateway.{
  status_of, normalize_order, required, optional, enforce_paper_mode, send, submit_order,
  fetch_by_client_id, get_order_by_client_id,
}
use alpha_council.Execution.Idempotency.{save, key_of, generate_idempotency_key}
use alpha_council.Execution.Results.{request_of, pending_record}
use alpha_council.Execution.Service.{
  finish, submission, submit_and_track, no_duplicate, with_provider, check_provider, with_local,
  keyed_execution, authorized_execution, execute,
}
use alpha_council.Execution.Remembered.{remembers}
use alpha_council.Execution.Settled.{GivesIds, HasFailed}
use alpha_council.Execution.Retry.{remembered_is_not_resent, no_double_submission}
use alpha_council.Execution.Tests.{
  paper, accepting, empty, instrument_plan, evaluation, surroundings, plan,
}

abbrev key : IdempotencyKey ℤ
key = record {
  instrument_plan_id = "plan-0001";
  symbol = "AAPL";
  side = buy;
  quantity = whole 9;
  risk_authorization_version = "1.0.0";
}

abbrev known : World ℤ (Option (OrderRequest ℤ))
known = record empty {
  store =
      record {
        execution_plan_id = key_to_string key;
        instrument_plan_id = "plan-0001";
        idempotency_key = key_to_string key;
        client_order_id = "ac-1";
        authorization_state = ExecutionAuthorizationState.authorized;
        provider_order_id = some "order-1";
        provider_status = some "NEW";
        created_at = 1000;
        submitted_at = some 1000;
        updated_at = 1000;
      }
      ∷ [];
}

key-found : generate_idempotency_key instrument_plan evaluation ≡ ok key
unfolding generate_idempotency_key
key-found = refl

known-remembers : remembers (key_to_string key) known.store ≡ true
unfolding remembers get_by_idempotency_key key_to_string first_chars side_text
known-remembers = refl

remembered_is_not_resent_example :
    (execute paper accepting surroundings instrument_plan evaluation none false false
      known).1.journal
    ≡ []
remembered_is_not_resent_example =
    remembered_is_not_resent paper accepting surroundings instrument_plan evaluation none false
      false key known key-found known-remembers

abbrev first_world : Result (ExecutionResult ℤ) × World ℤ (Option (OrderRequest ℤ))
first_world = execute paper accepting surroundings instrument_plan evaluation none false false empty

status_of_result : Result (ExecutionResult ℤ) → ExecutionStatus
status_of_result (ok r) = r.status
status_of_result (err e) = ExecutionStatus.failed

succeeded :
    (r : Result (ExecutionResult ℤ)) → status_of_result r ≡ ExecutionStatus.filled → ¬ HasFailed r
unfolding status_of_result
succeeded (ok r) h k = ground arith
succeeded (err e) h k = ground arith

-- The first run is filled and has sent the order of its plan.
first_run :
    (first_world.1.journal ≡ request_of plan (client_order_id_of (key_to_string key)) ∷ [])
    × (status_of_result first_world.0 ≡ ExecutionStatus.filled)
unfolding execute authorized_execution keyed_execution with_local check_provider with_provider
    no_duplicate submit_and_track submission finish status_of_result ◌>>=◌ build_execution_plan
    get_asset_info check_market_open validate_quote_freshness validate_quote_quality
    validate_asset_tradability validate_short_side validate_price_deviation m5_reference sizing_of
    authorize all_reasons validate_execution_config validate_upstream_gates validate_m4_authority
    validate_execution_plan enforce_paper_mode fetch_by_client_id get_order_by_client_id
    normalize_order optional required send status_of submit_order generate_idempotency_key key_of
    save client_order_id_of first_chars is_active_status key_to_string remove_ac side_text
    limit_price_of needs_short plan_of round_to_tick pending_record get_by_idempotency_key put
    update_provider_info update_where upsert decide_authorization exceeds kill_switch_on m5_quantity
    option_loss_exceeds quantity_limit risk_rejected_reason continue recover try_except
first_run = (refl, refl)

reply_id : Reply (AlpacaOrder ℤ) → String
reply_id (answered o) = o.id
reply_id _ = ""

accepting-GivesIds : GivesIds accepting
unfolding GivesIds reply_id
accepting-GivesIds r p o h = subst (λ s. str_eq s "" ≡ false) (ap reply_id h) refl

first_run-sent : first_world.1.journal ≢ []
first_run-sent h = ground (arith, first_run.0)

first_run-succeeded : ¬ HasFailed first_world.0
first_run-succeeded h = succeeded first_world.0 first_run.1 h

no_double_submission_example :
    (execute paper accepting surroundings instrument_plan evaluation none false true
      first_world.1).1.journal
    ≡ first_world.1.journal
no_double_submission_example =
    no_double_submission paper accepting surroundings surroundings instrument_plan evaluation none
      none false false false true empty accepting-GivesIds first_run-sent first_run-succeeded
