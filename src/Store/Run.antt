-- ===== src/Store/Run.antt =====
-- All of the store's code, opened together: for tests, which run it.
use orka_gateway_telegram.Prelude.{Text-discrete, ℕ_discrete}
use orka_gateway_telegram.Text.Space.{trim_space}
use orka_gateway_telegram.Text.Utf8.{valid_string, is_control, contains_func}
use orka_gateway_telegram.Text.Sanitize.{drop_controls, longest_valid}
use orka_gateway_telegram.Store.Types.{DeliveryState-discrete, valid, terminal, after}
use orka_gateway_telegram.Store.Table.{find, insert, modify, modify_all}
use orka_gateway_telegram.Store.Exec.{pure, raise, lift, query, transaction, ◌>>=◌}
use orka_gateway_telegram.Store.Normalize.{
  to_lower, is_hex, normalize_identity, normalize_digest, normalize_provider_message_id,
  normalize_safe_message,
}
use orka_gateway_telegram.Store.Query.{
  millis_time?, joined, scan_delivery, get_delivery, get_delivery_by_alias, if_found, agree,
  get_delivery_by_identity, resolve_delivery, get_provider_cooldown, digest_matches,
}
use orka_gateway_telegram.Store.Statements.{
  insert_delivery, update_where, is_taken, insert_idempotency, insert_alias, upsert_cooldown,
}
use orka_gateway_telegram.Store.Deliveries.{
  extend_provider_cooldown, is_other_delivery, ensure_delivery_alias, upgrade_legacy_delivery,
  recover_stale, later, millis, is_before, claim_retryable, begin_found, begin_new, begin_body,
  create_or_begin_delivery, begin_delivery_with_idempotency, begin_delivery,
  create_delivery_with_idempotency, create_delivery,
}
use orka_gateway_telegram.Store.Completion.{
  retry_millis, same_time, is_same_outcome, extend_if_positive, set_outcome, repeat_outcome,
  complete_sending, update_body, outcome_of, update_delivery_not_before, update_delivery,
  mark_delivery_delivered, mark_delivery_retryable, mark_delivery_retryable_not_before,
  mark_delivery_permanent, mark_delivery_unknown, read_only, inspected, inspect_query,
  inspect_delivery_with_idempotency, provider_retry_not_before, get_delivery_record, interrupted,
  recover_interrupted_deliveries,
}
use orka_gateway_telegram.Store.Updates.{
  update_key, update_record, get_update_row, insert_update, admit, create_body, create_update,
}

unfoldable pub queries : Unit {0}
unfolding Text-discrete ℕ_discrete DeliveryState-discrete valid terminal after find insert modify
    modify_all millis_time? joined scan_delivery get_delivery get_delivery_by_alias if_found agree
    get_delivery_by_identity resolve_delivery get_provider_cooldown digest_matches
queries = tt

unfoldable pub arguments : Unit {0}
unfolding trim_space valid_string is_control contains_func drop_controls longest_valid to_lower
    is_hex normalize_identity normalize_digest normalize_provider_message_id normalize_safe_message
arguments = tt

unfoldable pub actions : Unit {0}
unfolding pure raise lift query transaction ◌>>=◌ insert_delivery update_where is_taken
    insert_idempotency insert_alias upsert_cooldown extend_provider_cooldown is_other_delivery
    ensure_delivery_alias upgrade_legacy_delivery
actions = tt

unfoldable pub begins : Unit {0}
unfolding queries arguments actions recover_stale later millis is_before claim_retryable begin_found
    begin_new begin_body create_or_begin_delivery begin_delivery_with_idempotency begin_delivery
    create_delivery_with_idempotency create_delivery
begins = tt

unfoldable pub store : Unit {0}
unfolding begins retry_millis same_time is_same_outcome extend_if_positive set_outcome
    repeat_outcome complete_sending update_body outcome_of update_delivery_not_before
    update_delivery mark_delivery_delivered mark_delivery_retryable
    mark_delivery_retryable_not_before mark_delivery_permanent mark_delivery_unknown read_only
    inspected inspect_query inspect_delivery_with_idempotency provider_retry_not_before
    get_delivery_record interrupted recover_interrupted_deliveries
store = tt

unfoldable pub updates : Unit {0}
unfolding store update_key update_record get_update_row insert_update admit create_body
    create_update
updates = tt
