-- ===== src/Tests/Ingress.antt =====
-- The message of a bet, which is delivered twice, and a batch of messages.
use junglegaming_test.Base.{
  ℕ, ◌+◌, ◌≡◌, refl, none, some, List, [], ◌∷◌, ok, err, Option, String, true, false, is_blank,
  if◌then◌else◌, ◌==◌, str_eq,
}
use Prim.Native.Char.{code}
use junglegaming_test.Base.Int.{ℤ, ◌-ℤ◌}
use junglegaming_test.Decimal.Scaled.{scaled, scaled_laws, parse, require}
use junglegaming_test.Wager.Rehydrate.{
  rehydrate, validate_rehydrated_wager, validate_rehydrated_external, validate_state,
  validate_processed_state, validate_persisted_reference,
}
use junglegaming_test.Currency
use junglegaming_test.Money
use junglegaming_test.Wallet
use junglegaming_test.Wallet.{rehydrate_wallet, validate_movement, apply_balance}
use junglegaming_test.LedgerEntry.{
  new_ledger_entry, build_ledger_entry, is_valid_direction, expected_balance,
  validate_ledger_balance,
}
use junglegaming_test.Wager.Kinds.{
  is_external, requires_reference, allows_reference, is_terminal, is_valid_status,
  is_allowed_transition, is_allowed_reference_type, is_valid_type,
}
use junglegaming_test.Wager.State.{
  is_valid_identifier, validate_external_reference, validate_wager_amount, movement_direction,
  direction_of,
}
use junglegaming_test.Wager.Create.{new_external, validate_external_wager}
use junglegaming_test.Wager.Complete.{mark_processed}
use junglegaming_test.Backoff.{default_reference_retry_policy}
use junglegaming_test.Store.{statement, lift, raise_if, clock_now, new_uuid}
use junglegaming_test.Store.Run.{succeeds}
use junglegaming_test.Store.Columns.{scan_columns, scanned_params, nullable_money}
use junglegaming_test.Store.Ledger.{read_money}
use junglegaming_test.Store.Wagers.{
  create_wager, any_row, conflicts, insert_wager, names_wallet, read_rows, update_wager,
  update_rows, updated_wager, reverses_again, is_reversal_of, write_rows, find_by_key, find_row,
  scan_wager,
}
use junglegaming_test.Store.Wallets.{
  find_wallet_for_update, wallet_row, scan_wallet, update_wallet, put_wallet, updated_row,
  update_row, create_entry, create_event,
}
use junglegaming_test.Service.{
  ProcessResult, lock_wallet, owned_wallet, settle, apply_movement, after_movement, move_wallet,
  record_movement,
}
use junglegaming_test.Service.Events.{
  processed_data, create_processed_event, create_balance_changed_event,
}
use junglegaming_test.Service.Process.{
  process, process_inserted, process_new, params_of, resolve_existing, resolve_found, replay,
}
use junglegaming_test.Service.Moves.{IsReconciled}
use junglegaming_test.Service.Command.{parse_wager_request, wager_type_of, hashed}
use junglegaming_test.Service.Submit.{process_command, process_parsed}
use junglegaming_test.Account.{known_id, of_result}
use junglegaming_test.Ingress.{
  Desk, on_store, with_store, register, registered, insert_message, find_message, complete,
  completed, complete_rows, is_open, is_complete,
}
use junglegaming_test.Ingress.Message.{Envelope, wager_message_to_command, text_or_empty}
use junglegaming_test.Ingress.Handler.{Codec, handle_message, handle_registered}
use junglegaming_test.Ingress.Kept.{handles, here}
use junglegaming_test.Ingress.Once.{handle_message_again}
use junglegaming_test.Ingress.Consumer.{QueueMessage, Consumer, poll_from, poll_once}
use junglegaming_test.Ingress.Fates.{AreFates, poll_from-AreFates}
use junglegaming_test.Ingress.Polling.{Line, wager_consumer, poll_once-IsReconciled}
use junglegaming_test.Tests.Service.{opened, opened-IsReconciled, calm}

abbrev bet_message : Envelope
bet_message = record {
  message_id = "m-1";
  type_text = "WagerTransactionRequested";
  occurred_at = 90;
  data_of = record {
    provider_id = "prov";
    external_transaction_id = "x-1";
    idempotency_key = "k-1";
    player_id = "p";
    wallet_id = "w";
    round_id = "r-1";
    game_id = "g-1";
    kind = "BET";
    amount = "25.00";
    currency = "BRL";
    reference_external_transaction_id = none;
  };
}

abbrev read_id : String → Option ℕ
read_id String.[] = none
read_id (String.◌∷◌ c s) = if code c == b'w' then some 7 else some 3

abbrev codec : Codec ℤ
codec = record {
  unmarshal = λ s. some bet_message;
  parse_uuid = read_id;
  hash_request = λ r. some "h-1";
  hash_message = λ s. "b-1";
}

abbrev desk : Desk ℤ
desk = record { store = opened; inbox = [] }

-- The outcome of the first delivery.
abbrev first_delivery : Option (ProcessResult ℤ) × Desk ℤ
first_delivery =
    elim (handle_message ⦃env = calm 0⦄ codec default_reference_retry_policy bet_message "b-1"
      desk) [ ok p ↦ p | err e ↦ (none, desk) ]

first_delivery-ok :
    handle_message ⦃env = calm 0⦄ codec default_reference_retry_policy bet_message "b-1" desk
    ≡ ok first_delivery
unfolding handle_message register registered insert_message find_message on_store with_store
    statement handle_registered process_command process_parsed parse_wager_request known_id
    of_result wager_type_of hashed wager_message_to_command text_or_empty Currency.new_currency
    Money.parse_money Money.matches_amount Money.new_money_from raise_if process process_inserted
    process_new params_of lift is_blank new_external validate_external_wager is_valid_identifier
    validate_external_reference validate_wager_amount is_external requires_reference
    allows_reference Money.is_valid Money.is_amount_in_range Money.is_positive Money.is_negative
    Money.equal Money.sub Money.compare Money.new_money Currency.is_valid Currency.equal parse
    require ◌-ℤ◌ create_wager any_row conflicts insert_wager names_wallet read_rows lock_wallet
    find_wallet_for_update wallet_row scan_wallet owned_wallet rehydrate_wallet settle
    apply_movement movement_direction direction_of after_movement move_wallet Wallet.debit
    validate_movement apply_balance record_movement mark_processed is_terminal
    is_allowed_reference_type is_valid_status is_allowed_transition update_wallet put_wallet
    updated_row update_row update_wager update_rows updated_wager reverses_again is_reversal_of
    write_rows new_ledger_entry build_ledger_entry is_valid_direction expected_balance
    validate_ledger_balance create_entry create_event processed_data create_processed_event
    create_balance_changed_event clock_now new_uuid complete completed complete_rows is_open
    is_complete
first_delivery-ok = refl

-- Another message that has the same command comes in between, and is answered with the row.
abbrev other_message : Envelope
other_message = record bet_message { message_id = "m-2" }

abbrev other_delivery : Option (ProcessResult ℤ) × Desk ℤ
other_delivery =
    elim (handle_message ⦃env = calm 1⦄ codec default_reference_retry_policy other_message "b-2"
      first_delivery.1) [ ok p ↦ p | err e ↦ (none, desk) ]

other_delivery-ok :
    handle_message ⦃env = calm 1⦄ codec default_reference_retry_policy other_message "b-2"
      first_delivery.1
    ≡ ok other_delivery
unfolding handle_message register registered insert_message find_message on_store with_store
    statement handle_registered process_command process_parsed parse_wager_request known_id
    of_result wager_type_of hashed wager_message_to_command text_or_empty Currency.new_currency
    Money.parse_money Money.matches_amount Money.new_money_from raise_if process process_inserted
    process_new params_of lift is_blank new_external validate_external_wager is_valid_identifier
    validate_external_reference validate_wager_amount is_external requires_reference
    allows_reference Money.is_valid Money.is_amount_in_range Money.is_positive Money.is_negative
    Money.equal Money.sub Money.compare Money.new_money Currency.is_valid Currency.equal parse
    require ◌-ℤ◌ create_wager any_row conflicts insert_wager names_wallet read_rows lock_wallet
    find_wallet_for_update wallet_row scan_wallet owned_wallet rehydrate_wallet settle
    apply_movement movement_direction direction_of after_movement move_wallet Wallet.debit
    validate_movement apply_balance record_movement mark_processed is_terminal
    is_allowed_reference_type is_valid_status is_allowed_transition update_wallet put_wallet
    updated_row update_row update_wager update_rows updated_wager reverses_again is_reversal_of
    write_rows new_ledger_entry build_ledger_entry is_valid_direction expected_balance
    validate_ledger_balance create_entry create_event processed_data create_processed_event
    create_balance_changed_event clock_now new_uuid complete completed complete_rows is_open
    is_complete resolve_existing resolve_found replay find_by_key find_row scan_wager scan_columns
    nullable_money scanned_params read_money rehydrate validate_rehydrated_wager
    validate_rehydrated_external validate_state validate_processed_state
    validate_persisted_reference is_valid_type
other_delivery-ok = refl

handle_message_again_example :
    handle_message ⦃env = calm 2⦄ codec default_reference_retry_policy bet_message "b-1"
      other_delivery.1
    ≡ ok (
      none,
      record other_delivery.1 {
        store = record other_delivery.1.store { steps = other_delivery.1.store.steps + 1 + 1 };
      },
    )
handle_message_again_example =
    handle_message_again (calm 0) (calm 2) codec default_reference_retry_policy bet_message "b-1"
      desk first_delivery.1 other_delivery.1 first_delivery.0 first_delivery-ok
      (handles (calm 1) codec default_reference_retry_policy other_message "b-2" other_delivery.0
        here other_delivery-ok)
      refl refl

abbrev queued : String → QueueMessage
queued id = record { message_id = id; body = "{}"; receive_count = some 3; group_id = "" }

-- The second message fails for good, the third one for now.
abbrev picky : Consumer ℕ String
picky = record {
  handler =
      λ n m. if n == 0 then (none, 1) else if n == 1 then (some "bad", 2) else (some "busy", 3);
  is_transient = λ e. str_eq e "busy";
  refuses = λ c. none;
  is_stopped = λ i. false;
}

abbrev batch : List QueueMessage
batch = queued "a" ∷ queued "b" ∷ queued "c" ∷ queued "d" ∷ []

poll_from-AreFates_example : AreFates picky batch (poll_from picky 0 batch 0).calls
poll_from-AreFates_example = poll_from-AreFates picky 0 batch 0

abbrev line : Line
line = record {
  is_transient = λ e. false;
  refuses = λ c. none;
  is_stopped = λ i. false;
  during = λ m. record { world = calm; commits = λ n. succeeds; waits = λ n. true };
}

poll_once-IsReconciled_example :
    IsReconciled
      (poll_once
        (wager_consumer codec default_reference_retry_policy ("prov" ∷ []) line)
        (ok batch)
        false
        desk).1.state.store
poll_once-IsReconciled_example =
    poll_once-IsReconciled codec default_reference_retry_policy ("prov" ∷ []) line (ok batch) false
      desk opened-IsReconciled
