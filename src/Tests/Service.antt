-- ===== src/Tests/Service.antt =====
-- A wallet whose balance was credited at its opening, and a bet that is made twice.
use junglegaming_test.Base.{
  ok, err, ◌⊎◌, ℕ, ◌+◌, ◌==◌, ◌≡◌, refl, sym, true, false, arith, Bool-cases, inl, inr, none, some,
  is_blank, [], ◌∷◌, if◌then◌else◌,
}
use junglegaming_test.Base.Int.{ℤ, ◌+ℤ◌, ◌-ℤ◌}
use junglegaming_test.Decimal.Scaled.{scaled, scaled_laws, parse, require}
use junglegaming_test.LedgerEntry.{Direction, LedgerEntry}
use junglegaming_test.Wager.Kinds.{bet}
use junglegaming_test.Backoff.{default_reference_retry_policy}
use junglegaming_test.Store.{Store, Environment}
use junglegaming_test.Service.Process.{WagerRequest}
use junglegaming_test.Store.Ledger.{ledger_count, read_money}
use junglegaming_test.Service.Moves.{ledger_total, IsReconciled}
use junglegaming_test.Service.Serve.{
  Call, processing, retrying, failing, run_all, run_all-IsReconciled,
}
use junglegaming_test.Store.Run.{succeeds, attempt, committed, is_conflict}
use junglegaming_test.Service.Process.{
  process, process_new, resolve_existing, resolve_found, replay, params_of,
}
use junglegaming_test.Store.{statement, lift, raise_if, clock_now, new_uuid}
use junglegaming_test.Wager.Create.{new_external, validate_external_wager}
use junglegaming_test.Wager.State.{
  is_valid_identifier, validate_external_reference, validate_wager_amount, movement_direction,
  direction_of,
}
use junglegaming_test.Wager.Kinds.{
  is_external, requires_reference, allows_reference, is_terminal, is_allowed_reference_type,
  is_valid_status, is_allowed_transition, is_valid_type,
}
use junglegaming_test.Store.Columns.{scan_columns, scanned_params, nullable_money}
use junglegaming_test.Store.Wagers.{
  create_wager, any_row, conflicts, insert_wager, names_wallet, read_rows, update_wager,
  update_rows, updated_wager, reverses_again, is_reversal_of, write_rows, find_by_key, find_row,
  scan_wager,
}
use junglegaming_test.Service.{
  lock_wallet, owned_wallet, settle, apply_movement, after_movement, move_wallet, record_movement,
}
use junglegaming_test.Store.Wallets.{
  find_wallet_for_update, wallet_row, scan_wallet, update_wallet, put_wallet, updated_row,
  update_row, create_entry, create_event,
}
use junglegaming_test.Wallet.{rehydrate_wallet, validate_movement, apply_balance}
use junglegaming_test.Wager.Complete.{mark_processed}
use junglegaming_test.LedgerEntry.{
  new_ledger_entry, build_ledger_entry, is_valid_direction, expected_balance,
  validate_ledger_balance,
}
use junglegaming_test.Service.Events.{
  processed_data, create_processed_event, create_balance_changed_event,
}
use junglegaming_test.Wager.Rehydrate.{
  rehydrate, validate_rehydrated_wager, validate_rehydrated_external, validate_state,
  validate_processed_state, validate_persisted_reference,
}
use junglegaming_test.Currency
use junglegaming_test.Money
use junglegaming_test.Wallet
use junglegaming_test.Service.{ProcessResult}
use junglegaming_test.Service.Posting.{IsPosted}
use junglegaming_test.Service.Answers.{process-IsAnswered}
use junglegaming_test.Store.Frame.{SameMoney}
use junglegaming_test.Tests.Wager.{pending_bet}
use junglegaming_test.Tests.Data.{brl, cash, purse, emptier}
use junglegaming_test.Tests.Wallet.{purse-IsValid}

-- The entry of the opening of the purse.
abbrev opening_entry : LedgerEntry ℤ
opening_entry = record {
  id = 50;
  wallet_id = 7;
  transaction_id = 51;
  direction = Direction.credit;
  amount = cash 10000;
  balance_before = cash 0;
  balance_after = cash 10000;
  created_at = 10;
}

abbrev pub opened : Store ℤ
opened = record {
  wallets = λ id. if id == 7 then some purse else none;
  accounts = record { player_id = 3; currency = brl } ∷ [];
  wagers = [];
  ledger = opening_entry ∷ [];
  outbox = [];
  steps = 0;
}

-- A database without faults, whose clock and identifiers go up.
abbrev pub calm : ℕ → Environment
calm n = record { fault = λ step. none; clock = λ step. 100 + step; new_id = λ step. 1000 + step }

abbrev pub bet_request : WagerRequest ℤ
bet_request = record {
  provider_id = "prov";
  external_transaction_id = "x-1";
  idempotency_key = "k-1";
  round_id = "r-1";
  game_id = "g-1";
  reference_external_transaction_id = "";
  wallet_id = 7;
  player_id = 3;
  transaction_type = bet;
  amount = cash 2500;
  payload_hash = "h-1";
}

abbrev pub bet_call : Call ℤ
bet_call = record {
  request = bet_request;
  metadata = record { correlation_id = "c-1"; causation_id = "" };
  attempts = record { world = calm; commits = λ n. succeeds; waits = λ n. true };
}

pub opened-IsReconciled : IsReconciled opened
unfolding ledger_count ledger_total ◌+ℤ◌
opened-IsReconciled = record {
  valid = λ id w h. elim (Bool-cases (id == 7)) [
    | inl own ↦
        let (same, named) : (purse ≡ w) × (id ≡ 7) = ground arith in
        (rw (← same) purse-IsValid, rw (← same) (sym named))
    | inr not_own ↦ absurd (ground arith)
  ];
  balanced = λ id w h. elim (Bool-cases (id == 7)) [
    | inl own ↦ let (same, named) : (purse ≡ w) × (id ≡ 7) = ground arith in rw (← same, named) refl
    | inr not_own ↦ absurd (ground arith)
  ];
  owned = λ id h. elim (Bool-cases (id == 7)) [
    | inl own ↦ absurd (ground arith)
    | inr not_own ↦ ground arith
  ];
}

run_all-IsReconciled_example : IsReconciled (
    run_all default_reference_retry_policy
      (processing bet_call ∷ retrying bet_call.attempts ∷ failing 9 bet_call.attempts ∷ [])
      opened)
run_all-IsReconciled_example =
    run_all-IsReconciled default_reference_retry_policy
      (processing bet_call ∷ retrying bet_call.attempts ∷ failing 9 bet_call.attempts ∷ []) opened
      opened-IsReconciled

-- The bet is taken once: the second call is a replay.
run_all-bets :
    let s =
      run_all default_reference_retry_policy
        (processing bet_call ∷ processing bet_call ∷ [])
        opened in
    s.wallets 7 ≡ some (record emptier { updated_at = 104 })
unfolding run_all attempt committed is_conflict process statement lift raise_if is_blank
    new_external validate_external_wager is_valid_identifier validate_external_reference
    validate_wager_amount is_external requires_reference allows_reference Money.is_valid
    Money.is_amount_in_range Money.is_positive Money.is_negative Money.equal Money.sub Money.compare
    Money.new_money Currency.is_valid Currency.equal parse require ◌-ℤ◌ create_wager any_row
    conflicts insert_wager names_wallet read_rows lock_wallet find_wallet_for_update wallet_row
    scan_wallet owned_wallet rehydrate_wallet process_new settle apply_movement movement_direction
    direction_of after_movement move_wallet Wallet.debit validate_movement apply_balance
    record_movement mark_processed is_terminal is_allowed_reference_type is_valid_status
    is_allowed_transition update_wallet put_wallet updated_row update_row update_wager update_rows
    updated_wager reverses_again is_reversal_of write_rows new_ledger_entry build_ledger_entry
    is_valid_direction expected_balance validate_ledger_balance create_entry create_event
    processed_data create_processed_event create_balance_changed_event clock_now new_uuid
    resolve_existing resolve_found replay find_by_key find_row scan_wager scan_columns
    nullable_money scanned_params read_money Currency.new_currency rehydrate
    validate_rehydrated_wager validate_rehydrated_external validate_state validate_processed_state
    validate_persisted_reference is_valid_type params_of
run_all-bets = refl

-- The outcome of the bet.
abbrev outcome : ProcessResult ℤ × Store ℤ
outcome =
    elim (process ⦃env = calm 2⦄ default_reference_retry_policy bet_request bet_call.metadata
      opened) [
        | ok p ↦ p
        | err e ↦ (record { transaction = pending_bet; idempotent_replay = false }, opened)
      ]

process-bet_request :
    process ⦃env = calm 2⦄ default_reference_retry_policy bet_request bet_call.metadata opened
    ≡ ok outcome
unfolding attempt committed is_conflict process statement lift raise_if is_blank new_external
    validate_external_wager is_valid_identifier validate_external_reference validate_wager_amount
    is_external requires_reference allows_reference Money.is_valid Money.is_amount_in_range
    Money.is_positive Money.is_negative Money.equal Money.sub Money.compare Money.new_money
    Currency.is_valid Currency.equal parse require ◌-ℤ◌ create_wager any_row conflicts insert_wager
    names_wallet read_rows lock_wallet find_wallet_for_update wallet_row scan_wallet owned_wallet
    rehydrate_wallet process_new settle apply_movement movement_direction direction_of
    after_movement move_wallet Wallet.debit validate_movement apply_balance record_movement
    mark_processed is_terminal is_allowed_reference_type is_valid_status is_allowed_transition
    update_wallet put_wallet updated_row update_row update_wager update_rows updated_wager
    reverses_again is_reversal_of write_rows new_ledger_entry build_ledger_entry is_valid_direction
    expected_balance validate_ledger_balance create_entry create_event processed_data
    create_processed_event create_balance_changed_event clock_now new_uuid resolve_existing
    resolve_found replay find_by_key find_row scan_wager scan_columns nullable_money scanned_params
    read_money Currency.new_currency rehydrate validate_rehydrated_wager
    validate_rehydrated_external validate_state validate_processed_state
    validate_persisted_reference is_valid_type params_of
process-bet_request = refl

process-IsAnswered_example : IsPosted opened outcome.0 outcome.1 ⊎ SameMoney opened outcome.1
process-IsAnswered_example =
    process-IsAnswered ⦃env = calm 2⦄ default_reference_retry_policy bet_request bet_call.metadata
      opened outcome.1 outcome.0 process-bet_request
