-- ===== src/Wager/Create.antt =====
-- internal/domain/wager_transaction.go: new transactions.
use junglegaming_test.Base.{
  len, not, ◌||◌, none, some, Result, ok, ◌>>=◌, ◌>>◌, fail_if, leb, ◌==◌, str_eq, is_blank,
}
use junglegaming_test.Decimal.{Decimal}
use junglegaming_test.Errors.{
  DomainError, invalid_wallet_id, invalid_player_id, invalid_money, invalid_timestamp,
  amount_must_be_positive, invalid_transaction_id, invalid_provider_id,
  invalid_external_transaction_id, invalid_idempotency_key, invalid_payload_hash, invalid_round_id,
  invalid_game_id, invalid_wager_type, invalid_wager_reference,
}
use junglegaming_test.Money
use junglegaming_test.Money.{Money}
use junglegaming_test.Wager.Kinds.{opening, unset, pending, processed, is_external}
use junglegaming_test.Wager.State.{
  max_identifier_length, NewExternalParams, NewOpeningParams, WagerTransaction, is_valid_identifier,
  validate_external_reference, validate_wager_amount,
}

module _ {A : Type 0} ⦃decimal : Decimal A⦄ where
  -- `validateExternalWager`
  unfoldable pub validate_external_wager : NewExternalParams A → Result DomainError (Unit {0})
  validate_external_wager p = do
    fail_if (p.id == 0) invalid_transaction_id
    fail_if (not (is_valid_identifier p.provider_id)) invalid_provider_id
    fail_if (not (is_valid_identifier p.external_transaction_id)) invalid_external_transaction_id
    fail_if (not (is_valid_identifier p.idempotency_key)) invalid_idempotency_key
    fail_if (is_blank p.payload_hash) invalid_payload_hash
    fail_if (p.wallet_id == 0) invalid_wallet_id
    fail_if (p.player_id == 0) invalid_player_id
    fail_if (not (is_valid_identifier p.round_id)) invalid_round_id
    fail_if (not (is_valid_identifier p.game_id)) invalid_game_id
    fail_if (not (is_external p.transaction_type)) invalid_wager_type
    fail_if (not (Money.is_valid p.amount)) invalid_money
    validate_wager_amount p.transaction_type p.amount
    validate_external_reference p.transaction_type p.reference_external_transaction_id
    fail_if
        (not (leb (len p.reference_external_transaction_id) max_identifier_length)
          || str_eq p.reference_external_transaction_id p.external_transaction_id)
        invalid_wager_reference
    fail_if (p.created_at == 0) invalid_timestamp

  -- `NewExternalWagerTransaction`
  unfoldable pub new_external : NewExternalParams A → Result DomainError (WagerTransaction A)
  new_external p = do
    validate_external_wager p
    ok (record {
      id = p.id;
      provider_id = p.provider_id;
      external_transaction_id = p.external_transaction_id;
      idempotency_key = p.idempotency_key;
      payload_hash = p.payload_hash;
      wallet_id = p.wallet_id;
      player_id = p.player_id;
      round_id = p.round_id;
      game_id = p.game_id;
      transaction_type = p.transaction_type;
      amount = p.amount;
      reference_external_transaction_id = p.reference_external_transaction_id;
      reference_transaction_id = 0;
      reference_transaction_type = unset;
      status = pending;
      failure_code = "";
      failure_message = "";
      balance_before = none;
      balance_after = none;
      created_at = p.created_at;
      updated_at = p.created_at;
      completed_at = none;
    })

  -- `NewOpeningWagerTransaction`
  unfoldable pub new_opening : NewOpeningParams A → Result DomainError (WagerTransaction A)
  new_opening p = do
    fail_if (p.id == 0) invalid_transaction_id
    fail_if (p.wallet_id == 0) invalid_wallet_id
    fail_if (p.player_id == 0) invalid_player_id
    fail_if (not (Money.is_valid p.amount)) invalid_money
    fail_if (not (Money.is_positive p.amount)) amount_must_be_positive
    fail_if (p.created_at == 0) invalid_timestamp
    zero ← Money.zero_money p.amount.currency
    ok (record {
      id = p.id;
      provider_id = "";
      external_transaction_id = "";
      idempotency_key = "";
      payload_hash = "";
      wallet_id = p.wallet_id;
      player_id = p.player_id;
      round_id = "";
      game_id = "";
      transaction_type = opening;
      amount = p.amount;
      reference_external_transaction_id = "";
      reference_transaction_id = 0;
      reference_transaction_type = unset;
      status = processed;
      failure_code = "";
      failure_message = "";
      balance_before = some zero;
      balance_after = some p.amount;
      created_at = p.created_at;
      updated_at = p.created_at;
      completed_at = some p.created_at;
    })
