-- ===== src/Wager/Rehydrate.antt =====
-- internal/domain/wager_transaction.go: `RehydrateWagerTransaction` and the checks of persisted state.
use junglegaming_test.Base.{
  ℕ, String, not, ◌&&◌, ◌||◌, Option, none, some, is_some, Result, ok, err, ◌>>=◌, ◌>>◌, fail_if,
  ltb, ◌==◌, str_eq, is_blank, if◌then◌else◌,
}
use junglegaming_test.Decimal.{Decimal}
use junglegaming_test.Errors.{
  DomainError, invalid_wallet_id, invalid_player_id, invalid_money, invalid_timestamp,
  amount_must_be_positive, currency_mismatch, invalid_transaction_id, invalid_provider_id,
  invalid_external_transaction_id, invalid_idempotency_key, invalid_payload_hash, invalid_round_id,
  invalid_game_id, invalid_wager_type, invalid_wager_status, invalid_wager_reference,
  invalid_financial_result, invalid_wager_state,
}
use junglegaming_test.Currency
use junglegaming_test.Money
use junglegaming_test.Money.{Money}
use junglegaming_test.Wager.Kinds.{
  WagerType, Status, pending, pending_reference, processed, rejected, failed, is_opening, is_loss,
  is_external, is_allowed_reference_type, is_valid_status, is_processed, is_unset, is_valid_type,
}
use junglegaming_test.Wager.State.{
  WagerTransaction, validate_external_reference, validate_wager_amount,
}

-- `RehydrateWagerTransactionParams`; a pointer is an option.
pub record RehydrateParams (A : Type 0) : Type 0 where
  pub id : ℕ
  pub provider_id : String
  pub external_transaction_id : String
  pub idempotency_key : String
  pub payload_hash : String
  pub wallet_id : ℕ
  pub player_id : ℕ
  pub round_id : String
  pub game_id : String
  pub transaction_type : WagerType
  pub amount : Money A
  pub reference_external_transaction_id : String
  pub reference_transaction_id : ℕ
  pub reference_transaction_type : WagerType
  pub status : Status
  pub failure_code : String
  pub failure_message : String
  pub balance_before : Option (Money A)
  pub balance_after : Option (Money A)
  pub created_at : ℕ
  pub updated_at : ℕ
  pub completed_at : Option ℕ

module _ {A : Type 0} ⦃decimal : Decimal A⦄ where
  -- `validatePendingState`
  unfoldable pub validate_pending_state : RehydrateParams A → Result DomainError (Unit {0})
  validate_pending_state p =
      fail_if
        (is_some p.completed_at
          || is_some p.balance_before
          || is_some p.balance_after
          || not (str_eq p.failure_code "")
          || not (str_eq p.failure_message ""))
        invalid_wager_state

  -- `validatePendingReferenceState`
  unfoldable pub validate_pending_reference_state :
      RehydrateParams A → Result DomainError (Unit {0})
  unfolding validate_pending_state
  validate_pending_reference_state p = do
    fail_if
        (is_blank p.reference_external_transaction_id
          || not (p.reference_transaction_id == 0)
          || not (is_unset p.reference_transaction_type))
        invalid_wager_state
    validate_pending_state p

  -- The tests of `validateProcessedState` on the two balances, which are not nil.
  unfoldable pub validate_processed_balances :
      RehydrateParams A → Option (Money A) → Option (Money A) → Result DomainError (Unit {0})
  validate_processed_balances p (some before) (some after) = do
    fail_if (Money.is_negative before || Money.is_negative after) invalid_financial_result
    fail_if
        (not (Currency.equal p.amount.currency before.currency)
          || not (Currency.equal p.amount.currency after.currency))
        currency_mismatch
    fail_if (is_loss p.transaction_type && not (Money.equal before after)) invalid_financial_result
  validate_processed_balances p _ _ = err invalid_wager_state

  -- `validateProcessedState`
  unfoldable pub validate_processed_state : RehydrateParams A → Result DomainError (Unit {0})
  unfolding validate_processed_balances
  validate_processed_state p = do
    fail_if
        (not (is_some p.completed_at)
          || not (is_some p.balance_before)
          || not (is_some p.balance_after)
          || not (str_eq p.failure_code "")
          || not (str_eq p.failure_message ""))
        invalid_wager_state
    fail_if (not (is_blank p.reference_external_transaction_id) && p.reference_transaction_id == 0)
        invalid_wager_reference
    validate_processed_balances p p.balance_before p.balance_after

  -- `validateFailureState`
  unfoldable pub validate_failure_state : RehydrateParams A → Result DomainError (Unit {0})
  validate_failure_state p =
      fail_if
        (is_blank p.failure_code
          || not (is_some p.completed_at)
          || is_some p.balance_before
          || is_some p.balance_after)
        invalid_wager_state

  -- `validatePersistedReference`; `!=` on Booleans is `xor`.
  unfoldable pub validate_persisted_reference : RehydrateParams A → Result DomainError (Unit {0})
  validate_persisted_reference p = do
    let has_external = not (is_blank p.reference_external_transaction_id)
    let has_internal = not (p.reference_transaction_id == 0)
    let has_type = not (is_unset p.reference_transaction_type)
    fail_if ((has_internal || has_type) && not has_external) invalid_wager_reference
    fail_if (if has_internal then not has_type else has_type) invalid_wager_reference
    fail_if (has_type && not (is_valid_type p.reference_transaction_type)) invalid_wager_reference
    fail_if
        (has_type
          && not (is_allowed_reference_type p.transaction_type p.reference_transaction_type))
        invalid_wager_reference

  -- The `switch` of `validateRehydratedExternal` on the status.
  unfoldable pub validate_state : Status → RehydrateParams A → Result DomainError (Unit {0})
  unfolding validate_pending_state validate_pending_reference_state validate_processed_state
      validate_failure_state
  validate_state pending p = validate_pending_state p
  validate_state pending_reference p = validate_pending_reference_state p
  validate_state processed p = validate_processed_state p
  validate_state rejected p = validate_failure_state p
  validate_state failed p = validate_failure_state p
  validate_state (Status.unknown s) p = err invalid_wager_status

  -- `validateRehydratedExternal`
  unfoldable pub validate_rehydrated_external : RehydrateParams A → Result DomainError (Unit {0})
  validate_rehydrated_external p = do
    fail_if (is_blank p.provider_id) invalid_provider_id
    fail_if (is_blank p.external_transaction_id) invalid_external_transaction_id
    fail_if (is_blank p.idempotency_key) invalid_idempotency_key
    fail_if (is_blank p.payload_hash) invalid_payload_hash
    fail_if (is_blank p.round_id) invalid_round_id
    fail_if (is_blank p.game_id) invalid_game_id
    fail_if (not (is_external p.transaction_type)) invalid_wager_type
    validate_wager_amount p.transaction_type p.amount
    validate_external_reference p.transaction_type p.reference_external_transaction_id
    validate_persisted_reference p
    validate_state p.status p

  -- The last tests of `validateRehydratedOpening`, on the two balances, which are not nil.
  unfoldable pub validate_opening_balances :
      RehydrateParams A → Option (Money A) → Option (Money A) → Result DomainError (Unit {0})
  validate_opening_balances p (some before) (some after) = do
    zero ← Money.zero_money p.amount.currency
    fail_if (not (Money.equal before zero) || not (Money.equal after p.amount))
        invalid_financial_result
  validate_opening_balances p _ _ = err invalid_wager_state

  -- `validateRehydratedOpening`
  unfoldable pub validate_rehydrated_opening : RehydrateParams A → Result DomainError (Unit {0})
  unfolding validate_opening_balances
  validate_rehydrated_opening p = do
    fail_if
        (not (is_blank p.provider_id)
          || not (is_blank p.external_transaction_id)
          || not (is_blank p.idempotency_key)
          || not (is_blank p.payload_hash)
          || not (is_blank p.round_id)
          || not (is_blank p.game_id)
          || not (is_blank p.reference_external_transaction_id)
          || not (p.reference_transaction_id == 0)
          || not (is_unset p.reference_transaction_type))
        invalid_wager_state
    fail_if (not (Money.is_positive p.amount)) amount_must_be_positive
    fail_if
        (not (is_processed p.status)
          || not (is_some p.balance_before)
          || not (is_some p.balance_after)
          || not (is_some p.completed_at)
          || not (str_eq p.failure_code "")
          || not (str_eq p.failure_message ""))
        invalid_wager_state
    validate_opening_balances p p.balance_before p.balance_after

  -- The test of `validateRehydratedWager` on the time of completion.
  unfoldable pub validate_completed_at :
      RehydrateParams A → Option ℕ → Result DomainError (Unit {0})
  validate_completed_at p none = ok tt
  validate_completed_at p (some at) =
      fail_if (at == 0 || ltb at p.created_at || ltb p.updated_at at) invalid_timestamp

  -- `validateRehydratedWager`
  unfoldable pub validate_rehydrated_wager : RehydrateParams A → Result DomainError (Unit {0})
  unfolding validate_completed_at
  validate_rehydrated_wager p = do
    fail_if (p.id == 0) invalid_transaction_id
    fail_if (p.wallet_id == 0) invalid_wallet_id
    fail_if (p.player_id == 0) invalid_player_id
    fail_if (not (is_valid_type p.transaction_type)) invalid_wager_type
    fail_if (not (is_valid_status p.status)) invalid_wager_status
    fail_if (not (Money.is_valid p.amount)) invalid_money
    fail_if (p.created_at == 0 || p.updated_at == 0 || ltb p.updated_at p.created_at)
        invalid_timestamp
    validate_completed_at p p.completed_at
    (if is_opening p.transaction_type
        then validate_rehydrated_opening p
        else validate_rehydrated_external p)

  -- `RehydrateWagerTransaction`
  unfoldable pub rehydrate : RehydrateParams A → Result DomainError (WagerTransaction A)
  rehydrate p = do
    validate_rehydrated_wager p
    ok (record {
      id = p.id;
      provider_id = p.provider_id;
      external_transaction_id = p.external_transaction_id;
      idempotency_key = p.idempotency_key;
      payload_hash = p.payload_hash;
      wallet_id = p.wallet_id;
      player_id = p.player_id;
      round_id = p.round_id;
      game_id = p.game_id;
      transaction_type = p.transaction_type;
      amount = p.amount;
      reference_external_transaction_id = p.reference_external_transaction_id;
      reference_transaction_id = p.reference_transaction_id;
      reference_transaction_type = p.reference_transaction_type;
      status = p.status;
      failure_code = p.failure_code;
      failure_message = p.failure_message;
      balance_before = p.balance_before;
      balance_after = p.balance_after;
      created_at = p.created_at;
      updated_at = p.updated_at;
      completed_at = p.completed_at;
    })
