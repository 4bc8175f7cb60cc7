-- ===== src/Wager/State.antt =====
-- internal/domain/wager_transaction.go: the transaction, the checks that its constructors share and
-- the change of its state. A method returns the changed transaction, or the error with the
-- transaction as it was.
use junglegaming_test.Base.{
  ℕ, String, len, Bool, true, false, not, ◌&&◌, ◌||◌, Option, Result, ok, err, ◌>>◌, fail_if, ltb,
  leb, ◌==◌, is_blank, if◌then◌else◌,
}
use junglegaming_test.Decimal.{Decimal}
use junglegaming_test.Errors.{
  DomainError, invalid_timestamp, amount_must_be_positive, invalid_wager_type, invalid_wager_status,
  invalid_wager_amount, invalid_wager_reference, invalid_wager_transition,
  wager_transaction_terminal,
}
use junglegaming_test.Money
use junglegaming_test.Money.{Money}
use junglegaming_test.LedgerEntry.{Direction, debit, credit, other}
use junglegaming_test.Wager.Kinds.{
  WagerType, bet, win, loss, refund, rollback, Status, is_loss, requires_reference,
  allows_reference, is_valid_status, is_terminal, is_allowed_transition,
}

abbrev pub max_identifier_length : ℕ
max_identifier_length = 255

-- `NewExternalWagerTransactionParams`
pub record NewExternalParams (A : Type 0) : Type 0 where
  pub id : ℕ
  pub provider_id : String
  pub external_transaction_id : String
  pub idempotency_key : String
  pub payload_hash : String
  pub wallet_id : ℕ
  pub player_id : ℕ
  pub round_id : String
  pub game_id : String
  pub transaction_type : WagerType
  pub amount : Money A
  pub reference_external_transaction_id : String
  pub created_at : ℕ

-- `NewOpeningWagerTransactionParams`
pub record NewOpeningParams (A : Type 0) : Type 0 where
  pub id : ℕ
  pub wallet_id : ℕ
  pub player_id : ℕ
  pub amount : Money A
  pub created_at : ℕ

pub record WagerTransaction (A : Type 0) : Type 0 where
  pub id : ℕ
  pub provider_id : String
  pub external_transaction_id : String
  pub idempotency_key : String
  pub payload_hash : String
  pub wallet_id : ℕ
  pub player_id : ℕ
  pub round_id : String
  pub game_id : String
  pub transaction_type : WagerType
  pub amount : Money A
  pub reference_external_transaction_id : String
  pub reference_transaction_id : ℕ
  pub reference_transaction_type : WagerType
  pub status : Status
  pub failure_code : String
  pub failure_message : String
  pub balance_before : Option (Money A)
  pub balance_after : Option (Money A)
  pub created_at : ℕ
  pub updated_at : ℕ
  pub completed_at : Option ℕ

-- `isValidIdentifier`
unfoldable pub is_valid_identifier : String → Bool
is_valid_identifier value = not (is_blank value) && leb (len value) max_identifier_length

-- `validateExternalReference`
unfoldable pub validate_external_reference : WagerType → String → Result DomainError (Unit {0})
validate_external_reference t reference = do
  fail_if (requires_reference t && is_blank reference) invalid_wager_reference
  fail_if (not (allows_reference t) && not (is_blank reference)) invalid_wager_reference

-- The inner `switch` of `MovementDirection`, on the type of the reference of a rollback.
unfoldable pub rollback_direction : WagerType → Result DomainError (Direction × Bool)
rollback_direction bet = ok (credit, true)
rollback_direction win = ok (debit, true)
rollback_direction refund = ok (debit, true)
rollback_direction _ = err invalid_wager_reference

unfoldable pub direction_of : WagerType → WagerType → Result DomainError (Direction × Bool)
unfolding rollback_direction
direction_of bet r = ok (debit, true)
direction_of win r = ok (credit, true)
direction_of refund r = ok (credit, true)
direction_of loss r = ok (other "", false)
direction_of rollback r = rollback_direction r
direction_of _ r = err invalid_wager_type

module _ {A : Type 0} ⦃decimal : Decimal A⦄ where
  -- `validateWagerAmount`
  unfoldable pub validate_wager_amount : WagerType → Money A → Result DomainError (Unit {0})
  validate_wager_amount t amount =
      if is_loss t
      then fail_if (not (Money.is_zero amount)) invalid_wager_amount
      else fail_if (not (Money.is_positive amount)) amount_must_be_positive

  -- `validateTimestamp`
  unfoldable pub validate_timestamp : WagerTransaction A → ℕ → Result DomainError (Unit {0})
  validate_timestamp w updated_at =
      fail_if (updated_at == 0 || ltb updated_at w.updated_at) invalid_timestamp

  -- `transitionTo`
  unfoldable pub transition_to :
      WagerTransaction A → Status → ℕ → Result DomainError (WagerTransaction A)
  unfolding validate_timestamp
  transition_to w status updated_at = do
    fail_if (is_terminal w.status) wager_transaction_terminal
    fail_if (not (is_valid_status status)) invalid_wager_status
    validate_timestamp w updated_at
    fail_if (not (is_allowed_transition w.status status)) invalid_wager_transition
    ok (record w { status = status; updated_at = updated_at })

  -- `MovementDirection`
  unfoldable pub movement_direction : WagerTransaction A → Result DomainError (Direction × Bool)
  movement_direction w = direction_of w.transaction_type w.reference_transaction_type
