-- ===== src/Wager/Complete.antt =====
-- internal/domain/wager_transaction.go: the ends of a transaction.
use junglegaming_test.Base.{
  ℕ, String, not, ◌&&◌, ◌||◌, some, Result, ok, ◌>>=◌, ◌>>◌, fail_if, is_blank,
}
use junglegaming_test.Decimal.{Decimal}
use junglegaming_test.Errors.{
  DomainError, invalid_money, currency_mismatch, invalid_wager_transition,
  wager_transaction_terminal, invalid_failure_code, invalid_financial_result,
}
use junglegaming_test.Currency
use junglegaming_test.Money
use junglegaming_test.Money.{Money}
use junglegaming_test.Wager.Kinds.{
  Status, processed, rejected, failed, is_opening, is_loss, is_terminal, is_pending,
}
use junglegaming_test.Wager.State.{WagerTransaction, transition_to}
use junglegaming_test.Wager.Reference.{validate_reference_ready}

module _ {A : Type 0} ⦃decimal : Decimal A⦄ where
  -- `validateObservedBalances`
  unfoldable pub validate_observed_balances :
      WagerTransaction A → Money A → Money A → Result DomainError (Unit {0})
  validate_observed_balances w before after = do
    fail_if (not (Money.is_valid before) || not (Money.is_valid after)) invalid_money
    fail_if (Money.is_negative before || Money.is_negative after) invalid_financial_result
    fail_if
        (not (Currency.equal w.amount.currency before.currency)
          || not (Currency.equal w.amount.currency after.currency))
        currency_mismatch
    fail_if (is_loss w.transaction_type && not (Money.equal before after)) invalid_financial_result

  -- `MarkProcessed`
  unfoldable pub mark_processed :
      WagerTransaction A → Money A → Money A → ℕ → Result DomainError (WagerTransaction A)
  unfolding transition_to validate_reference_ready validate_observed_balances
  mark_processed w before after completed_at = do
    fail_if (is_terminal w.status) wager_transaction_terminal
    fail_if (not (is_pending w.status)) invalid_wager_transition
    validate_reference_ready w
    validate_observed_balances w before after
    moved ← transition_to w processed completed_at
    ok (record moved {
      balance_before = some before;
      balance_after = some after;
      completed_at = some completed_at;
    })

  -- `completeWithFailure`
  unfoldable pub complete_with_failure :
      WagerTransaction A → Status → String → String → ℕ → Result DomainError (WagerTransaction A)
  unfolding transition_to
  complete_with_failure w status failure_code failure_message completed_at = do
    fail_if (is_terminal w.status) wager_transaction_terminal
    fail_if (is_opening w.transaction_type) invalid_wager_transition
    fail_if (is_blank failure_code) invalid_failure_code
    moved ← transition_to w status completed_at
    ok (record moved {
      failure_code = failure_code;
      failure_message = failure_message;
      completed_at = some completed_at;
    })

  -- `MarkRejected`
  unfoldable pub mark_rejected :
      WagerTransaction A → String → String → ℕ → Result DomainError (WagerTransaction A)
  unfolding complete_with_failure
  mark_rejected w failure_code failure_message completed_at =
      complete_with_failure w rejected failure_code failure_message completed_at

  -- `MarkFailed`
  unfoldable pub mark_failed :
      WagerTransaction A → String → String → ℕ → Result DomainError (WagerTransaction A)
  unfolding complete_with_failure
  mark_failed w failure_code failure_message completed_at =
      complete_with_failure w failed failure_code failure_message completed_at
