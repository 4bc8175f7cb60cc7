-- ===== src/Wager/Reference.antt =====
-- internal/domain/wager_transaction.go: waiting for a reference, resolving it, and whether it is ready.
use junglegaming_test.Base.{
  ℕ, not, ◌&&◌, ◌||◌, Result, ok, ◌>>◌, fail_if, ◌==◌, str_eq, is_blank, if◌then◌else◌,
}
use junglegaming_test.Decimal.{Decimal}
use junglegaming_test.Errors.{
  DomainError, invalid_wager_reference, wager_reference_mismatch, wager_reference_not_processed,
  invalid_wager_transition, wager_transaction_terminal,
}
use junglegaming_test.Currency
use junglegaming_test.Money
use junglegaming_test.Money.{Money}
use junglegaming_test.Wager.Kinds.{
  pending, pending_reference, equal_type, requires_reference, allows_reference,
  is_allowed_reference_type, is_terminal, is_pending, is_pending_reference, is_processed,
}
use junglegaming_test.Wager.State.{WagerTransaction, validate_timestamp, transition_to}

module _ {A : Type 0} ⦃decimal : Decimal A⦄ where
  -- `MarkPendingReference`
  unfoldable pub mark_pending_reference :
      WagerTransaction A → ℕ → Result DomainError (WagerTransaction A)
  unfolding transition_to
  mark_pending_reference w updated_at = do
    fail_if (is_terminal w.status) wager_transaction_terminal
    fail_if (not (is_pending w.status)) invalid_wager_transition
    fail_if (not (allows_reference w.transaction_type)) invalid_wager_reference
    fail_if (is_blank w.reference_external_transaction_id) invalid_wager_reference
    fail_if (not (w.reference_transaction_id == 0)) invalid_wager_reference
    transition_to w pending_reference updated_at

  -- `validateReference`, for a reference that is not nil.
  unfoldable pub validate_reference :
      WagerTransaction A → WagerTransaction A → Result DomainError (Unit {0})
  validate_reference w reference = do
    fail_if (is_blank w.reference_external_transaction_id) invalid_wager_reference
    fail_if (not (is_processed reference.status)) wager_reference_not_processed
    fail_if (not (str_eq w.reference_external_transaction_id reference.external_transaction_id))
        wager_reference_mismatch
    fail_if
        (not (str_eq w.provider_id reference.provider_id)
          || not (w.player_id == reference.player_id)
          || not (w.wallet_id == reference.wallet_id)
          || not (str_eq w.round_id reference.round_id)
          || not (Currency.equal w.amount.currency reference.amount.currency))
        wager_reference_mismatch
    fail_if (not (is_allowed_reference_type w.transaction_type reference.transaction_type))
        invalid_wager_reference
    fail_if (requires_reference w.transaction_type && not (Money.equal w.amount reference.amount))
        wager_reference_mismatch

  -- The rest of `ResolveReference` where a reference was stored before, and where none was.
  unfoldable pub check_resolved :
      WagerTransaction A → WagerTransaction A → Result DomainError (WagerTransaction A)
  check_resolved w reference = do
    fail_if
        (not (w.reference_transaction_id == reference.id)
          || not (equal_type w.reference_transaction_type reference.transaction_type))
        wager_reference_mismatch
    ok w

  unfoldable pub store_reference :
      WagerTransaction A → WagerTransaction A → ℕ → Result DomainError (WagerTransaction A)
  unfolding validate_timestamp
  store_reference w reference updated_at = do
    validate_timestamp w updated_at
    ok (record w {
      status = if is_pending_reference w.status then pending else w.status;
      reference_transaction_id = reference.id;
      reference_transaction_type = reference.transaction_type;
      updated_at = updated_at;
    })

  -- `ResolveReference`
  unfoldable pub resolve_reference :
      WagerTransaction A → WagerTransaction A → ℕ → Result DomainError (WagerTransaction A)
  unfolding check_resolved store_reference
  resolve_reference w reference updated_at = do
    fail_if (is_terminal w.status) wager_transaction_terminal
    fail_if (not (is_pending w.status) && not (is_pending_reference w.status))
        invalid_wager_transition
    validate_reference w reference
    (if w.reference_transaction_id == 0
        then store_reference w reference updated_at
        else check_resolved w reference)

  -- `validateReferenceReady`
  unfoldable pub validate_reference_ready : WagerTransaction A → Result DomainError (Unit {0})
  validate_reference_ready w = do
    let has_external = not (is_blank w.reference_external_transaction_id)
    let has_internal = not (w.reference_transaction_id == 0)
    fail_if (requires_reference w.transaction_type && not has_external) invalid_wager_reference
    fail_if (has_external && not has_internal) invalid_wager_reference
    fail_if
        (has_internal
          && not (is_allowed_reference_type w.transaction_type w.reference_transaction_type))
        invalid_wager_reference
