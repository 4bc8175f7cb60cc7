-- ===== src/Service/Retry.antt =====
-- internal/application/wager_reference.go: a retry of a transaction that waits for its reference,
-- and its failure after a permanent error.
use junglegaming_test.Base.{ℕ, ◌+◌, not, Option, none, some, ltb, if◌then◌else◌}
use junglegaming_test.Decimal.{Decimal}
use junglegaming_test.Wallet.{Wallet}
use junglegaming_test.Wager.State.{WagerTransaction}
use junglegaming_test.Wager.Complete.{mark_failed}
use junglegaming_test.Backoff.{ReferenceRetryPolicy, next_attempt_at}
use junglegaming_test.Store.{Environment, Action, pure, lift, clock_now, ◌>>=◌, ◌>>◌}
use junglegaming_test.Store.Wagers.{update_wager}
use junglegaming_test.Store.Retries.{PendingWork, find_due, find_pending, schedule_retry}
use junglegaming_test.Service.{
  ProcessResult, ReferenceOutcome, Rejection, available, unavailable, refused, resolve, reject,
  settle, lock_wallet,
}

abbrev reference_not_found : Rejection
reference_not_found = record {
  code = "REFERENCE_NOT_FOUND";
  message = "referenced transaction was not processed before expiration";
}

module _ {A : Type 0} ⦃decimal : Decimal A⦄ ⦃env : Environment⦄ where
  -- `_, err := ...; return err`
  unfoldable pub ignore : Action A (ProcessResult A) → Action A (Unit {0})
  ignore m = do result ← m; pure tt

  -- `retryPendingReference` on the outcome of the reference.
  unfoldable pub retry_outcome :
      ReferenceRetryPolicy → Wallet A → PendingWork A → ℕ → ReferenceOutcome A → Action A (Unit {0})
  unfolding ignore reject settle schedule_retry
  retry_outcome policy wallet work now (refused rejection) =
      ignore (reject work.transaction rejection work.metadata now)
  retry_outcome policy wallet work now unavailable =
      schedule_retry work.transaction.id (work.retry_count + 1)
        (next_attempt_at policy now work.expires_at (work.retry_count + 1 + 1))
  retry_outcome policy wallet work now (available resolved) =
      ignore (settle wallet resolved work.metadata now)

  unfoldable pub retry_open :
      ReferenceRetryPolicy → Wallet A → PendingWork A → ℕ → Action A (Unit {0})
  unfolding resolve retry_outcome
  retry_open policy wallet work now = do
    outcome ← resolve work.transaction now
    retry_outcome policy wallet work now outcome

  -- `retryPendingReference`
  unfoldable pub retry_pending : ReferenceRetryPolicy → PendingWork A → Action A (Unit {0})
  unfolding lock_wallet ignore retry_open
  retry_pending policy work = do
    wallet ← lock_wallet work.transaction
    now ← clock_now
    (if not (ltb now work.expires_at)
        then ignore (reject work.transaction reference_not_found work.metadata now)
        else retry_open policy wallet work now)

  unfoldable pub retry_found : ReferenceRetryPolicy → Option (PendingWork A) → Action A (Unit {0})
  unfolding retry_pending
  retry_found policy none = pure tt
  retry_found policy (some work) = retry_pending policy work

  -- The transaction of `RetryNextPendingReference`.
  unfoldable pub retry_next : ReferenceRetryPolicy → Action A (Unit {0})
  unfolding clock_now find_due retry_found
  retry_next policy = do now ← clock_now; work ← find_due now; retry_found policy work

  unfoldable pub fail_found : Option (PendingWork A) → Action A (Option (WagerTransaction A))
  unfolding clock_now
  fail_found none = pure none
  fail_found (some work) = do
    now ← clock_now
    done ← lift (
        mark_failed work.transaction "PROCESSING_FAILED"
          "transaction could not be processed; see service logs" now)
    update_wager done
    pure (some done)

  -- `failPendingReference`
  unfoldable pub fail_pending : ℕ → Action A (Option (WagerTransaction A))
  unfolding find_pending fail_found
  fail_pending id = do work ← find_pending id; fail_found work
