-- ===== src/Service/Retried.antt =====
-- internal/application/wager_reference.go: retries keep each balance equal to the sum of the
-- wallet's ledger entries.
use junglegaming_test.Base.{ℕ, Option, none, some, arith, ltb, not}
use junglegaming_test.Decimal.{Decimal, DecimalLaws}
use junglegaming_test.Wallet.{Wallet}
use junglegaming_test.Wager.State.{WagerTransaction}
use junglegaming_test.Backoff.{ReferenceRetryPolicy}
use junglegaming_test.Store.{WagerRow, Environment, Action}
use junglegaming_test.Store.Frame.{
  KeepsMoney, bind-KeepsMoney, lift-KeepsMoney, pure-KeepsMoney, raise_if-KeepsMoney,
  statement-KeepsMoney, clock_now-KeepsMoney, read_rows-KeepsMoney, scan_wager-KeepsMoney,
  update_wager-KeepsMoney, write_rows-KeepsMoney,
}
use junglegaming_test.Store.Ensures.{Ensures, bind-Ensures, keeps-Ensures, if-Ensures}
use junglegaming_test.Store.Retries.{
  PendingWork, work_of, find_by_id, work_of_row, scan_work, find_due, find_pending, schedule_retry,
}
use junglegaming_test.Service.{ProcessResult, ReferenceOutcome, available, unavailable, refused}
use junglegaming_test.Service.Retry.{
  ignore, retry_outcome, retry_open, retry_pending, retry_found, retry_next, fail_found,
  fail_pending,
}
use junglegaming_test.Service.Frame.{resolve-KeepsMoney, reject-KeepsMoney}
use junglegaming_test.Service.Moves.{IsReconciled}
use junglegaming_test.Service.Reconciled.{IsLocked, SameMoney-IsLocked, SameMoney-IsReconciled}
use junglegaming_test.Service.Balance.{locked_keeps, settle-IsReconciled, lock_wallet-IsLocked}

module _ {A : Type 0} where
  work_of-KeepsMoney :
      (r : WagerRow A) (at : Option ℕ) (w : Option (WagerTransaction A))
      → KeepsMoney (work_of r at w)
  unfolding work_of
  work_of-KeepsMoney r at w s x s' h = ground arith

module _ {A : Type 0} ⦃decimal : Decimal A⦄ ⦃env : Environment⦄ where
  find_by_id-KeepsMoney : (id : ℕ) → KeepsMoney {A = A} (find_by_id id)
  unfolding find_by_id
  find_by_id-KeepsMoney id =
      bind-KeepsMoney _ _ (statement-KeepsMoney A)
        (λ _. bind-KeepsMoney _ _ read_rows-KeepsMoney (λ rows. scan_wager-KeepsMoney _))

  scan_work-KeepsMoney : (row : Option (WagerRow A)) → KeepsMoney (scan_work row)
  unfolding scan_work work_of_row
  scan_work-KeepsMoney none = pure-KeepsMoney A none
  scan_work-KeepsMoney (some r) =
      bind-KeepsMoney _ _ (find_by_id-KeepsMoney _) (λ w.
        bind-KeepsMoney _ _ (work_of-KeepsMoney r _ w) (λ work. pure-KeepsMoney A (some work)))

  find_due-KeepsMoney : (now : ℕ) → KeepsMoney {A = A} (find_due now)
  unfolding find_due
  find_due-KeepsMoney now =
      bind-KeepsMoney _ _ (statement-KeepsMoney A)
        (λ _. bind-KeepsMoney _ _ read_rows-KeepsMoney (λ rows. scan_work-KeepsMoney _))

  find_pending-KeepsMoney : (id : ℕ) → KeepsMoney {A = A} (find_pending id)
  unfolding find_pending
  find_pending-KeepsMoney id =
      bind-KeepsMoney _ _ (statement-KeepsMoney A)
        (λ _. bind-KeepsMoney _ _ read_rows-KeepsMoney (λ rows. scan_work-KeepsMoney _))

  schedule_retry-KeepsMoney :
      (id count next : ℕ) → KeepsMoney {A = A} (schedule_retry id count next)
  unfolding schedule_retry
  schedule_retry-KeepsMoney id count next = bind-KeepsMoney _ _ (clock_now-KeepsMoney A) (λ now.
      bind-KeepsMoney _ _ read_rows-KeepsMoney
        (λ rows. bind-KeepsMoney _ _ (raise_if-KeepsMoney A _ _) (λ _. write_rows-KeepsMoney _)))

  fail_found-KeepsMoney : (work : Option (PendingWork A)) → KeepsMoney (fail_found work)
  unfolding fail_found
  fail_found-KeepsMoney none = pure-KeepsMoney A none
  fail_found-KeepsMoney (some work) = bind-KeepsMoney _ _ (clock_now-KeepsMoney A) (λ now.
      bind-KeepsMoney _ _ (lift-KeepsMoney A _) (λ done.
        bind-KeepsMoney _ _ (update_wager-KeepsMoney done) (λ _. pure-KeepsMoney A (some done))))

  pub fail_pending-KeepsMoney : (id : ℕ) → KeepsMoney {A = A} (fail_pending id)
  unfolding fail_pending
  fail_pending-KeepsMoney id =
      bind-KeepsMoney _ _ (find_pending-KeepsMoney id) (λ work. fail_found-KeepsMoney work)

module _ {A : Type 0} ⦃decimal : Decimal A⦄ ⦃laws : DecimalLaws A decimal⦄ ⦃env : Environment⦄ where
  ignore-IsReconciled :
      (wallet : Wallet A) (m : Action A (ProcessResult A))
      → Ensures (IsLocked wallet) m (λ _. IsReconciled)
      → Ensures (IsLocked wallet) (ignore m) (λ _. IsReconciled)
  unfolding ignore
  ignore-IsReconciled wallet m k =
      bind-Ensures _ _ _ _ _ k (λ _. keeps-Ensures SameMoney-IsReconciled (pure-KeepsMoney A tt))

  retry_outcome-IsReconciled :
      (policy : ReferenceRetryPolicy) (wallet : Wallet A) (work : PendingWork A) (now : ℕ)
      (o : ReferenceOutcome A)
      → Ensures (IsLocked wallet) (retry_outcome policy wallet work now o) (λ _. IsReconciled)
  unfolding retry_outcome
  retry_outcome-IsReconciled policy wallet work now (refused rejection) =
      ignore-IsReconciled wallet _ (locked_keeps wallet _ (reject-KeepsMoney _ _ _ now))
  retry_outcome-IsReconciled policy wallet work now unavailable =
      locked_keeps wallet _ (schedule_retry-KeepsMoney _ _ _)
  retry_outcome-IsReconciled policy wallet work now (available resolved) =
      ignore-IsReconciled wallet _ (settle-IsReconciled wallet resolved work.metadata now)

  retry_pending-IsReconciled :
      (policy : ReferenceRetryPolicy) (work : PendingWork A)
      → Ensures IsReconciled (retry_pending policy work) (λ _. IsReconciled)
  unfolding retry_pending retry_open
  retry_pending-IsReconciled policy work =
      bind-Ensures _ _ _ _ _ (lock_wallet-IsLocked work.transaction) (λ wallet.
        bind-Ensures _ _ _ _ _ (keeps-Ensures (SameMoney-IsLocked wallet) (clock_now-KeepsMoney A))
          (λ now.
            if-Ensures (not (ltb now work.expires_at)) _ _
              (ignore-IsReconciled wallet _ (locked_keeps wallet _ (reject-KeepsMoney _ _ _ now)))
              (bind-Ensures _ _ _ _ _
                (keeps-Ensures (SameMoney-IsLocked wallet) (resolve-KeepsMoney _ now))
                (λ o. retry_outcome-IsReconciled policy wallet work now o))))

  retry_found-IsReconciled :
      (policy : ReferenceRetryPolicy) (work : Option (PendingWork A))
      → Ensures IsReconciled (retry_found policy work) (λ _. IsReconciled)
  unfolding retry_found
  retry_found-IsReconciled policy none = keeps-Ensures SameMoney-IsReconciled (pure-KeepsMoney A tt)
  retry_found-IsReconciled policy (some work) = retry_pending-IsReconciled policy work

  pub retry_next-IsReconciled :
      (policy : ReferenceRetryPolicy)
      → Ensures {A = A} IsReconciled (retry_next policy) (λ _. IsReconciled)
  unfolding retry_next
  retry_next-IsReconciled policy =
      bind-Ensures _ _ _ _ _ (keeps-Ensures SameMoney-IsReconciled (clock_now-KeepsMoney A)) (λ now.
        bind-Ensures _ _ _ _ _ (keeps-Ensures SameMoney-IsReconciled (find_due-KeepsMoney now))
          (λ work. retry_found-IsReconciled policy work))
