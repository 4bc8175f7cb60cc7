-- ===== src/Store/Retries.antt =====
-- internal/infrastructure/postgres/wager_repository.go and internal/application/ports.go: the
-- statements on transactions that wait for their reference. One client works at a time, so that
-- SKIP LOCKED skips nothing; of rows that are due at the same time the first is taken.
use junglegaming_test.Base.{
  ℕ, ◌==◌, Bool, false, not, ◌&&◌, ◌||◌, leb, ltb, Option, none, some, List, [], ◌∷◌, if◌then◌else◌,
}
use junglegaming_test.Decimal.{Decimal}
use junglegaming_test.Wager.Kinds.{is_pending_reference}
use junglegaming_test.Wager.State.{WagerTransaction}
use junglegaming_test.Store.Events.{CommandMetadata}
use junglegaming_test.Store.{
  WagerRow, Environment, Action, infrastructure, not_found, pure, raise, raise_if, statement,
  clock_now, ◌>>=◌, ◌>>◌,
}
use junglegaming_test.Store.Wagers.{
  any_row, find_row, update_rows, has_id, read_rows, write_rows, scan_wager,
}

-- `PendingReferenceWork`
pub record PendingWork (A : Type 0) : Type 0 where
  pub transaction : WagerTransaction A
  pub retry_count : ℕ
  pub expires_at : ℕ
  pub metadata : CommandMetadata

-- `next_reference_attempt_at <= $1`
unfoldable pub reached : ℕ → Option ℕ → Bool
reached now none = false
reached now (some at) = leb at now

unfoldable pub time_of : Option ℕ → ℕ
time_of none = 0
time_of (some at) = at

module _ {A : Type 0} where
  -- The condition of `FindDuePendingReferenceForUpdate`.
  unfoldable pub is_due : ℕ → WagerRow A → Bool
  unfolding reached
  is_due now r = is_pending_reference r.transaction.status && reached now r.next_attempt_at

  -- `ORDER BY next_reference_attempt_at, created_at`
  unfoldable pub before : WagerRow A → WagerRow A → Bool
  unfolding time_of
  before r q =
      ltb (time_of r.next_attempt_at) (time_of q.next_attempt_at)
      || (time_of r.next_attempt_at == time_of q.next_attempt_at
          && ltb r.transaction.created_at q.transaction.created_at)

  unfoldable pub earlier : WagerRow A → Option (WagerRow A) → WagerRow A
  unfolding before
  earlier r none = r
  earlier r (some q) = if before q r then q else r

  -- `WHERE ... ORDER BY ... LIMIT 1`
  unfoldable pub first_due : ℕ → List (WagerRow A) → Option (WagerRow A)
  unfolding is_due earlier
  first_due now [] = none
  first_due now (r ∷ rs) =
      let rest = first_due now rs in if is_due now r then some (earlier r rest) else rest

  -- The columns that `SchedulePendingReferenceRetry` sets.
  unfoldable pub rescheduled : ℕ → ℕ → ℕ → WagerRow A → WagerRow A
  rescheduled count next_attempt_at now r = record r {
    transaction = record r.transaction { updated_at = now };
    retry_count = count;
    next_attempt_at = some next_attempt_at;
  }

  -- The row of a transaction that waits for its reference.
  unfoldable pub is_waiting : ℕ → WagerRow A → Bool
  is_waiting id r = has_id id r && is_pending_reference r.transaction.status

  -- The work of a row, once its transaction is read; no expiration is an error of `Scan`.
  unfoldable pub work_of :
      WagerRow A → Option ℕ → Option (WagerTransaction A) → Action A (PendingWork A)
  work_of r none w = raise (infrastructure "NULL")
  work_of r (some at) none = raise not_found
  work_of r (some at) (some w) = pure (record {
    transaction = w;
    retry_count = r.retry_count;
    expires_at = at;
    metadata = record { correlation_id = r.correlation_id; causation_id = r.causation_id };
  })

module _ {A : Type 0} ⦃decimal : Decimal A⦄ ⦃env : Environment⦄ where
  -- `FindByID`
  unfoldable pub find_by_id : ℕ → Action A (Option (WagerTransaction A))
  unfolding statement find_row scan_wager read_rows
  find_by_id id = do statement; rows ← read_rows; scan_wager (find_row (has_id id) rows)

  -- `scanPendingReferenceWork` of a row.
  unfoldable pub work_of_row : WagerRow A → Action A (Option (PendingWork A))
  unfolding find_by_id work_of
  work_of_row r = do
    w ← find_by_id r.transaction.id
    work ← work_of r r.expires_at w
    pure (some work)

  -- `scanPendingReferenceWork`; no row is `ErrNotFound`.
  unfoldable pub scan_work : Option (WagerRow A) → Action A (Option (PendingWork A))
  unfolding work_of_row
  scan_work none = pure none
  scan_work (some r) = work_of_row r

  -- `FindDuePendingReferenceForUpdate`
  unfoldable pub find_due : ℕ → Action A (Option (PendingWork A))
  unfolding statement first_due scan_work read_rows
  find_due now = do statement; rows ← read_rows; scan_work (first_due now rows)

  -- `FindPendingReferenceForUpdate`
  unfoldable pub find_pending : ℕ → Action A (Option (PendingWork A))
  unfolding statement find_row is_waiting scan_work read_rows
  find_pending id = do statement; rows ← read_rows; scan_work (find_row (is_waiting id) rows)

  -- `SchedulePendingReferenceRetry`, whose statement reads the clock.
  unfoldable pub schedule_retry : ℕ → ℕ → ℕ → Action A (Unit {0})
  unfolding clock_now raise_if any_row is_waiting update_rows rescheduled read_rows write_rows
  schedule_retry id count next_attempt_at = do
    now ← clock_now
    rows ← read_rows
    raise_if (not (any_row (is_waiting id) rows)) not_found
    write_rows (update_rows (is_waiting id) (rescheduled count next_attempt_at now) rows)
