-- ===== src/Store/Run.antt =====
-- internal/infrastructure/postgres/transaction_manager.go: `WithinTransaction`. `BeginTxFunc` of the
-- package github.com/jackc/pgx/v5 rolls an attempt back whose function fails; what becomes of its
-- COMMIT is a parameter. The mark `ErrUnavailable` that is put on an error is not modelled.
use junglegaming_test.Base.{
  ℕ, zero, suc, str_eq, Bool, false, ◌&&◌, ◌||◌, Result, ok, err, if◌then◌else◌,
}
use junglegaming_test.Store.{Environment, AppError, infrastructure}

-- `isRetryableConflict`, by the code of the error.
unfoldable pub is_retryable : AppError → Bool
is_retryable (infrastructure code) = str_eq code "40001" || str_eq code "40P01"
is_retryable _ = false

-- The test of the loop on the outcome of an attempt.
unfoldable pub is_conflict : {X : Type 0} → Result AppError X → Bool
unfolding is_retryable
is_conflict (ok x) = false
is_conflict (err e) = is_retryable e

-- What becomes of the COMMIT of an attempt: the database does it; it refuses, and rolls back; or it
-- does it, but the answer does not arrive.
pub data Commit : Type 0 where
  succeeds : Commit
  aborts : AppError → Commit
  unanswered : AppError → Commit

-- The world during a transaction: that of each attempt, what becomes of its COMMIT, and whether
-- `waitRetry` lets another attempt start, by the number of attempts left.
pub record Attempts : Type 0 where
  pub world : ℕ → Environment
  pub commits : ℕ → Commit
  pub waits : ℕ → Bool

-- The loop does not look into the state `S` that an attempt works on.
module _ {S : Type 0} where
  -- The outcome of `run` on that of its function, with the state that the database then has.
  unfoldable pub committed :
      {X : Type 0} → Commit → S → Result AppError (X × S) → Result AppError X × S
  committed c s (err e) = (err e, s)
  committed succeeds s (ok p) = (ok p.0, p.1)
  committed (aborts e) s (ok p) = (err e, s)
  committed (unanswered e) s (ok p) = (err e, p.1)

  -- The loop, with the number of attempts that may follow this one.
  unfoldable pub attempt :
      {X : Type 0}
      → Attempts
      → (Environment → S → Result AppError (X × S))
      → ℕ
      → S
      → Result AppError X × S
  unfolding committed
  attempt world f zero s = committed (world.commits zero) s (f (world.world zero) s)
  attempt world f (suc n) s =
      let outcome = committed (world.commits (suc n)) s (f (world.world (suc n)) s) in
      let rest = attempt world f n outcome.1 in
      if is_conflict outcome.0 && world.waits (suc n) then rest else outcome

  -- `WithinTransaction`, with `maxTransactionAttempts` attempts.
  unfoldable pub within_transaction :
      {X : Type 0}
      → Attempts
      → (Environment → S → Result AppError (X × S))
      → S
      → Result AppError X × S
  unfolding attempt
  within_transaction world f s = attempt world f 2 s
