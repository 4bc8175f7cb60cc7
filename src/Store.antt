-- ===== src/Store.antt =====
-- internal/application/commands.go, errors.go, ports.go, events.go: the state that the wager service
-- works on, which is the tables of the database, and the actions on it. An action that returns an
-- error gives no state: internal/infrastructure/postgres/transaction_manager.go rolls back.
pub mod Events
pub mod Wallets
pub mod Opening
pub mod Ledger
pub mod Queries
pub mod Columns
pub mod Wagers
pub mod Readable
pub mod Frame
pub mod Ensures
pub mod Run
pub mod Attempted
pub mod Retries
use junglegaming_test.Base.{
  ℕ, ◌+◌, String, Bool, true, false, Option, none, some, List, Result, ok, err,
}
use junglegaming_test.Errors.{DomainError}
use junglegaming_test.Currency.{Currency}
use junglegaming_test.Money.{Money}
use junglegaming_test.Wallet.{Wallet}
use junglegaming_test.LedgerEntry.{LedgerEntry}
use junglegaming_test.Wager.State.{WagerTransaction}
use junglegaming_test.Store.Events.{OutboxRow}

-- internal/application/errors.go, with the errors of the domain and those of the database.
pub data AppError : Type 0 where
  of_domain : DomainError → AppError
  invalid_correlation_id not_found already_exists idempotency_conflict : AppError
  external_transaction_conflict wallet_not_found wallet_mismatch wallet_already_exists : AppError
  invalid_wallet_reference concurrent_update : AppError
  inbox_message_conflict inbox_message_not_found : AppError
  infrastructure : String → AppError

-- A row of `wager_transactions`: the transaction, and the columns of its retries.
pub record WagerRow (A : Type 0) : Type 0 where
  pub transaction : WagerTransaction A
  pub retry_count : ℕ
  pub next_attempt_at : Option ℕ
  pub expires_at : Option ℕ
  pub correlation_id : String
  pub causation_id : String

-- An entry of the unique index on the player and the currency of `wallets`.
pub record Account : Type 0 where
  pub player_id : ℕ
  pub currency : Currency

-- The tables. `steps` counts the statements, readings of the clock and new identifiers so far.
pub record Store (A : Type 0) : Type 0 where
  pub wallets : ℕ → Option (Wallet A)
  pub accounts : List Account
  pub wagers : List (WagerRow A)
  pub ledger : List (LedgerEntry A)
  pub outbox : List (OutboxRow A)
  pub steps : ℕ

-- What the world answers at each step: whether a statement fails (a lost connection, a constraint
-- of the schema, a timeout), the time of the database, and the next random uuid.
pub record Environment : Type 0 where
  pub fault : ℕ → Option String
  pub clock : ℕ → ℕ
  pub new_id : ℕ → ℕ

abbrev pub Action : Type 0 → Type 0 → Type 0
Action A X = Store A → Result AppError (X × Store A)

module _ {A : Type 0} where
  abbrev pub pure : {X : Type 0} → X → Action A X
  pure x s = ok (x, s)

  abbrev pub raise : {X : Type 0} → AppError → Action A X
  raise e s = err e

  infixl 5 ◌>>=◌ ◌>>◌
  abbrev pub ◌>>=◌ : {X Y : Type 0} → Action A X → (X → Action A Y) → Action A Y
  ◌>>=◌ m f s = elim (m s) [ ok p ↦ f p.0 p.1 | err e ↦ err e ]

  abbrev pub ◌>>◌ : {Y : Type 0} → Action A (Unit {0}) → Action A Y → Action A Y
  m >> k = m >>= λ _. k

  -- `if test { return error }`
  unfoldable pub raise_if : Bool → AppError → Action A (Unit {0})
  raise_if true e = raise e
  raise_if false e = pure tt

  -- `if err != nil { return err }` for an error of the domain.
  unfoldable pub lift : {X : Type 0} → Result DomainError X → Action A X
  lift (ok x) = pure x
  lift (err e) = raise (of_domain e)

module _ {A : Type 0} ⦃env : Environment⦄ where
  -- The outcome of a statement that the database may refuse.
  unfoldable pub statement : Action A (Unit {0})
  statement s = elim (env.fault s.steps) [
    | none ↦ ok (tt, record s { steps = s.steps + 1 })
    | some e ↦ err (infrastructure e)
  ]

  -- `Clock.Now`
  unfoldable pub clock_now : Action A ℕ
  unfolding statement
  clock_now = do time ← λ s. pure (env.clock s.steps) s; statement; pure time

  -- `uuid.New`
  unfoldable pub new_uuid : Action A ℕ
  new_uuid s = ok (env.new_id s.steps, record s { steps = s.steps + 1 })
