-- ===== src/Service/Serve.antt =====
-- internal/application/wager_service.go and wager_reference.go with
-- internal/infrastructure/postgres/transaction_manager.go: calls of the service one after the other,
-- each in its transaction.
use junglegaming_test.Base.{String, Option, ℕ, List, [], ◌∷◌, Result, ok, err}
use junglegaming_test.Decimal.{Decimal, DecimalLaws}
use junglegaming_test.Money.{Money}
use junglegaming_test.Backoff.{ReferenceRetryPolicy}
use junglegaming_test.Store.Events.{CommandMetadata}
use junglegaming_test.Store.{Store, AppError}
use junglegaming_test.Store.Run.{Attempts, within_transaction}
use junglegaming_test.Store.Attempted.{attempt-keeps}
use junglegaming_test.Service.{ProcessResult}
use junglegaming_test.Service.Process.{WagerRequest, process}
use junglegaming_test.Service.Moves.{IsReconciled}
use junglegaming_test.Service.Reconciled.{SameMoney-IsReconciled}
use junglegaming_test.Service.Balance.{process-IsReconciled}
use junglegaming_test.Service.Retry.{retry_next, fail_pending}
use junglegaming_test.Service.Retried.{retry_next-IsReconciled, fail_pending-KeepsMoney}
use junglegaming_test.Account.{CreateWalletCommand}
use junglegaming_test.Account.Creation.{create, open_parsed, open_wallet}
use junglegaming_test.Account.Opened.{open_wallet-IsReconciled}

-- A call of `Process`, and the world during its transaction.
pub record Call (A : Type 0) : Type 0 where
  pub request : WagerRequest A
  pub metadata : CommandMetadata
  pub attempts : Attempts

-- A call of `Create` of the wallet service.
pub record Creation : Type 0 where
  pub parse_uuid : String → Option ℕ
  pub command : CreateWalletCommand
  pub of_command : CommandMetadata
  pub during : Attempts

-- A transaction of the services: of `Create`, of `Process`, of `RetryNextPendingReference`, or of
-- `failPendingReference`.
pub data Command (A : Type 0) : Type 0 where
  creating : Creation → Command A
  processing : Call A → Command A
  retrying : Attempts → Command A
  failing : ℕ → Attempts → Command A

module _ {A : Type 0} ⦃decimal : Decimal A⦄ where
  unfoldable pub serve :
      ReferenceRetryPolicy → Call A → Store A → Result AppError (ProcessResult A) × Store A
  unfolding within_transaction
  serve policy c s =
      within_transaction c.attempts (λ env. process ⦃env = env⦄ policy c.request c.metadata) s

  -- The store after a transaction of the service, whether it succeeds or fails.
  unfoldable pub run_command : ReferenceRetryPolicy → Command A → Store A → Store A
  unfolding serve within_transaction create
  run_command policy (creating c) s = (create c.parse_uuid c.command c.of_command c.during s).1
  run_command policy (processing c) s = (serve policy c s).1
  run_command policy (retrying world) s =
      (within_transaction world (λ env. retry_next ⦃env = env⦄ policy) s).1
  run_command policy (failing id world) s =
      (within_transaction world (λ env. fail_pending ⦃env = env⦄ id) s).1

  -- One transaction after the other.
  unfoldable pub run_all : ReferenceRetryPolicy → List (Command A) → Store A → Store A
  unfolding run_command
  run_all policy [] s = s
  run_all policy (c ∷ cs) s = run_all policy cs (run_command policy c s)

module _ {A : Type 0} ⦃decimal : Decimal A⦄ ⦃laws : DecimalLaws A decimal⦄ where
  open_parsed-IsReconciled :
      (r : Result AppError (ℕ × Money A)) (metadata : CommandMetadata) (world : Attempts)
      (s : Store A)
      → IsReconciled s
      → IsReconciled (open_parsed r metadata world s).1
  unfolding open_parsed within_transaction
  open_parsed-IsReconciled (err e) metadata world s r = r
  open_parsed-IsReconciled (ok p) metadata world s r =
      attempt-keeps IsReconciled world (λ env. open_wallet ⦃env = env⦄ p.0 p.1 metadata) 2 s
        (λ env u x s' v h. open_wallet-IsReconciled ⦃env = env⦄ p.0 p.1 metadata u x s' v h) r

  run_command-IsReconciled :
      (policy : ReferenceRetryPolicy) (c : Command A) (s : Store A)
      → IsReconciled s
      → IsReconciled (run_command policy c s)
  unfolding run_command serve within_transaction create
  run_command-IsReconciled policy (creating c) s r =
      open_parsed-IsReconciled _ c.of_command c.during s r
  run_command-IsReconciled policy (processing c) s r =
      attempt-keeps IsReconciled c.attempts (λ env. process ⦃env = env⦄ policy c.request c.metadata)
        2 s
        (λ env u x s' v h. process-IsReconciled ⦃env = env⦄ policy c.request c.metadata u x s' v h)
        r
  run_command-IsReconciled policy (retrying world) s r =
      attempt-keeps IsReconciled world (λ env. retry_next ⦃env = env⦄ policy) 2 s
        (λ env u x s' v h. retry_next-IsReconciled ⦃env = env⦄ policy u x s' v h) r
  run_command-IsReconciled policy (failing id world) s r =
      attempt-keeps IsReconciled world (λ env. fail_pending ⦃env = env⦄ id) 2 s
        (λ env u x s' v h.
          SameMoney-IsReconciled u s' (fail_pending-KeepsMoney ⦃env = env⦄ id u x s' h) v)
        r

  -- Where every wallet is valid, its balance is the sum of its ledger entries, debits counted
  -- negative, and no entry is without a wallet, this still holds after any sequence of transactions of `Create`,
  -- `Process`, `RetryNextPendingReference` and `failPendingReference`, whatever the requests and the
  -- faults.
  pub run_all-IsReconciled :
      (policy : ReferenceRetryPolicy) (commands : List (Command A)) (s : Store A)
      → IsReconciled s
      → IsReconciled (run_all policy commands s)
  unfolding run_all
  run_all-IsReconciled policy [] s r = r
  run_all-IsReconciled policy (c ∷ cs) s r =
      run_all-IsReconciled policy cs (run_command policy c s)
        (run_command-IsReconciled policy c s r)
