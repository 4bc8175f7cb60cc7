-- ===== src/Account/Creation.antt =====
-- internal/application/wallet_service.go: `Create` with its transaction, `Get`,
-- `ListLedger` and `Reconcile`.
use junglegaming_test.Base.{ℕ, List, String, not, Option, Result, ok, err, if◌then◌else◌}
use junglegaming_test.Decimal.{Decimal}
use junglegaming_test.Money
use junglegaming_test.Money.{Money}
use junglegaming_test.Wallet.{Wallet, new_wallet}
use junglegaming_test.LedgerEntry.{LedgerEntry, credit, new_ledger_entry}
use junglegaming_test.Wager.Create.{new_opening}
use junglegaming_test.Store.Events.{CommandMetadata}
use junglegaming_test.Store.{
  Store, Environment, Action, AppError, already_exists, wallet_already_exists, wallet_not_found,
  pure, raise_if, lift, statement, clock_now, new_uuid, ◌>>=◌, ◌>>◌,
}
use junglegaming_test.Store.Opening.{create_wallet, find_wallet}
use junglegaming_test.Store.Wallets.{create_entry}
use junglegaming_test.Store.Wagers.{create_wager}
use junglegaming_test.Store.Ledger.Rows.{Cursor, list_by_wallet}
use junglegaming_test.Store.Queries.{reconciliation_snapshot}
use junglegaming_test.Store.Run.{Attempts, within_transaction}
use junglegaming_test.Service.Events.{create_processed_event, create_balance_changed_event}
use junglegaming_test.Account.{
  CreateWalletCommand, WalletResult, ReconciliationResult, known_id, wallet_result, wallet_missing,
  parse_opening, reconciliation_of,
}

module _ {A : Type 0} where
  -- An outcome that was found before any statement.
  unfoldable pub answer : {X : Type 0} → Result AppError X → Action A X
  answer (ok x) s = ok (x, s)
  answer (err e) s = err e

  -- The error of an action, replaced.
  unfoldable pub with_error : {X : Type 0} → (AppError → AppError) → Action A X → Action A X
  with_error f m s = elim (m s) [ ok p ↦ ok p | err e ↦ err (f e) ]

module _ {A : Type 0} ⦃decimal : Decimal A⦄ ⦃env : Environment⦄ where
  -- `createOpening` with `createOpeningEvents`
  unfoldable pub create_opening : Wallet A → Money A → CommandMetadata → ℕ → Action A (Unit {0})
  unfolding raise_if create_balance_changed_event create_processed_event
  create_opening wallet initial metadata at = do
    id ← new_uuid
    opening ← lift (
        new_opening (record {
          id = id;
          wallet_id = wallet.id;
          player_id = wallet.player_id;
          amount = initial;
          created_at = at;
        }))
    inserted ← create_wager opening
    raise_if (not inserted) already_exists
    zero ← lift (Money.zero_money initial.currency)
    entry_id ← new_uuid
    entry ← lift (new_ledger_entry entry_id wallet.id opening.id credit initial zero initial at)
    create_entry entry
    create_processed_event opening metadata at
    create_balance_changed_event wallet entry metadata at

  -- `if !initialBalance.IsZero()`, and the result.
  unfoldable pub open_balance : Wallet A → Money A → CommandMetadata → ℕ → Action A (WalletResult A)
  unfolding create_opening wallet_result
  open_balance wallet initial metadata now = do
    (if Money.is_zero initial then pure tt else create_opening wallet initial metadata now)
    pure (wallet_result wallet)

  -- The transaction of `Create`.
  unfoldable pub open_wallet : ℕ → Money A → CommandMetadata → Action A (WalletResult A)
  unfolding open_balance raise_if
  open_wallet player initial metadata = do
    now ← clock_now
    id ← new_uuid
    wallet ← lift (new_wallet id player initial now)
    created ← create_wallet wallet
    raise_if (not created) wallet_already_exists
    open_balance wallet initial metadata now

  -- `Get`
  unfoldable pub get : (String → Option ℕ) → String → Action A (WalletResult A)
  unfolding answer find_wallet known_id wallet_result
  get parse_uuid text = do
    id ← answer (known_id wallet_not_found (parse_uuid text))
    wallet ← find_wallet id
    pure (wallet_result wallet)

  -- `Reconcile`
  unfoldable pub reconcile : (String → Option ℕ) → String → Action A (ReconciliationResult A)
  unfolding answer with_error known_id wallet_missing reconciliation_of
  reconcile parse_uuid text = do
    id ← answer (known_id wallet_not_found (parse_uuid text))
    snapshot ← with_error wallet_missing (reconciliation_snapshot id)
    lift (reconciliation_of id snapshot)

  -- `WalletLedgerRepository.ListByWallet`
  unfoldable pub list_entries : ℕ → Option Cursor → ℕ → Action A (List (LedgerEntry A))
  unfolding list_by_wallet
  list_entries id cursor limit = do statement; λ s. lift (list_by_wallet id cursor limit s.ledger) s

  -- `ListLedger`
  unfoldable pub list_ledger :
      (String → Option ℕ) → String → Option Cursor → ℕ → Action A (List (LedgerEntry A))
  unfolding answer find_wallet known_id list_entries
  list_ledger parse_uuid text cursor limit = do
    id ← answer (known_id wallet_not_found (parse_uuid text))
    wallet ← find_wallet id
    list_entries id cursor limit

module _ {A : Type 0} ⦃decimal : Decimal A⦄ where
  -- `Create` on what it has parsed.
  unfoldable pub open_parsed :
      Result AppError (ℕ × Money A)
      → CommandMetadata
      → Attempts
      → Store A
      → Result AppError (WalletResult A) × Store A
  unfolding within_transaction open_wallet
  open_parsed (err e) metadata world s = (err e, s)
  open_parsed (ok p) metadata world s =
      within_transaction world (λ env. open_wallet ⦃env = env⦄ p.0 p.1 metadata) s

  -- `Create`
  unfoldable pub create :
      (String → Option ℕ)
      → CreateWalletCommand
      → CommandMetadata
      → Attempts
      → Store A
      → Result AppError (WalletResult A) × Store A
  unfolding open_parsed parse_opening
  create parse_uuid command metadata world s =
      open_parsed (parse_opening parse_uuid command metadata.correlation_id) metadata world s
