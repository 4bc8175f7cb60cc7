-- ===== src/Account.antt =====
-- internal/application/wallet_service.go: the wallet service. The function of the package
-- github.com/google/uuid that reads an identifier is a parameter; its error is `none`.
pub mod Creation
pub mod Opened
pub mod Consistency
pub mod Readable
pub mod Audit
use junglegaming_test.Base.{
  ℕ, ◌==◌, String, Bool, not, Option, none, some, Result, ok, err, ◌>>=◌, ◌>>◌, fail_if, is_blank,
  if◌then◌else◌,
}
use junglegaming_test.Decimal.{Decimal}
use junglegaming_test.Errors.{DomainError, invalid_player_id}
use junglegaming_test.Currency
use junglegaming_test.Money
use junglegaming_test.Money.{Money}
use junglegaming_test.Wallet.{Wallet}
use junglegaming_test.Store.{
  AppError, of_domain, invalid_correlation_id, wallet_not_found, not_found,
}
use junglegaming_test.Store.Ledger.{Snapshot}

-- `CreateWalletCommand`
pub record CreateWalletCommand : Type 0 where
  pub player_id : String
  pub currency : String
  pub initial_balance : String

-- `CreateWalletResult`, and `WalletResult` with the same fields.
pub record WalletResult (A : Type 0) : Type 0 where
  pub wallet_id : ℕ
  pub player_id : ℕ
  pub balance : Money A
  pub version : ℕ

-- `WalletReconciliationResult`
pub record ReconciliationResult (A : Type 0) : Type 0 where
  pub wallet_id : ℕ
  pub stored_balance : Money A
  pub calculated_balance : Money A
  pub difference : Money A
  pub consistent : Bool
  pub checked_entries : ℕ

-- `id, err := uuid.Parse(...)` with its test `err != nil || id == uuid.Nil`.
unfoldable pub known_id : {E : Type 0} → E → Option ℕ → Result E ℕ
known_id e none = err e
known_id e (some id) = if id == 0 then err e else ok id

-- An error of the domain that `Create` returns.
unfoldable pub of_result : {X : Type 0} → Result DomainError X → Result AppError X
of_result (ok x) = ok x
of_result (err e) = err (of_domain e)

-- The `switch` of `Reconcile` on the error of the snapshot.
unfoldable pub wallet_missing : AppError → AppError
wallet_missing not_found = wallet_not_found
wallet_missing e = e

module _ {A : Type 0} where
  unfoldable pub wallet_result : Wallet A → WalletResult A
  wallet_result w = record {
    wallet_id = w.id;
    player_id = w.player_id;
    balance = w.balance;
    version = w.version;
  }

module _ {A : Type 0} ⦃decimal : Decimal A⦄ where
  -- What `Create` parses before its transaction: the player and the initial balance.
  unfoldable pub parse_opening :
      (String → Option ℕ) → CreateWalletCommand → String → Result AppError (ℕ × Money A)
  unfolding known_id of_result
  parse_opening parse_uuid command correlation_id = do
    fail_if (is_blank correlation_id) invalid_correlation_id
    player ← of_result (known_id invalid_player_id (parse_uuid command.player_id))
    currency ← of_result (Currency.new_currency command.currency)
    initial_balance ← of_result (Money.parse_money command.initial_balance currency)
    ok (player, initial_balance)

  -- The result of `Reconcile`, from the snapshot.
  unfoldable pub reconciliation_of : ℕ → Snapshot A → Result DomainError (ReconciliationResult A)
  reconciliation_of id snapshot = do
    difference ← Money.sub snapshot.stored_balance snapshot.calculated_balance
    ok (record {
      wallet_id = id;
      stored_balance = snapshot.stored_balance;
      calculated_balance = snapshot.calculated_balance;
      difference = difference;
      consistent = Money.is_zero difference;
      checked_entries = snapshot.checked_entries;
    })
