-- ===== src/LedgerEntry.antt =====
-- internal/domain/wallet_ledger_entry.go: the immutable record of one movement of a wallet.
-- A direction is a text in Go; `other` stands for each text but the two of the constants.
pub mod Laws
pub mod Movements
use junglegaming_test.Base.{
  ℕ, String, Bool, true, false, not, ◌||◌, Result, ok, err, ◌>>=◌, ◌>>◌, fail_if, ◌==◌,
}
use junglegaming_test.Decimal.{Decimal}
use junglegaming_test.Errors.{
  DomainError, invalid_ledger_entry, invalid_wallet_id, invalid_transaction_id,
  invalid_ledger_direction, invalid_money, amount_must_be_positive, invalid_financial_result,
  currency_mismatch, invalid_timestamp,
}
use junglegaming_test.Currency
use junglegaming_test.Money
use junglegaming_test.Money.{Money}

-- `WalletLedgerDirection`
pub data Direction : Type 0 where
  debit credit : Direction
  other : String → Direction

pub record LedgerEntry (A : Type 0) : Type 0 where
  pub id : ℕ
  pub wallet_id : ℕ
  pub transaction_id : ℕ
  pub direction : Direction
  pub amount : Money A
  pub balance_before : Money A
  pub balance_after : Money A
  pub created_at : ℕ

-- `WalletLedgerDirection.IsValid`
unfoldable pub is_valid_direction : Direction → Bool
is_valid_direction debit = true
is_valid_direction credit = true
is_valid_direction (other s) = false

module _ {A : Type 0} ⦃decimal : Decimal A⦄ where
  -- The `switch` of `validateLedgerBalance`.
  unfoldable pub expected_balance : Direction → Money A → Money A → Result DomainError (Money A)
  expected_balance debit amount before = Money.sub before amount
  expected_balance credit amount before = Money.add before amount
  expected_balance (other s) amount before = err invalid_ledger_direction

  unfoldable pub validate_ledger_balance :
      Direction → Money A → Money A → Money A → Result DomainError (Unit {0})
  validate_ledger_balance direction amount before after = do
    expected ← expected_balance direction amount before
    fail_if (not (Money.equal expected after)) invalid_financial_result

  unfoldable pub build_ledger_entry :
      ℕ → ℕ → ℕ → Direction → Money A → Money A → Money A → ℕ → Result DomainError (LedgerEntry A)
  build_ledger_entry id wallet_id transaction_id direction amount before after created_at = do
    fail_if (id == 0) invalid_ledger_entry
    fail_if (wallet_id == 0) invalid_wallet_id
    fail_if (transaction_id == 0) invalid_transaction_id
    fail_if (not (is_valid_direction direction)) invalid_ledger_direction
    fail_if
        (not (Money.is_valid amount) || not (Money.is_valid before) || not (Money.is_valid after))
        invalid_money
    fail_if (not (Money.is_positive amount)) amount_must_be_positive
    fail_if (Money.is_negative before || Money.is_negative after) invalid_financial_result
    fail_if
        (not (Currency.equal amount.currency before.currency)
          || not (Currency.equal amount.currency after.currency))
        currency_mismatch
    fail_if (created_at == 0) invalid_timestamp
    validate_ledger_balance direction amount before after
    ok (record {
      id = id;
      wallet_id = wallet_id;
      transaction_id = transaction_id;
      direction = direction;
      amount = amount;
      balance_before = before;
      balance_after = after;
      created_at = created_at;
    })

  -- `NewWalletLedgerEntry`
  unfoldable pub new_ledger_entry :
      ℕ → ℕ → ℕ → Direction → Money A → Money A → Money A → ℕ → Result DomainError (LedgerEntry A)
  new_ledger_entry id wallet_id transaction_id direction amount before after created_at =
      build_ledger_entry id wallet_id transaction_id direction amount before after created_at

  -- `RehydrateWalletLedgerEntry`
  unfoldable pub rehydrate_ledger_entry :
      ℕ → ℕ → ℕ → Direction → Money A → Money A → Money A → ℕ → Result DomainError (LedgerEntry A)
  rehydrate_ledger_entry id wallet_id transaction_id direction amount before after created_at =
      build_ledger_entry id wallet_id transaction_id direction amount before after created_at
