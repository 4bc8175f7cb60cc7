-- ===== src/Wallet.antt =====
-- internal/domain/wallet.go: a wallet, its constructors and its two movements. A method with a
-- pointer receiver returns the changed wallet, or the error with the wallet as it was. A uuid is
-- the number that its 16 bytes spell, `uuid.Nil` is 0; an instant is a number of nanoseconds of
-- which 0 is Go's zero time, so `UTC` changes nothing; the version is an int64.
pub mod Invariant
pub mod Credit
pub mod Debit
use junglegaming_test.Base.{
  ℕ, Bool, not, ◌&&◌, ◌||◌, Ordering, Result, ok, err, ◌>>=◌, ◌>>◌, fail_if, ltb, ◌==◌,
}
use junglegaming_test.Base.Int.{ltb64, add64}
use junglegaming_test.Decimal.{Decimal, is_lt}
use junglegaming_test.Errors.{
  DomainError, invalid_wallet_id, invalid_player_id, invalid_money, invalid_timestamp,
  invalid_wallet_version, amount_must_be_positive, currency_mismatch, insufficient_funds,
}
use junglegaming_test.Currency
use junglegaming_test.Money
use junglegaming_test.Money.{Money}

pub record Wallet (A : Type 0) : Type 0 where
  pub id : ℕ
  pub player_id : ℕ
  pub balance : Money A
  pub version : ℕ  -- int64
  pub created_at : ℕ
  pub updated_at : ℕ

abbrev pub initial_wallet_version : ℕ
initial_wallet_version = 1

module _ {A : Type 0} ⦃decimal : Decimal A⦄ where
  unfoldable pub new_wallet : ℕ → ℕ → Money A → ℕ → Result DomainError (Wallet A)
  new_wallet id player_id balance created_at = do
    fail_if (id == 0) invalid_wallet_id
    fail_if (player_id == 0) invalid_player_id
    fail_if (not (Money.is_valid balance) || Money.is_negative balance) invalid_money
    fail_if (created_at == 0) invalid_timestamp
    ok (record {
      id = id;
      player_id = player_id;
      balance = balance;
      version = initial_wallet_version;
      created_at = created_at;
      updated_at = created_at;
    })

  unfoldable pub rehydrate_wallet : ℕ → ℕ → Money A → ℕ → ℕ → ℕ → Result DomainError (Wallet A)
  rehydrate_wallet id player_id balance version created_at updated_at = do
    fail_if (id == 0) invalid_wallet_id
    fail_if (player_id == 0) invalid_player_id
    fail_if (not (Money.is_valid balance) || Money.is_negative balance) invalid_money
    fail_if (ltb64 version initial_wallet_version) invalid_wallet_version
    fail_if (created_at == 0 || updated_at == 0 || ltb updated_at created_at) invalid_timestamp
    ok (record {
      id = id;
      player_id = player_id;
      balance = balance;
      version = version;
      created_at = created_at;
      updated_at = updated_at;
    })

  unfoldable pub validate_movement : Wallet A → Money A → ℕ → Result DomainError (Unit {0})
  validate_movement w amount updated_at = do
    fail_if (not (Money.is_valid amount)) invalid_money
    fail_if (not (Money.is_positive amount)) amount_must_be_positive
    fail_if (not (Currency.equal w.balance.currency amount.currency)) currency_mismatch
    fail_if (updated_at == 0 || ltb updated_at w.updated_at) invalid_timestamp

  -- `applyBalance`; `version++` wraps.
  unfoldable pub apply_balance : Wallet A → Money A → ℕ → Wallet A
  apply_balance w balance updated_at = record w {
    balance = balance;
    version = add64 w.version 1;
    updated_at = updated_at;
  }

  unfoldable pub credit : Wallet A → Money A → ℕ → Result DomainError (Wallet A)
  unfolding validate_movement apply_balance
  credit w amount updated_at = do
    validate_movement w amount updated_at
    new_balance ← Money.add w.balance amount
    ok (apply_balance w new_balance updated_at)

  unfoldable pub debit : Wallet A → Money A → ℕ → Result DomainError (Wallet A)
  unfolding validate_movement apply_balance
  debit w amount updated_at = do
    validate_movement w amount updated_at
    comparison ← Money.compare w.balance amount
    fail_if (is_lt comparison) insufficient_funds
    new_balance ← Money.sub w.balance amount
    ok (apply_balance w new_balance updated_at)
