-- ===== src/Store/Ledger.antt =====
-- internal/infrastructure/postgres/wallet_ledger_repository.go: `ReconciliationSnapshot`. The sums of
-- the database are exact, so they are those of the decimals; the text of an amount spells it, and
-- the pattern of `ParseMoney` accepts the texts of all amounts in range that are not negative.
pub mod Rows
use junglegaming_test.Base.{
  ℕ, zero, suc, ◌==◌, List, [], ◌∷◌, Result, ok, ◌>>=◌, ◌>>◌, fail_if, if◌then◌else◌,
}
use junglegaming_test.Decimal.{Decimal}
use junglegaming_test.Errors.{DomainError, invalid_money}
use junglegaming_test.Currency
use junglegaming_test.Currency.{Currency}
use junglegaming_test.Money
use junglegaming_test.Money.{Money}
use junglegaming_test.Wallet.{Wallet}
use junglegaming_test.LedgerEntry.{Direction, debit, credit, other, LedgerEntry}

-- `ReconciliationSnapshot`
pub record Snapshot (A : Type 0) : Type 0 where
  pub stored_balance : Money A
  pub calculated_balance : Money A
  pub checked_entries : ℕ

module _ {A : Type 0} ⦃decimal : Decimal A⦄ where
  -- `CASE WHEN l.direction = 'CREDIT' THEN l.amount ELSE -l.amount END`, added to the other rows.
  unfoldable pub add_signed : Direction → A → A → A
  add_signed credit amount rest = decimal.add rest amount
  add_signed debit amount rest = decimal.sub rest amount
  add_signed (other s) amount rest = decimal.sub rest amount

  -- `COALESCE(SUM(...), 0)` over the entries of a wallet.
  unfoldable pub ledger_sum : List (LedgerEntry A) → ℕ → A
  unfolding add_signed
  ledger_sum [] id = decimal.zero_value
  ledger_sum (e ∷ es) id =
      let rest = ledger_sum es id in
      if e.wallet_id == id then add_signed e.direction e.amount.amount rest else rest

  -- `COUNT(l.id)`
  unfoldable pub ledger_count : List (LedgerEntry A) → ℕ → ℕ
  ledger_count [] id = zero
  ledger_count (e ∷ es) id =
      let rest = ledger_count es id in if e.wallet_id == id then suc rest else rest

  -- `ParseMoney`, on the amount that the text spells: the pattern has no sign.
  unfoldable pub read_money : A → Currency → Result DomainError (Money A)
  read_money amount currency = do
    fail_if (decimal.is_negative amount) invalid_money
    Money.new_money amount currency

  -- `parseSignedMoney`, on the amount that the text spells.
  unfoldable pub parse_signed_money : A → Currency → Result DomainError (Money A)
  unfolding read_money
  parse_signed_money amount currency = do
    money ← read_money (decimal.absolute amount) currency
    (if decimal.is_negative amount then Money.negate money else ok money)

  -- The snapshot of a row of `wallets`, as it is parsed.
  unfoldable pub snapshot_of : Wallet A → List (LedgerEntry A) → ℕ → Result DomainError (Snapshot A)
  unfolding read_money ledger_sum ledger_count parse_signed_money
  snapshot_of w entries id = do
    currency ← Currency.new_currency w.balance.currency.code
    stored ← read_money w.balance.amount currency
    calculated ← parse_signed_money (ledger_sum entries id) currency
    ok (record {
      stored_balance = stored;
      calculated_balance = calculated;
      checked_entries = ledger_count entries id;
    })
