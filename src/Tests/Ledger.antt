-- ===== src/Tests/Ledger.antt =====
-- Ledger entries.
use junglegaming_test.Base.{◌≡◌, refl, ok, arith}
use junglegaming_test.Base.Int.{◌+ℤ◌}
use junglegaming_test.Decimal.Scaled.{scaled, scaled_laws, parse, require}
use junglegaming_test.Base.Int.{ℤ}
use junglegaming_test.Currency
use junglegaming_test.Money
use junglegaming_test.LedgerEntry.{
  LedgerEntry, debit, credit, new_ledger_entry, build_ledger_entry, is_valid_direction,
  validate_ledger_balance, expected_balance,
}
use junglegaming_test.LedgerEntry.Laws.{IsValid, new_ledger_entry-IsValid}
use junglegaming_test.LedgerEntry.Movements.{
  entry_of, new_ledger_entry-credit, new_ledger_entry-debit,
}
use junglegaming_test.Tests.Data.{cash, purse, fuller, emptier}
use junglegaming_test.Tests.Wallet.{purse-IsValid, credit-purse, debit-purse}

new_ledger_entry-credit_example :
    new_ledger_entry 5 7 9 credit (cash 2500) (cash 10000) (cash 12500) 20
    ≡ ok (entry_of 5 9 credit (cash 2500) purse fuller 20)
new_ledger_entry-credit_example =
    new_ledger_entry-credit 5 9 20 (cash 2500) purse (omega arith) (omega arith) purse-IsValid
      (omega arith) credit-purse

new_ledger_entry-debit_example :
    new_ledger_entry 5 7 9 debit (cash 2500) (cash 10000) (cash 7500) 20
    ≡ ok (entry_of 5 9 debit (cash 2500) purse emptier 20)
new_ledger_entry-debit_example =
    new_ledger_entry-debit 5 9 20 (cash 2500) purse (omega arith) (omega arith) purse-IsValid
      (omega arith) debit-purse

abbrev entry : LedgerEntry ℤ
entry = entry_of 5 9 credit (cash 2500) purse fuller 20

new_ledger_entry-run :
    new_ledger_entry 5 7 9 credit (cash 2500) (cash 10000) (cash 12500) 20 ≡ ok entry
unfolding new_ledger_entry build_ledger_entry is_valid_direction validate_ledger_balance
    expected_balance Money.add Money.new_money Money.is_valid Money.is_amount_in_range
    Money.is_positive Money.is_negative Money.equal Currency.is_valid Currency.equal parse require
    ◌+ℤ◌
new_ledger_entry-run = refl

new_ledger_entry-IsValid_example : IsValid entry
new_ledger_entry-IsValid_example =
    new_ledger_entry-IsValid 5 7 9 20 credit (cash 2500) (cash 10000) (cash 12500)
      new_ledger_entry-run

entry-IsValid : IsValid entry
unfolding is_valid_direction Money.is_valid Money.is_amount_in_range Currency.is_valid parse require
    ◌+ℤ◌
entry-IsValid = ground arith
