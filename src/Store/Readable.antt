-- ===== src/Store/Readable.antt =====
-- internal/domain/wager_transaction.go with internal/infrastructure/postgres/wager_repository.go: the
-- columns of a transaction are read as the transaction.
use junglegaming_test.Base.{◌≡◌, String, eq_iff, true, false, some, arith}
use junglegaming_test.Decimal.{Decimal}
use junglegaming_test.Currency
use junglegaming_test.Currency.{Currency}
use junglegaming_test.Money
use junglegaming_test.Money.{Money}
use junglegaming_test.Wager.State.{WagerTransaction}
use junglegaming_test.Store.Columns.{nullable_string, string_value}

pub string_value-nullable_string : (s : String) → string_value (nullable_string s) ≡ s
string_value-nullable_string s = ground (arith, eq_iff s "")

module _ {A : Type 0} ⦃decimal : Decimal A⦄ where
  -- Money that can be read with a currency: it has the currency, is in range and is not negative.
  pub record IsReadable (currency : Currency) (m : Money A) : Type 0 where
    pub valid : Money.is_valid m ≡ true
    pub not_negative : Money.is_negative m ≡ false
    pub same_currency : m.currency.code ≡ currency.code

  -- The balances that there are can be read.
  pub record HasReadable (w : WagerTransaction A) : Type 0 where
    pub before : (m : Money A) → w.balance_before ≡ some m → IsReadable w.amount.currency m
    pub after : (m : Money A) → w.balance_after ≡ some m → IsReadable w.amount.currency m
