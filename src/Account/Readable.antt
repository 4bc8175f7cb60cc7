-- ===== src/Account/Readable.antt =====
-- internal/infrastructure/postgres/wallet_ledger_repository.go: in a state that agrees with its
-- ledger the snapshot of a wallet can be read.
use junglegaming_test.Base.{ℕ, ◌≡◌, sym, ◌∙◌, some, ok, arith}
use junglegaming_test.Decimal.{Decimal, DecimalLaws}
use junglegaming_test.Currency
use junglegaming_test.Money
use junglegaming_test.Money.{Money}
use junglegaming_test.Money.Laws.{cents, is_amount_in_range-cents}
use junglegaming_test.Wallet.{Wallet}
use junglegaming_test.Store.{Store}
use junglegaming_test.Store.Ledger.{
  Snapshot, ledger_sum, ledger_count, read_money, parse_signed_money, snapshot_of,
}
use junglegaming_test.Service.Moves.{IsReconciled}
use junglegaming_test.Account.Consistency.{ledger_sum-cents}

module _ {A : Type 0} ⦃decimal : Decimal A⦄ ⦃laws : DecimalLaws A decimal⦄ where
  -- The balance of a wallet is within the limit, so a sum that equals it can be read.
  pub snapshot_of-IsOk :
      (s : Store A) (id : ℕ) (w : Wallet A)
      → IsReconciled s
      → s.wallets id ≡ some w
      → (p : Snapshot A) × (snapshot_of w s.ledger id ≡ ok p)
  unfolding snapshot_of parse_signed_money read_money Money.new_money Currency.new_currency
      Money.is_valid Currency.is_valid
  snapshot_of-IsOk s id w r found =
      let (v, _) = r.valid id w found in
      let total : laws.cents (ledger_sum s.ledger id) ≡ cents w.balance =
        ledger_sum-cents s.ledger id ∙ sym (r.balanced id w found) in
      let sum = ledger_sum s.ledger id in
      (
        record {
          stored_balance = w.balance;
          calculated_balance = record {
            amount = decimal.absolute sum;
            currency = w.balance.currency;
          };
          checked_entries = ledger_count s.ledger id;
        },
        ground (
          arith,
          v.balance_valid,
          v.balance_nonneg,
          total,
          laws.cents-absolute sum,
          laws.is_negative-cents sum,
          laws.is_negative-cents (decimal.absolute sum),
          laws.is_negative-cents w.balance.amount,
          is_amount_in_range-cents (decimal.absolute sum),
          is_amount_in_range-cents w.balance.amount,
        ),
      )
