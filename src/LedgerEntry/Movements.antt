-- ===== src/LedgerEntry/Movements.antt =====
-- internal/domain/wallet.go and wallet_ledger_entry.go together: the entry that the wager service
-- writes after a movement of a wallet can always be built.
use junglegaming_test.Base.{ℕ, ◌≤◌, ◌≡◌, ◌≢◌, ok, arith}
use junglegaming_test.Base.Int.{max_int64}
use junglegaming_test.Decimal.{Decimal, DecimalLaws}
use junglegaming_test.Money.{Money}
use junglegaming_test.Wallet
use junglegaming_test.Wallet.{Wallet}
use junglegaming_test.Wallet.Invariant
use junglegaming_test.Wallet.Credit.{credit-IsMoved}
use junglegaming_test.Wallet.Debit.{debit-IsMoved}
use junglegaming_test.LedgerEntry.{
  Direction, LedgerEntry, debit, credit, new_ledger_entry, rehydrate_ledger_entry,
  is_valid_direction,
}
use junglegaming_test.LedgerEntry.Laws.{IsValid, rehydrate_ledger_entry_self}

module _ {A : Type 0} ⦃decimal : Decimal A⦄ ⦃laws : DecimalLaws A decimal⦄ where
  -- The entry of a movement from wallet `w` to wallet `w'`.
  abbrev pub entry_of : ℕ → ℕ → Direction → Money A → Wallet A → Wallet A → ℕ → LedgerEntry A
  entry_of id transaction d amount w w' at = record {
    id = id;
    wallet_id = w'.id;
    transaction_id = transaction;
    direction = d;
    amount = amount;
    balance_before = w.balance;
    balance_after = w'.balance;
    created_at = at;
  }

  -- After a successful credit of a valid wallet whose version is not the greatest int64, the entry
  -- that records it under nonzero identifiers is accepted and holds both balances.
  pub new_ledger_entry-credit :
      (id transaction at : ℕ) (amount : Money A) (w : Wallet A) {w' : Wallet A}
      → 1 ≤ id
      → 1 ≤ transaction
      → Invariant.IsValid w
      → w.version ≢ max_int64
      → Wallet.credit w amount at ≡ ok w'
      → new_ledger_entry id w'.id transaction credit amount w.balance w'.balance at
        ≡ ok (entry_of id transaction credit amount w w' at)
  unfolding new_ledger_entry rehydrate_ledger_entry is_valid_direction
  new_ledger_entry-credit id transaction at amount w {w'} hid ht v room h =
      let (mv, moved) = credit-IsMoved w amount at v room h in
      let entry = entry_of id transaction credit amount w w' at in
      let valid : IsValid entry = ground arith in rehydrate_ledger_entry_self entry valid

  -- After a successful debit of a valid wallet whose version is not the greatest int64, the entry
  -- that records it under nonzero identifiers is accepted and holds both balances.
  pub new_ledger_entry-debit :
      (id transaction at : ℕ) (amount : Money A) (w : Wallet A) {w' : Wallet A}
      → 1 ≤ id
      → 1 ≤ transaction
      → Invariant.IsValid w
      → w.version ≢ max_int64
      → Wallet.debit w amount at ≡ ok w'
      → new_ledger_entry id w'.id transaction debit amount w.balance w'.balance at
        ≡ ok (entry_of id transaction debit amount w w' at)
  unfolding new_ledger_entry rehydrate_ledger_entry is_valid_direction
  new_ledger_entry-debit id transaction at amount w {w'} hid ht v room h =
      let (mv, covered, moved) = debit-IsMoved w amount at v room h in
      let entry = entry_of id transaction debit amount w w' at in
      let valid : IsValid entry = ground arith in rehydrate_ledger_entry_self entry valid
