-- ===== src/Store/Ledger/Rows.antt =====
-- internal/infrastructure/postgres/wallet_ledger_repository.go: the rows of `ListByWallet`. An
-- identifier is a number that orders as its bytes do.
use junglegaming_test.Base.{
  ℕ, zero, suc, ◌==◌, Bool, true, ◌&&◌, ◌||◌, Option, none, some, List, [], ◌∷◌, ltb, if◌then◌else◌,
  Result, ok, ◌>>=◌,
}
use junglegaming_test.Decimal.{Decimal}
use junglegaming_test.Errors.{DomainError}
use junglegaming_test.Currency
use junglegaming_test.LedgerEntry.{LedgerEntry, rehydrate_ledger_entry}
use junglegaming_test.Store.Ledger.{read_money}

-- `beforeCreatedAt` and `beforeID`.
pub record Cursor : Type 0 where
  pub created_at : ℕ
  pub id : ℕ

module _ {A : Type 0} where
  unfoldable pub cursor_of : LedgerEntry A → Cursor
  cursor_of e = record { created_at = e.created_at; id = e.id }

  -- `(created_at, id) < ($2, $3)`
  unfoldable pub is_before : Cursor → LedgerEntry A → Bool
  is_before c e = ltb e.created_at c.created_at || (e.created_at == c.created_at && ltb e.id c.id)

  unfoldable pub is_after_cursor : Option Cursor → LedgerEntry A → Bool
  unfolding is_before
  is_after_cursor none e = true
  is_after_cursor (some c) e = is_before c e

  -- `WHERE wallet_id = $1`, and the rows of the page where there is a cursor.
  unfoldable pub on_page : ℕ → Option Cursor → LedgerEntry A → Bool
  unfolding is_after_cursor
  on_page id cursor e = e.wallet_id == id && is_after_cursor cursor e

  unfoldable pub select : (LedgerEntry A → Bool) → List (LedgerEntry A) → List (LedgerEntry A)
  select test [] = []
  select test (e ∷ es) = let rest = select test es in if test e then e ∷ rest else rest

  -- `ORDER BY created_at DESC, id DESC`
  unfoldable pub insert_row : LedgerEntry A → List (LedgerEntry A) → List (LedgerEntry A)
  unfolding is_before cursor_of
  insert_row e [] = e ∷ []
  insert_row e (f ∷ fs) =
      let rest = insert_row e fs in if is_before (cursor_of e) f then e ∷ f ∷ fs else f ∷ rest

  unfoldable pub sort_rows : List (LedgerEntry A) → List (LedgerEntry A)
  unfolding insert_row
  sort_rows [] = []
  sort_rows (e ∷ es) = insert_row e (sort_rows es)

  -- `LIMIT`
  unfoldable pub take : ℕ → List (LedgerEntry A) → List (LedgerEntry A)
  take zero es = []
  take (suc n) [] = []
  take (suc n) (e ∷ es) = e ∷ take n es

  -- The rows of the query.
  unfoldable pub page_rows : ℕ → Option Cursor → ℕ → List (LedgerEntry A) → List (LedgerEntry A)
  unfolding on_page select sort_rows take
  page_rows id cursor limit entries = take limit (sort_rows (select (on_page id cursor) entries))

module _ {A : Type 0} ⦃decimal : Decimal A⦄ where
  -- A row, as it is scanned.
  unfoldable pub scan_entry : LedgerEntry A → Result DomainError (LedgerEntry A)
  unfolding read_money
  scan_entry e = do
    currency ← Currency.new_currency e.amount.currency.code
    amount ← read_money e.amount.amount currency
    before ← read_money e.balance_before.amount currency
    after ← read_money e.balance_after.amount currency
    rehydrate_ledger_entry e.id e.wallet_id e.transaction_id e.direction amount before after
        e.created_at

  -- `for rows.Next()`
  unfoldable pub scan_entries : List (LedgerEntry A) → Result DomainError (List (LedgerEntry A))
  unfolding scan_entry
  scan_entries [] = ok []
  scan_entries (e ∷ es) = do entry ← scan_entry e; rest ← scan_entries es; ok (entry ∷ rest)

  -- `ListByWallet`, on the entries of the table.
  unfoldable pub list_by_wallet :
      ℕ → Option Cursor → ℕ → List (LedgerEntry A) → Result DomainError (List (LedgerEntry A))
  unfolding page_rows scan_entries
  list_by_wallet id cursor limit entries = scan_entries (page_rows id cursor limit entries)
