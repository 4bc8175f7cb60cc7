-- ===== src/Http.antt =====
-- internal/transport/http/wallet_handler.go: pages of the ledger.
pub mod Errors
pub mod Wagers
pub mod Access
pub mod Sorted
pub mod Cut
pub mod Pages
use junglegaming_test.Base.{
  ℕ, zero, suc, ◌+◌, Bool, Option, none, some, List, [], ◌∷◌, ltb, if◌then◌else◌,
}
use junglegaming_test.LedgerEntry.{LedgerEntry}
use junglegaming_test.Store.Ledger.Rows.{Cursor, cursor_of, take}

-- `walletLedgerResponse`, with the cursor where it has the text of it.
pub record LedgerPage (A : Type 0) : Type 0 where
  pub entries : List (LedgerEntry A)
  pub next_cursor : Option Cursor

module _ {A : Type 0} where
  -- `len`
  unfoldable pub length : List (LedgerEntry A) → ℕ
  length [] = 0
  length (e ∷ es) = suc (length es)

  -- The cursor of `entries[len(entries)-1]`. The page is not empty where it is asked for, since a
  -- limit is at least 1; an empty one, on which Go panics, has none here.
  unfoldable pub last_cursor : List (LedgerEntry A) → Option Cursor
  unfolding cursor_of
  last_cursor [] = none
  last_cursor (e ∷ []) = some (cursor_of e)
  last_cursor (e ∷ f ∷ fs) = last_cursor (f ∷ fs)

  -- `Ledger`, from the rows that were asked for with `limit + 1`.
  unfoldable pub ledger_page : ℕ → List (LedgerEntry A) → LedgerPage A
  unfolding length take last_cursor
  ledger_page limit rows =
      if ltb limit (length rows)
      then record { entries = take limit rows; next_cursor = last_cursor (take limit rows) }
      else record { entries = rows; next_cursor = none }
