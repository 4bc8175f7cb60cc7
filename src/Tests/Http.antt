-- ===== src/Tests/Http.antt =====
-- A ledger of three entries that is read one entry at a time, and a request for a bet.
use junglegaming_test.Base.{ℕ, ◌≡◌, ◌↔◌, none, some, List, [], ◌∷◌, arith, ok}
use junglegaming_test.Base.Int.{ℤ}
use junglegaming_test.LedgerEntry.{Direction, LedgerEntry}
use junglegaming_test.Store.Ledger.Rows.{
  on_page, is_after_cursor, select, insert_row, sort_rows, is_before, cursor_of,
}
use junglegaming_test.Http.{length}
use junglegaming_test.Http.Sorted.{IsKeyed, IsFresh}
use junglegaming_test.Http.Pages.{read_pages, whole_ledger, read_pages_all}
use junglegaming_test.Http.Wagers.{Principal, CreateWagerRequest, command_of, accept_wager}
use junglegaming_test.Http.Access.{IsAccepted, accept_wager_iff}
use junglegaming_test.Tests.Data.{cash}

abbrev entry : ℕ → ℕ → LedgerEntry ℤ
entry id at = record {
  id = id;
  wallet_id = 7;
  transaction_id = 9;
  direction = Direction.credit;
  amount = cash 100;
  balance_before = cash 0;
  balance_after = cash 100;
  created_at = at;
}

abbrev entries : List (LedgerEntry ℤ)
entries = entry 1 20 ∷ entry 2 30 ∷ entry 3 20 ∷ []

read_pages_all_example : read_pages 4 1 7 entries none ≡ whole_ledger 7 entries
unfolding IsKeyed IsFresh whole_ledger length on_page is_after_cursor select insert_row sort_rows
    is_before cursor_of
read_pages_all_example =
    read_pages_all 4 1 7 entries (omega arith)
      ((ground arith, (ground arith, tt)), ((ground arith, tt), (tt, tt))) (omega arith)

abbrev provider : Principal
provider = record {
  subject = "s-1";
  client_id = "c-1";
  provider_id = "prov";
  roles = "provider" ∷ [];
}

abbrev request : CreateWagerRequest
request = record {
  provider_id = "prov";
  external_transaction_id = "x-1";
  player_id = "p-1";
  wallet_id = "w-1";
  round_id = "r-1";
  game_id = "g-1";
  kind = "BET";
  amount = "25.00";
  currency = "BRL";
  reference_external_transaction_id = "";
}

accept_wager_iff_example :
    (accept_wager (some provider) (some request) "k-1" ≡ ok (command_of provider request "k-1"))
    ↔ IsAccepted (some provider) (some request) "k-1" (command_of provider request "k-1")
accept_wager_iff_example =
    accept_wager_iff (some provider) (some request) "k-1" (command_of provider request "k-1")
