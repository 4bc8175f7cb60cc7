-- ===== src/Http/Pages.antt =====
-- internal/transport/http/wallet_handler.go with wallet_ledger_repository.go: a client that follows the
-- cursors of the ledger.
use junglegaming_test.Base.{
  ℕ, zero, suc, ◌≤◌, ◌<◌, ◌≡◌, refl, sym, ap, ◌∙◌, Option, none, some, List, [], ◌∷◌, ◌++◌, arith,
  inl, inr, Bool-cases, ltb,
}
use mathlib.Core.List.{append_assoc}
use junglegaming_test.LedgerEntry.{LedgerEntry}
use junglegaming_test.Store.Ledger.Rows.{
  Cursor, cursor_of, on_page, select, sort_rows, take, page_rows,
}
use junglegaming_test.Http.{LedgerPage, length, last_cursor, ledger_page}
use junglegaming_test.Http.Sorted.{IsKeyed}
use junglegaming_test.Http.Cut.{rows_after, take-split}

module _ {A : Type 0} where
  -- The answer to a client with a cursor: `Ledger` asks for one row more than the limit.
  unfoldable pub page_at : ℕ → ℕ → Option Cursor → List (LedgerEntry A) → LedgerPage A
  unfolding ledger_page page_rows
  page_at limit id cursor entries = ledger_page limit (page_rows id cursor (suc limit) entries)

  -- The rest of the pages, from the next cursor of a page.
  unfoldable pub read_next :
      (Option Cursor → List (LedgerEntry A)) → LedgerPage A → Option Cursor → List (LedgerEntry A)
  read_next rest page none = page.entries
  read_next rest page (some c) = page.entries ++ rest (some c)

  -- What a client has read after at most that many pages, from a cursor on.
  unfoldable pub read_pages :
      ℕ → ℕ → ℕ → List (LedgerEntry A) → Option Cursor → List (LedgerEntry A)
  unfolding page_at read_next
  read_pages zero limit id entries cursor = []
  read_pages (suc n) limit id entries cursor =
      let page = page_at limit id cursor entries in
      read_next (read_pages n limit id entries) page page.next_cursor

  -- The entries of a wallet, the last first.
  unfoldable pub whole_ledger : ℕ → List (LedgerEntry A) → List (LedgerEntry A)
  whole_ledger id entries = sort_rows (select (on_page id none) entries)

  take-all : (n : ℕ) (l : List (LedgerEntry A)) → length (take (suc n) l) ≤ n → take (suc n) l ≡ l
  unfolding take length
  take-all n [] h = refl
  take-all zero (x ∷ l) h = absurd (ground arith)
  take-all (suc n) (x ∷ l) h = ap (λ r. x ∷ r) (take-all n l (ground arith))

  take-longer : (n : ℕ) (l : List (LedgerEntry A)) → n < length (take (suc n) l) → n < length l
  unfolding take length
  take-longer n [] h = absurd (ground arith)
  take-longer zero (x ∷ l) h = ground arith
  take-longer (suc n) (x ∷ l) h = let k = take-longer n l (ground arith) in ground arith

  take-take : (n : ℕ) (l : List (LedgerEntry A)) → take n (take (suc n) l) ≡ take n l
  unfolding take
  take-take zero l = refl
  take-take (suc n) [] = refl
  take-take (suc n) (x ∷ l) = ap (λ r. x ∷ r) (take-take n l)

  read_from :
      (n k id : ℕ) (entries pre l : List (LedgerEntry A)) (cursor : Option Cursor)
      → IsKeyed entries
      → whole_ledger id entries ≡ pre ++ l
      → sort_rows (select (on_page id cursor) entries) ≡ l
      → length l < n
      → read_pages n (suc k) id entries cursor ≡ l
  unfolding read_pages page_at ledger_page page_rows whole_ledger read_next
  read_from zero k id entries pre l cursor keyed split rows more = absurd (ground arith)
  read_from (suc n) k id entries pre l cursor keyed split rows more =
      elim (Bool-cases (ltb (suc k) (length (take (suc (suc k)) l)))) [
        | inr whole ↦ rw (rows, whole) (take-all (suc k) l (ground arith))
        | inl longer ↦
            let (xs, ys, e, same, taken, last, less) =
              take-split k l (let h = take-longer (suc k) l (ground arith) in ground arith) in
            let first : take (suc k) (take (suc (suc k)) l) ≡ xs ++ e ∷ [] =
              take-take (suc k) l ∙ taken in
            let here : whole_ledger id entries ≡ (pre ++ xs) ++ e ∷ ys =
              split ∙ ap (λ r. pre ++ r) same ∙ sym (append_assoc pre xs (e ∷ ys)) in
            let next = rows_after id entries (pre ++ xs) ys e keyed here in
            let rest =
              read_from n k id entries ((pre ++ xs) ++ e ∷ []) ys (some (cursor_of e)) keyed
                (here ∙ sym (append_assoc (pre ++ xs) (e ∷ []) ys)) next (ground arith) in
            let ends : last_cursor (xs ++ e ∷ []) ≡ some (cursor_of e) =
              ap last_cursor (sym taken) ∙ last in
            let page : page_at (suc k) id cursor entries
                ≡ record { entries = xs ++ e ∷ []; next_cursor = some (cursor_of e) } =
              rw (rows, longer, first, ends) refl in
            ap (λ p. read_next (read_pages n (suc k) id entries) p p.next_cursor) page
            ∙ ap (λ r. (xs ++ e ∷ []) ++ r) rest
            ∙ append_assoc xs (e ∷ []) ys
            ∙ sym same
      ]

  -- A client that follows the cursors reads each entry of the wallet once, the last first, and the
  -- pages end, with any limit but 0 and no two entries of one identifier: as many requests as
  -- there are entries, and one more, are enough.
  pub read_pages_all :
      (n limit id : ℕ) (entries : List (LedgerEntry A))
      → 1 ≤ limit
      → IsKeyed entries
      → length (whole_ledger id entries) < n
      → read_pages n limit id entries none ≡ whole_ledger id entries
  unfolding whole_ledger
  read_pages_all n zero id entries some_rows keyed enough = absurd (ground arith)
  read_pages_all n (suc k) id entries some_rows keyed enough =
      read_from n k id entries [] (whole_ledger id entries) none keyed refl refl enough
