-- ===== src/Http/Cut.antt =====
-- internal/infrastructure/postgres/wallet_ledger_repository.go: the rows after a cursor are those that
-- follow its entry in the order of the ledger.
use junglegaming_test.Base.{
  ℕ, zero, suc, ◌<◌, ◌≡◌, refl, sym, ap, ◌∙◌, Bool, true, false, none, some, List, [], ◌∷◌, ◌++◌,
  arith, inl, inr, Bool-cases, if◌then◌else◌,
}
use mathlib.Core.Path.{subst}
use junglegaming_test.LedgerEntry.{LedgerEntry}
use junglegaming_test.Store.Ledger.Rows.{
  Cursor, cursor_of, is_before, is_after_cursor, on_page, select, insert_row, sort_rows, take,
}
use junglegaming_test.Http.{length, last_cursor}
use junglegaming_test.Http.Sorted.{
  AllAfter, IsDescending, IsKeyed, insert_row-first, select-AllAfter, sort_rows-IsDescending,
  select-IsKeyed, AllAfter-trans,
}

module _ {A : Type 0} where
  select-insert_row :
      (test : LedgerEntry A → Bool) (e : LedgerEntry A) (es : List (LedgerEntry A))
      → IsDescending es
      → select test (insert_row e es)
        ≡ (if test e then insert_row e (select test es) else select test es)
  unfolding select insert_row IsDescending AllAfter
  select-insert_row test e [] h = ground arith
  select-insert_row test e (f ∷ fs) (first, rest) = elim (Bool-cases (is_before (cursor_of e) f)) [
    | inl here ↦
        let k =
          insert_row-first e (select test (f ∷ fs))
            (select-AllAfter test e (f ∷ fs) (here, AllAfter-trans e f fs here first)) in
        ground arith
    | inr later ↦ let k = select-insert_row test e fs rest in ground arith
  ]

  select-sort_rows :
      (test : LedgerEntry A → Bool) (es : List (LedgerEntry A))
      → IsKeyed es
      → select test (sort_rows es) ≡ sort_rows (select test es)
  unfolding select sort_rows IsKeyed
  select-sort_rows test [] h = refl
  select-sort_rows test (e ∷ es) (fresh, rest) =
      let k = select-insert_row test e (sort_rows es) (sort_rows-IsDescending es rest) in
      let l = select-sort_rows test es rest in ground arith

  select-select :
      (id : ℕ) (c : Cursor) (es : List (LedgerEntry A))
      → select (is_before c) (select (on_page id none) es) ≡ select (on_page id (some c)) es
  unfolding select on_page is_after_cursor
  select-select id c [] = refl
  select-select id c (e ∷ es) = let rest = select-select id c es in ground arith

  none_before :
      (e : LedgerEntry A) (ys : List (LedgerEntry A))
      → AllAfter e ys
      → select (is_before (cursor_of e)) ys ≡ ys
  unfolding select AllAfter
  none_before e [] h = refl
  none_before e (y ∷ ys) (first, rest) = rw first (ap (λ l. y ∷ l) (none_before e ys rest))

  not_before :
      (e f : LedgerEntry A) → is_before (cursor_of e) f ≡ true → is_before (cursor_of f) e ≡ false
  unfolding is_before cursor_of
  not_before e f h = ground arith

  itself : (e : LedgerEntry A) → is_before (cursor_of e) e ≡ false
  unfolding is_before cursor_of
  itself e = ground arith

  after_all :
      (x e : LedgerEntry A) (xs ys : List (LedgerEntry A))
      → AllAfter x (xs ++ e ∷ ys)
      → is_before (cursor_of x) e ≡ true
  unfolding AllAfter
  after_all x e [] ys (first, rest) = first
  after_all x e (z ∷ zs) ys (first, rest) = after_all x e zs ys rest

  -- The rows after an entry of the sorted ledger.
  pub select-rest :
      (xs ys : List (LedgerEntry A)) (e : LedgerEntry A)
      → IsDescending (xs ++ e ∷ ys)
      → select (is_before (cursor_of e)) (xs ++ e ∷ ys) ≡ ys
  unfolding select IsDescending
  select-rest [] ys e (after, rest) = rw (itself e) (none_before e ys after)
  select-rest (x ∷ xs) ys e (after, rest) =
      rw (not_before x e (after_all x e xs ys after)) (select-rest xs ys e rest)

  -- The rows of the query after a cursor.
  pub rows_after :
      (id : ℕ) (entries xs ys : List (LedgerEntry A)) (e : LedgerEntry A)
      → IsKeyed entries
      → sort_rows (select (on_page id none) entries) ≡ xs ++ e ∷ ys
      → sort_rows (select (on_page id (some (cursor_of e))) entries) ≡ ys
  rows_after id entries xs ys e keyed h =
      let all = select (on_page id none) entries in
      let all_keyed = select-IsKeyed (on_page id none) entries keyed in
      ap sort_rows (sym (select-select id (cursor_of e) entries))
      ∙ sym (select-sort_rows (is_before (cursor_of e)) all all_keyed)
      ∙ ap (select (is_before (cursor_of e))) h
      ∙ select-rest xs ys e (subst IsDescending h (sort_rows-IsDescending all all_keyed))

  -- A list with more than `k` rows splits at the last of the first `suc k`.
  pub take-split :
      (k : ℕ) (l : List (LedgerEntry A))
      → k < length l
      → (xs ys : List (LedgerEntry A)) × (e : LedgerEntry A) × (l ≡ xs ++ e ∷ ys)
        × (take (suc k) l ≡ xs ++ e ∷ [])
        × (last_cursor (take (suc k) l) ≡ some (cursor_of e))
        × (length ys < length l)
  unfolding take length last_cursor
  take-split k [] h = absurd (ground arith)
  take-split zero (x ∷ l) h = ([], l, x, refl, refl, refl, ground arith)
  take-split (suc k) (x ∷ []) h = absurd (ground arith)
  take-split (suc k) (x ∷ y ∷ l) h =
      let (xs, ys, e, same, taken, last, less) = take-split k (y ∷ l) (ground arith) in
      (x ∷ xs, ys, e, ap (λ l. x ∷ l) same, ap (λ l. x ∷ l) taken, last, ground arith)
