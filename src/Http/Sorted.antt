-- ===== src/Http/Sorted.antt =====
-- internal/infrastructure/postgres/wallet_ledger_repository.go: the order of the rows of a page.
use junglegaming_test.Base.{
  ◌≡◌, ◌≢◌, refl, Bool, true, false, List, [], ◌∷◌, arith, inl, inr, Bool-cases,
}
use junglegaming_test.LedgerEntry.{LedgerEntry}
use junglegaming_test.Store.Ledger.Rows.{cursor_of, is_before, select, insert_row, sort_rows}

module _ {A : Type 0} where
  -- Each of the rows comes after `e`: it is older, or as old with a lower identifier.
  unfoldable pub AllAfter : LedgerEntry A → List (LedgerEntry A) → Type 0
  AllAfter e [] = Unit
  AllAfter e (f ∷ fs) = (is_before (cursor_of e) f ≡ true) × AllAfter e fs

  -- Each row comes after those before it.
  unfoldable pub IsDescending : List (LedgerEntry A) → Type 0
  IsDescending [] = Unit
  IsDescending (e ∷ es) = AllAfter e es × IsDescending es

  -- No other row has the identifier of `e`.
  unfoldable pub IsFresh : LedgerEntry A → List (LedgerEntry A) → Type 0
  IsFresh e [] = Unit
  IsFresh e (f ∷ fs) = (e.id ≢ f.id) × IsFresh e fs

  -- The primary key of `wallet_ledger_entries`.
  unfoldable pub IsKeyed : List (LedgerEntry A) → Type 0
  IsKeyed [] = Unit
  IsKeyed (e ∷ es) = IsFresh e es × IsKeyed es

  before_trans :
      (e f g : LedgerEntry A)
      → is_before (cursor_of e) f ≡ true
      → is_before (cursor_of f) g ≡ true
      → is_before (cursor_of e) g ≡ true
  unfolding is_before cursor_of
  before_trans e f g h k = ground arith

  before_total :
      (e f : LedgerEntry A)
      → e.id ≢ f.id
      → is_before (cursor_of e) f ≡ false
      → is_before (cursor_of f) e ≡ true
  unfolding is_before cursor_of
  before_total e f h k = ground arith

  pub AllAfter-trans :
      (e f : LedgerEntry A) (es : List (LedgerEntry A))
      → is_before (cursor_of e) f ≡ true
      → AllAfter f es
      → AllAfter e es
  unfolding AllAfter
  AllAfter-trans e f [] h k = tt
  AllAfter-trans e f (g ∷ gs) h (first, rest) =
      (before_trans e f g h first, AllAfter-trans e f gs h rest)

  insert_row-AllAfter :
      (e f : LedgerEntry A) (es : List (LedgerEntry A))
      → is_before (cursor_of f) e ≡ true
      → AllAfter f es
      → AllAfter f (insert_row e es)
  unfolding AllAfter insert_row
  insert_row-AllAfter e f [] h k = (h, tt)
  insert_row-AllAfter e f (g ∷ gs) h (first, rest) = elim (Bool-cases (is_before (cursor_of e) g)) [
    | inl here ↦ rw here (h, (first, rest))
    | inr later ↦ rw later (first, insert_row-AllAfter e f gs h rest)
  ]

  insert_row-IsDescending :
      (e : LedgerEntry A) (es : List (LedgerEntry A))
      → IsFresh e es
      → IsDescending es
      → IsDescending (insert_row e es)
  unfolding IsDescending insert_row IsFresh AllAfter
  insert_row-IsDescending e [] fresh k = (tt, tt)
  insert_row-IsDescending e (g ∷ gs) (other, fresh) (first, rest) =
      elim (Bool-cases (is_before (cursor_of e) g)) [
        | inl here ↦ rw here ((here, AllAfter-trans e g gs here first), (first, rest))
        | inr later ↦ rw later (
          insert_row-AllAfter e g gs (before_total e g other later) first,
          insert_row-IsDescending e gs fresh rest,
        )
      ]

  -- A row that comes before all is inserted first.
  pub insert_row-first :
      (e : LedgerEntry A) (es : List (LedgerEntry A)) → AllAfter e es → insert_row e es ≡ e ∷ es
  unfolding insert_row AllAfter
  insert_row-first e [] h = refl
  insert_row-first e (f ∷ fs) (first, rest) = rw first refl

  pub select-AllAfter :
      (test : LedgerEntry A → Bool) (e : LedgerEntry A) (es : List (LedgerEntry A))
      → AllAfter e es
      → AllAfter e (select test es)
  unfolding select AllAfter
  select-AllAfter test e [] h = tt
  select-AllAfter test e (f ∷ fs) (first, rest) = elim (Bool-cases (test f)) [
    | inl hit ↦ rw hit (first, select-AllAfter test e fs rest)
    | inr miss ↦ rw miss (select-AllAfter test e fs rest)
  ]

  select-IsFresh :
      (test : LedgerEntry A → Bool) (e : LedgerEntry A) (es : List (LedgerEntry A))
      → IsFresh e es
      → IsFresh e (select test es)
  unfolding select IsFresh
  select-IsFresh test e [] h = tt
  select-IsFresh test e (f ∷ fs) (first, rest) = elim (Bool-cases (test f)) [
    | inl hit ↦ rw hit (first, select-IsFresh test e fs rest)
    | inr miss ↦ rw miss (select-IsFresh test e fs rest)
  ]

  insert_row-IsFresh :
      (e f : LedgerEntry A) (es : List (LedgerEntry A))
      → e.id ≢ f.id
      → IsFresh e es
      → IsFresh e (insert_row f es)
  unfolding insert_row IsFresh
  insert_row-IsFresh e f [] h k = (h, tt)
  insert_row-IsFresh e f (g ∷ gs) h (first, rest) = elim (Bool-cases (is_before (cursor_of f) g)) [
    | inl here ↦ rw here (h, (first, rest))
    | inr later ↦ rw later (first, insert_row-IsFresh e f gs h rest)
  ]

  sort_rows-IsFresh :
      (e : LedgerEntry A) (es : List (LedgerEntry A)) → IsFresh e es → IsFresh e (sort_rows es)
  unfolding sort_rows IsFresh
  sort_rows-IsFresh e [] h = tt
  sort_rows-IsFresh e (f ∷ fs) (first, rest) =
      insert_row-IsFresh e f (sort_rows fs) first (sort_rows-IsFresh e fs rest)

  pub sort_rows-IsDescending :
      (es : List (LedgerEntry A)) → IsKeyed es → IsDescending (sort_rows es)
  unfolding sort_rows IsKeyed IsDescending
  sort_rows-IsDescending [] h = tt
  sort_rows-IsDescending (e ∷ es) (fresh, rest) =
      insert_row-IsDescending e (sort_rows es) (sort_rows-IsFresh e es fresh)
        (sort_rows-IsDescending es rest)

  pub select-IsKeyed :
      (test : LedgerEntry A → Bool) (es : List (LedgerEntry A))
      → IsKeyed es
      → IsKeyed (select test es)
  unfolding select IsKeyed
  select-IsKeyed test [] h = tt
  select-IsKeyed test (e ∷ es) (fresh, rest) = elim (Bool-cases (test e)) [
    | inl hit ↦ rw hit (select-IsFresh test e es fresh, select-IsKeyed test es rest)
    | inr miss ↦ rw miss (select-IsKeyed test es rest)
  ]
