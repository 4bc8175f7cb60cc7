-- ===== src/Service/Moves.antt =====
-- internal/application/wager_service.go: `applyMovement` keeps each balance equal to the sum of the
-- wallet's ledger entries.
use junglegaming_test.Base.{
  ℕ, ◌==◌, ◌≡◌, ◌≢◌, refl, ◌∙◌, true, none, some, List, [], ◌∷◌, ok, arith, inl, inr, Bool-cases,
  if◌then◌else◌,
}
use junglegaming_test.Base.Int.{ℤ, pos, ◌+ℤ◌, ◌-ℤ◌, max_int64, add64}
use junglegaming_test.Decimal.{Decimal, DecimalLaws}
use junglegaming_test.Money.{Money}
use junglegaming_test.Money.Laws.{cents}
use junglegaming_test.Wallet.{Wallet, apply_balance}
use junglegaming_test.Wallet.Invariant.{IsValid}
use junglegaming_test.Wallet.Credit.{credit-IsMoved, credit_parts}
use junglegaming_test.Wallet.Debit.{debit-IsMoved, debit_parts}
use junglegaming_test.LedgerEntry.{
  Direction, debit, credit, other, LedgerEntry, is_valid_direction, new_ledger_entry,
  build_ledger_entry,
}
use junglegaming_test.LedgerEntry.Laws.{moved_cents, new_ledger_entry-IsValid}
use junglegaming_test.Store.{Store}
use junglegaming_test.Store.Ledger.{ledger_count}
use junglegaming_test.Store.Wallets.{updated_row, least_version}
use junglegaming_test.Service.{move_wallet}

-- An entry that is no credit counts as a debit, as in the sum of the database.
abbrev pub signed_cents : Direction → ℤ → ℤ → ℤ
signed_cents debit amount rest = rest -ℤ amount
signed_cents credit amount rest = rest +ℤ amount
signed_cents (other s) amount rest = rest -ℤ amount

known_signed :
    (d : Direction) (amount before : ℤ)
    → is_valid_direction d ≡ true
    → moved_cents d amount before ≡ signed_cents d amount before
unfolding is_valid_direction
known_signed debit amount before h = refl
known_signed credit amount before h = refl
known_signed (other s) amount before h = absurd (ground arith)

module _ {A : Type 0} ⦃decimal : Decimal A⦄ ⦃laws : DecimalLaws A decimal⦄ where
  -- The sum of the entries of a wallet, in cents, debits counted negative.
  unfoldable pub ledger_total : List (LedgerEntry A) → ℕ → ℤ
  ledger_total [] id = pos 0
  ledger_total (e ∷ es) id =
      let rest = ledger_total es id in
      if e.wallet_id == id then signed_cents e.direction (cents e.amount) rest else rest

  -- Every wallet is valid and its balance is the sum of its entries; no entry is without a wallet.
  pub record IsReconciled (s : Store A) : Type 0 where
    pub valid : (id : ℕ) (w : Wallet A) → s.wallets id ≡ some w → IsValid w × (w.id ≡ id)
    pub balanced :
        (id : ℕ) (w : Wallet A) → s.wallets id ≡ some w → cents w.balance ≡ ledger_total s.ledger id
    pub owned : (id : ℕ) → s.wallets id ≡ none → ledger_count s.ledger id ≡ 0

  -- Where there is no entry, the sum is nothing.
  pub no_entry_total :
      (es : List (LedgerEntry A)) (id : ℕ) → ledger_count es id ≡ 0 → ledger_total es id ≡ pos 0
  unfolding ledger_total ledger_count
  no_entry_total [] id h = refl
  no_entry_total (e ∷ es) id h = elim (Bool-cases (e.wallet_id == id)) [
    | inl own ↦ absurd (ground arith)
    | inr not_own ↦ let rest = no_entry_total es id (ground arith) in ground arith
  ]

  room_of :
      (w m : Wallet A)
      → m.version ≡ add64 w.version 1
      → m.version ≢ least_version
      → w.version ≢ max_int64
  room_of w m e h = ground arith

  -- A movement whose version the database can store gives a valid wallet, which is the row that
  -- the statement of `Update` leaves.
  pub move_wallet_parts :
      (d : Direction) (w : Wallet A) (amount : Money A) (now : ℕ) {m : Wallet A}
      → IsValid w
      → m.version ≢ least_version
      → move_wallet d w amount now ≡ ok m
      → IsValid m × (m.id ≡ w.id) × (updated_row w m ≡ m)
  unfolding move_wallet updated_row apply_balance
  move_wallet_parts debit w amount now {m} v stored h =
      let (b, mv, covered, diff, e) = debit_parts w amount now v h in
      let same : m.version ≡ add64 w.version 1 = rw e refl in
      let (_, _, moved) = debit-IsMoved w amount now v (room_of w m same stored) h in
      (moved.still_valid, moved.kept_id, ground arith)
  move_wallet_parts credit w amount now {m} v stored h =
      let (b, mv, sum, e) = credit_parts w amount now h in
      let same : m.version ≡ add64 w.version 1 = rw e refl in
      let (_, moved) = credit-IsMoved w amount now v (room_of w m same stored) h in
      (moved.still_valid, moved.kept_id, ground arith)
  move_wallet_parts (other s) w amount now v stored h = absurd (ground arith)

  -- The entry of a movement holds what it was given, and adds up.
  pub entry_parts :
      (id wallet transaction at : ℕ) (d : Direction) (amount before after : Money A)
      {e : LedgerEntry A}
      → new_ledger_entry id wallet transaction d amount before after at ≡ ok e
      → (e.wallet_id ≡ wallet)
        × (e.direction ≡ d)
        × (e.amount ≡ amount)
        × (cents after ≡ signed_cents d (cents amount) (cents before))
  unfolding new_ledger_entry build_ledger_entry
  entry_parts id wallet transaction at d amount before after {e} h =
      let v = new_ledger_entry-IsValid id wallet transaction at d amount before after h in
      let (w, x, y, b, c) : (e.wallet_id ≡ wallet)
          × (e.direction ≡ d)
          × (e.amount ≡ amount)
          × (e.balance_before ≡ before)
          × (e.balance_after ≡ after) =
        ground arith in
      (
        w,
        x,
        y,
        rw (← x, ← y, ← b, ← c)
            (v.balanced
              ∙ known_signed e.direction (cents e.amount) (cents e.balance_before)
                  v.known_direction),
      )
