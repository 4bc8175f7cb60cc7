-- ===== src/LedgerEntry/Laws.antt =====
-- internal/domain/wallet_ledger_entry.go: what a ledger entry that could be built says.
use junglegaming_test.Base.{ℕ, ◌≤◌, ◌≡◌, ◌↔◌, true, ok, arith, eq_iff, Result-cases, inl, inr}
use junglegaming_test.Base.Int.{ℤ, pos, ◌+ℤ◌, ◌-ℤ◌, ◌≤ℤ◌}
use junglegaming_test.Decimal.{Decimal, DecimalLaws}
use junglegaming_test.Currency
use junglegaming_test.Money
use junglegaming_test.Money.{Money}
use junglegaming_test.Money.Laws.{
  cents, add-cents, sub-cents, is_negative-cents, is_positive-cents, equal-cents, add-IsOk_iff,
  sub-IsOk_iff, is_valid-cents,
}
use junglegaming_test.LedgerEntry.{
  Direction, debit, credit, other, LedgerEntry, is_valid_direction, expected_balance,
  validate_ledger_balance, build_ledger_entry, new_ledger_entry, rehydrate_ledger_entry,
}

-- The cents after a movement of `amount` from `before`.
abbrev pub moved_cents : Direction → ℤ → ℤ → ℤ
moved_cents debit amount before = before -ℤ amount
moved_cents credit amount before = before +ℤ amount
moved_cents (other s) amount before = before

module _ {A : Type 0} ⦃decimal : Decimal A⦄ ⦃laws : DecimalLaws A decimal⦄ where
  -- The facts that an entry records.
  pub record IsValid (e : LedgerEntry A) : Type 0 where
    pub has_id : 1 ≤ e.id
    pub has_wallet : 1 ≤ e.wallet_id
    pub has_transaction : 1 ≤ e.transaction_id
    pub known_direction : is_valid_direction e.direction ≡ true
    pub amount_valid : Money.is_valid e.amount ≡ true
    pub before_valid : Money.is_valid e.balance_before ≡ true
    pub after_valid : Money.is_valid e.balance_after ≡ true
    pub amount_positive : pos 1 ≤ℤ cents e.amount
    pub before_nonneg : pos 0 ≤ℤ cents e.balance_before
    pub after_nonneg : pos 0 ≤ℤ cents e.balance_after
    pub before_currency : e.amount.currency.code ≡ e.balance_before.currency.code
    pub after_currency : e.amount.currency.code ≡ e.balance_after.currency.code
    pub has_time : 1 ≤ e.created_at
    pub balanced :
        cents e.balance_after ≡ moved_cents e.direction (cents e.amount) (cents e.balance_before)

  -- A direction that is known and an expected balance that can be computed and is the one given.
  validate_ledger_balance_iff :
      (d : Direction) (amount before after : Money A)
      → Money.is_valid amount ≡ true
      → Money.is_valid before ≡ true
      → Money.is_valid after ≡ true
      → before.currency.code ≡ amount.currency.code
      → before.currency.code ≡ after.currency.code
      → (validate_ledger_balance d amount before after ≡ ok tt) ↔ (
          (is_valid_direction d ≡ true)
          × (cents after ≡ moved_cents d (cents amount) (cents before)))
  unfolding validate_ledger_balance expected_balance is_valid_direction
  validate_ledger_balance_iff (other s) amount before after va vb vc same same' = ground arith
  validate_ledger_balance_iff debit amount before after va vb vc same same' =
      elim (Result-cases (Money.sub before amount)) [
        | inl (r, e) ↦
            let (valid, kept, total) = sub-cents before amount e in
            ground (arith, e, valid, kept, total, equal-cents r after)
        | inr (x, e) ↦ ground (arith, e, sub-IsOk_iff before amount, (is_valid-cents after).0 vc)
      ]
  validate_ledger_balance_iff credit amount before after va vb vc same same' =
      elim (Result-cases (Money.add before amount)) [
        | inl (r, e) ↦
            let (valid, kept, total) = add-cents before amount e in
            ground (arith, e, valid, kept, total, equal-cents r after)
        | inr (x, e) ↦ ground (arith, e, add-IsOk_iff before amount, (is_valid-cents after).0 vc)
      ]

  -- An entry that `NewWalletLedgerEntry` accepts names its parts, moves a positive amount of the
  -- currency of both balances, which are not negative, and its balance after is the one before with
  -- the amount added or subtracted.
  pub new_ledger_entry-IsValid :
      (id wallet transaction at : ℕ) (d : Direction) (amount before after : Money A)
      {e : LedgerEntry A}
      → new_ledger_entry id wallet transaction d amount before after at ≡ ok e
      → IsValid e
  unfolding new_ledger_entry build_ledger_entry Currency.equal
  new_ledger_entry-IsValid id wallet transaction at d amount before after h = ground (
    arith,
    validate_ledger_balance_iff d amount before after,
    eq_iff amount.currency.code before.currency.code,
    eq_iff amount.currency.code after.currency.code,
    is_positive-cents amount,
    is_negative-cents before,
    is_negative-cents after,
  )

  -- An entry that names its parts, moves a positive amount of the currency of both balances, which
  -- are not negative, and adds up is accepted by `RehydrateWalletLedgerEntry`.
  pub rehydrate_ledger_entry_self :
      (e : LedgerEntry A)
      → IsValid e
      → rehydrate_ledger_entry e.id e.wallet_id e.transaction_id e.direction e.amount
          e.balance_before e.balance_after e.created_at
        ≡ ok e
  unfolding rehydrate_ledger_entry build_ledger_entry Currency.equal
  rehydrate_ledger_entry_self e v = ground (
    arith,
    validate_ledger_balance_iff e.direction e.amount e.balance_before e.balance_after,
    eq_iff e.amount.currency.code e.balance_before.currency.code,
    eq_iff e.amount.currency.code e.balance_after.currency.code,
    is_positive-cents e.amount,
    is_negative-cents e.balance_before,
    is_negative-cents e.balance_after,
  )
