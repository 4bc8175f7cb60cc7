-- ===== src/Wallet/Debit.antt =====
-- internal/domain/wallet.go: `Debit`.
use junglegaming_test.Base.{ℕ, ◌≤◌, ◌≡◌, ◌≢◌, ◌↔◌, inl, inr, ok, err, IsOk, arith, Result-cases}
use junglegaming_test.Base.Int.{ℤ, pos, abs, ◌-ℤ◌, ◌≤ℤ◌, max_int64, int_laws}
use junglegaming_test.Decimal.{Decimal, DecimalLaws}
use junglegaming_test.Errors.{insufficient_funds}
use junglegaming_test.Money
use junglegaming_test.Money.{Money}
use junglegaming_test.Money.Laws.{
  cents, max_cents, sub-cents, sub-IsOk_iff, compare-cents, is_valid-cents,
}
use junglegaming_test.Wallet.Invariant.{
  IsValid, IsMovement, IsMoved, validate_movement_iff, apply_balance-IsMoved,
}
use junglegaming_test.Wallet.{Wallet, apply_balance, validate_movement, debit}

-- Neither is a difference that does not pass below 0.
within_difference : (a b : ℤ) → abs a ≤ max_cents → pos 1 ≤ℤ b → b ≤ℤ a → abs (a -ℤ b) ≤ max_cents
unfolding ◌-ℤ◌
within_difference a b ha hb h = ground arith

module _ {A : Type 0} ⦃decimal : Decimal A⦄ ⦃laws : DecimalLaws A decimal⦄ where
  pub debit_parts :
      (w : Wallet A) (amount : Money A) (at : ℕ) {w' : Wallet A}
      → IsValid w
      → debit w amount at ≡ ok w'
      → (b : Money A) × IsMovement w amount at
        × (cents amount ≤ℤ cents w.balance)
        × (Money.sub w.balance amount ≡ ok b)
        × (w' ≡ apply_balance w b at)
  unfolding debit
  debit_parts w amount at v h = elim (Result-cases (Money.sub w.balance amount)) [
    | inl (b, e) ↦
        let mv : IsMovement w amount at = ground (arith, validate_movement_iff w amount at) in
        let order =
          compare-cents w.balance amount v.balance_valid mv.amount_valid mv.same_currency in
        (b, mv, ground (arith, order), e, ground arith)
    | inr (x, e) ↦ absurd (ground arith)
  ]

  -- A successful debit of a valid wallet whose version is not the greatest int64 was a movement that
  -- the balance covers, and gives a valid wallet with the amount subtracted, the next version and
  -- the time of the movement; the currency, the identifiers and the creation time stay.
  pub debit-IsMoved :
      (w : Wallet A) (amount : Money A) (at : ℕ) {w' : Wallet A}
      → IsValid w
      → w.version ≢ max_int64
      → debit w amount at ≡ ok w'
      → IsMovement w amount at
        × (cents amount ≤ℤ cents w.balance)
        × IsMoved w w' (cents w.balance -ℤ cents amount) at
  debit-IsMoved w amount at {w'} v room h =
      let (b, mv, covered, diff, e) = debit_parts w amount at v h in
      let (valid, same, total) = sub-cents w.balance amount diff in
      let moved =
        apply_balance-IsMoved w b at v room valid (rw total (omega int_laws)) same
          mv.not_backwards in
      (mv, covered, rw (e, ← total) moved)

  debit_covered :
      (w : Wallet A) (amount : Money A) (at : ℕ)
      → IsValid w
      → IsMovement w amount at
      → cents amount ≤ℤ cents w.balance
      → IsOk (debit w amount at)
  unfolding debit
  debit_covered w amount at v mv covered =
      let order = compare-cents w.balance amount v.balance_valid mv.amount_valid mv.same_currency in
      let bound = (is_valid-cents w.balance).0 v.balance_valid in
      let diff : IsOk (Money.sub w.balance amount) = (sub-IsOk_iff w.balance amount).1 (
        v.balance_valid,
        mv.amount_valid,
        mv.same_currency,
        within_difference (cents w.balance) (cents amount) bound.1 mv.amount_positive covered,
      ) in
      ground (arith, validate_movement_iff w amount at, order, diff)

  debit_short :
      (w : Wallet A) (amount : Money A) (at : ℕ)
      → IsValid w
      → IsMovement w amount at
      → ¬ (cents amount ≤ℤ cents w.balance)
      → debit w amount at ≡ err insufficient_funds
  unfolding debit
  debit_short w amount at v mv short =
      let order = compare-cents w.balance amount v.balance_valid mv.amount_valid mv.same_currency in
      ground (arith, validate_movement_iff w amount at, order)

  -- The errors of the checks before the comparison are other errors.
  validate_movement-ne-insufficient_funds :
      (w : Wallet A) (amount : Money A) (at : ℕ)
      → validate_movement w amount at ≢ err insufficient_funds
  unfolding validate_movement
  validate_movement-ne-insufficient_funds w amount at = ground arith

  debit_refused-IsMovement :
      (w : Wallet A) (amount : Money A) (at : ℕ)
      → debit w amount at ≡ err insufficient_funds
      → IsMovement w amount at
  unfolding debit
  debit_refused-IsMovement w amount at h = ground (
    arith,
    validate_movement_iff w amount at,
    validate_movement-ne-insufficient_funds w amount at,
  )

  -- A debit of a valid wallet succeeds for just the movements that its balance covers.
  pub debit-IsOk_iff :
      (w : Wallet A) (amount : Money A) (at : ℕ)
      → IsValid w
      → IsOk (debit w amount at) ↔ (IsMovement w amount at × (cents amount ≤ℤ cents w.balance))
  debit-IsOk_iff w amount at v = (
    λ h. elim (Result-cases (debit w amount at)) [
      | inl (w', e) ↦
          let (b, mv, covered, rest, same) = debit_parts w amount at v e in (mv, covered)
      | inr (x, e) ↦ absurd (rw e at h)
    ],
    λ (mv, covered). debit_covered w amount at v mv covered,
  )

  -- A debit of a valid wallet fails for lack of funds for just the movements that its balance does
  -- not cover.
  pub debit_refused_iff :
      (w : Wallet A) (amount : Money A) (at : ℕ)
      → IsValid w
      → (debit w amount at ≡ err insufficient_funds)
        ↔ (IsMovement w amount at × ¬ (cents amount ≤ℤ cents w.balance))
  debit_refused_iff w amount at v = (
    λ h.
        let mv = debit_refused-IsMovement w amount at h in
        (mv, λ covered. absurd (rw h at (debit_covered w amount at v mv covered))),
    λ (mv, short). debit_short w amount at v mv short,
  )
