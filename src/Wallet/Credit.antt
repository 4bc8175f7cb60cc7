-- ===== src/Wallet/Credit.antt =====
-- internal/domain/wallet.go: `Credit`.
use junglegaming_test.Base.{ℕ, ◌≤◌, ◌≡◌, ◌≢◌, ◌↔◌, inl, inr, ok, IsOk, arith, Result-cases}
use junglegaming_test.Base.Int.{ℤ, pos, abs, ◌+ℤ◌, ◌≤ℤ◌, max_int64, int_laws}
use junglegaming_test.Decimal.{Decimal, DecimalLaws}
use junglegaming_test.Money
use junglegaming_test.Money.{Money}
use junglegaming_test.Money.Laws.{cents, max_cents, add-cents, add-IsOk_iff}
use junglegaming_test.Wallet.Invariant.{
  IsValid, IsMovement, IsMoved, validate_movement_iff, apply_balance-IsMoved,
}
use junglegaming_test.Wallet.{Wallet, apply_balance, credit}

sum_within : (a b : ℤ) → abs (a +ℤ b) ≤ max_cents → a +ℤ b ≤ℤ pos max_cents
sum_within a b h = omega int_laws

-- A sum of amounts from 0 on is no further from 0 than it is large.
within_sum :
    (a b : ℤ) → pos 0 ≤ℤ a → pos 1 ≤ℤ b → a +ℤ b ≤ℤ pos max_cents → abs (a +ℤ b) ≤ max_cents
unfolding ◌+ℤ◌
within_sum a b ha hb h = ground arith

module _ {A : Type 0} ⦃decimal : Decimal A⦄ ⦃laws : DecimalLaws A decimal⦄ where
  pub credit_parts :
      (w : Wallet A) (amount : Money A) (at : ℕ) {w' : Wallet A}
      → credit w amount at ≡ ok w'
      → (b : Money A) × IsMovement w amount at
        × (Money.add w.balance amount ≡ ok b)
        × (w' ≡ apply_balance w b at)
  unfolding credit
  credit_parts w amount at h = elim (Result-cases (Money.add w.balance amount)) [
    | inl (b, e) ↦ (b, ground (arith, validate_movement_iff w amount at), e, ground arith)
    | inr (x, e) ↦ absurd (ground arith)
  ]

  -- A successful credit of a valid wallet whose version is not the greatest int64 was a movement,
  -- and gives a valid wallet with the amount added, the next version and the time of the movement;
  -- the currency, the identifiers and the creation time stay.
  pub credit-IsMoved :
      (w : Wallet A) (amount : Money A) (at : ℕ) {w' : Wallet A}
      → IsValid w
      → w.version ≢ max_int64
      → credit w amount at ≡ ok w'
      → IsMovement w amount at × IsMoved w w' (cents w.balance +ℤ cents amount) at
  credit-IsMoved w amount at {w'} v room h =
      let (b, mv, sum, e) = credit_parts w amount at h in
      let (valid, same, total) = add-cents w.balance amount sum in
      let moved =
        apply_balance-IsMoved w b at v room valid (rw total (omega int_laws)) same
          mv.not_backwards in
      (mv, rw (e, ← total) moved)

  -- A credit of a valid wallet succeeds for just the movements that stay within the limit.
  pub credit-IsOk_iff :
      (w : Wallet A) (amount : Money A) (at : ℕ)
      → IsValid w
      → IsOk (credit w amount at)
        ↔ (IsMovement w amount at × (cents w.balance +ℤ cents amount ≤ℤ pos max_cents))
  unfolding credit
  credit-IsOk_iff w amount at v = (
    λ h. ground (
      arith,
      validate_movement_iff w amount at,
      add-IsOk_iff w.balance amount,
      sum_within (cents w.balance) (cents amount),
    ),
    λ (mv, fits).
        let room : IsOk (Money.add w.balance amount) = (add-IsOk_iff w.balance amount).1 (
          v.balance_valid,
          mv.amount_valid,
          mv.same_currency,
          within_sum (cents w.balance) (cents amount) v.balance_nonneg mv.amount_positive fits,
        ) in
        ground (arith, validate_movement_iff w amount at, room),
  )
