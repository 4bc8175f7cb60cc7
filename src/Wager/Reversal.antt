-- ===== src/Wager/Reversal.antt =====
-- internal/domain/wager_transaction.go: the movement of a reversal against that of the transaction
-- it refers to, and that a transaction ready to be processed has a movement.
use junglegaming_test.Base.{ℕ, ◌≡◌, refl, true, ok, IsOk, arith, inl, inr, eq_iff}
use junglegaming_test.Decimal.{Decimal, DecimalLaws}
use junglegaming_test.Money
use junglegaming_test.Money.Laws.{cents, equal-cents}
use junglegaming_test.LedgerEntry.{Direction, debit, credit, other}
use junglegaming_test.Wager.Kinds.{
  WagerType, bet, win, refund, rollback, equal_type, is_external, requires_reference,
  is_allowed_reference_type,
}
use junglegaming_test.Wager.State.{WagerTransaction, movement_direction, direction_of}
use junglegaming_test.Wager.Reference.{
  resolve_reference, validate_reference, validate_reference_ready,
}
use junglegaming_test.Wager.Stored.{IsStorable}
use junglegaming_test.Wager.Keeps.{resolve_reference_parts}

abbrev pub opposite : Direction → Direction
opposite debit = credit
opposite credit = debit
opposite (other s) = other s

pub equal_type→≡ : (a b : WagerType) → equal_type a b ≡ true → a ≡ b
unfolding equal_type
equal_type→≡ (WagerType.unknown s) (WagerType.unknown t) h = ground (arith, eq_iff s t)
equal_type→≡ a b h = ground arith

-- A refund or a rollback moves against the transaction of an allowed type that it refers to.
direction_opposes :
    (t r s : WagerType)
    → requires_reference t ≡ true
    → is_allowed_reference_type t r ≡ true
    → (d : Direction) × (direction_of r s ≡ ok (d, true))
      × (direction_of t r ≡ ok (opposite d, true))
unfolding requires_reference is_allowed_reference_type direction_of
direction_opposes refund bet s h k = (debit, refl, refl)
direction_opposes rollback bet s h k = (debit, refl, refl)
direction_opposes rollback win s h k = (credit, refl, refl)
direction_opposes rollback refund s h k = (credit, refl, refl)
direction_opposes _ _ s h k = cc

module _ {A : Type 0} ⦃decimal : Decimal A⦄ ⦃laws : DecimalLaws A decimal⦄ where
  reference_facts :
      (w reference : WagerTransaction A)
      → requires_reference w.transaction_type ≡ true
      → validate_reference w reference ≡ ok tt
      → (is_allowed_reference_type w.transaction_type reference.transaction_type ≡ true)
        × (Money.equal w.amount reference.amount ≡ true)
        × (w.wallet_id ≡ reference.wallet_id)
  unfolding validate_reference
  reference_facts w reference required h = ground arith

  resolved_kinds :
      (w reference : WagerTransaction A) (at : ℕ) {w' : WagerTransaction A}
      → resolve_reference w reference at ≡ ok w'
      → (w'.transaction_type ≡ w.transaction_type)
        × (w'.reference_transaction_type ≡ reference.transaction_type)
  resolved_kinds w reference at h = elim (resolve_reference_parts w reference at h).0 [
    | inl (same, _, _, kind) ↦ rw same (refl, equal_type→≡ _ _ kind)
    | inr (moved, _, _, _) ↦ rw moved (refl, refl)
  ]

  -- A refund or a rollback that `ResolveReference` accepts has the amount, the currency and the
  -- wallet of the transaction it refers to, and the opposite direction of movement.
  pub resolved_reversal :
      (w reference : WagerTransaction A) (at : ℕ) {w' : WagerTransaction A}
      → requires_reference w.transaction_type ≡ true
      → resolve_reference w reference at ≡ ok w'
      → (d : Direction) × (movement_direction reference ≡ ok (d, true))
        × (movement_direction w' ≡ ok (opposite d, true))
        × (cents w.amount ≡ cents reference.amount)
        × (w.amount.currency.code ≡ reference.amount.currency.code)
        × (w.wallet_id ≡ reference.wallet_id)
  unfolding movement_direction
  resolved_reversal w reference at {w'} required h =
      let valid = (resolve_reference_parts w reference at h).1 in
      let (allowed, equal, wallet) = reference_facts w reference required valid in
      let (kind, kind') = resolved_kinds w reference at h in
      let (d, e, e') =
        direction_opposes w.transaction_type reference.transaction_type
          reference.reference_transaction_type required allowed in
      let (code, amount) = (equal-cents w.amount reference.amount).0 equal in
      (d, e, rw (kind, kind') e', amount, code, wallet)

direction_defined :
    (t r : WagerType)
    → is_external t ≡ true
    → (requires_reference t ≡ true → is_allowed_reference_type t r ≡ true)
    → IsOk (direction_of t r)
unfolding is_external direction_of requires_reference is_allowed_reference_type
direction_defined t r e h = ground arith

-- For a storable provider transaction that passes `validateReferenceReady`, `MovementDirection`
-- gives no error.
pub movement_direction_ok :
    {A : Type 0} ⦃decimal : Decimal A⦄ (w : WagerTransaction A)
    → IsStorable w
    → validate_reference_ready w ≡ ok tt
    → IsOk (movement_direction w)
unfolding movement_direction validate_reference_ready
movement_direction_ok w s ready =
    direction_defined w.transaction_type w.reference_transaction_type s.from_provider
      (λ required. ground arith)
