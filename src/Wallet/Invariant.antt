-- ===== src/Wallet/Invariant.antt =====
-- internal/domain/wallet.go: the invariant of a wallet, what a movement needs and does.
use junglegaming_test.Base.{ℕ, ◌+◌, ◌≤◌, ◌≡◌, ◌≢◌, ◌↔◌, true, ok, arith, eq_iff}
use junglegaming_test.Base.Int.{ℤ, pos, ◌≤ℤ◌, max_int64}
use junglegaming_test.Decimal.{Decimal, DecimalLaws}
use junglegaming_test.Currency
use junglegaming_test.Money
use junglegaming_test.Money.{Money}
use junglegaming_test.Money.Laws.{cents, is_negative-cents, is_positive-cents}
use junglegaming_test.Wallet.{
  Wallet, apply_balance, new_wallet, rehydrate_wallet, validate_movement,
}

module _ {A : Type 0} ⦃decimal : Decimal A⦄ ⦃laws : DecimalLaws A decimal⦄ where
  -- What every stored wallet satisfies.
  pub record IsValid (w : Wallet A) : Type 0 where
    pub has_id : 1 ≤ w.id
    pub has_player : 1 ≤ w.player_id
    pub balance_valid : Money.is_valid w.balance ≡ true
    pub balance_nonneg : pos 0 ≤ℤ cents w.balance
    pub version_positive : 1 ≤ w.version
    pub version_bounded : w.version ≤ max_int64
    pub has_created_at : 1 ≤ w.created_at
    pub updated_after : w.created_at ≤ w.updated_at

  -- What `validateMovement` lets through.
  pub record IsMovement (w : Wallet A) (amount : Money A) (at : ℕ) : Type 0 where
    pub amount_valid : Money.is_valid amount ≡ true
    pub amount_positive : pos 1 ≤ℤ cents amount
    pub same_currency : w.balance.currency.code ≡ amount.currency.code
    pub has_time : 1 ≤ at
    pub not_backwards : w.updated_at ≤ at

  pub validate_movement_iff :
      (w : Wallet A) (amount : Money A) (at : ℕ)
      → (validate_movement w amount at ≡ ok tt) ↔ IsMovement w amount at
  unfolding validate_movement Currency.equal
  validate_movement_iff w amount at =
      ground (arith, is_positive-cents amount, eq_iff w.balance.currency.code amount.currency.code)

  -- A wallet that `NewWallet` makes is valid, with the given balance and version 1.
  pub new_wallet-IsValid :
      (id player at : ℕ) (balance : Money A) {w : Wallet A}
      → new_wallet id player balance at ≡ ok w
      → IsValid w × (w.balance ≡ balance) × (w.version ≡ 1)
  unfolding new_wallet
  new_wallet-IsValid id player at balance h = ground (arith, is_negative-cents balance)

  -- `RehydrateWallet` accepts the fields of a valid wallet.
  pub rehydrate_wallet_self :
      (w : Wallet A)
      → IsValid w
      → rehydrate_wallet w.id w.player_id w.balance w.version w.created_at w.updated_at ≡ ok w
  unfolding rehydrate_wallet
  rehydrate_wallet_self w v = ground (arith, is_negative-cents w.balance)

  pub rehydrate_wallet-IsValid :
      (id player version created updated : ℕ) (balance : Money A) {w : Wallet A}
      → version ≤ 18446744073709551615
      → rehydrate_wallet id player balance version created updated ≡ ok w
      → IsValid w
  unfolding rehydrate_wallet
  rehydrate_wallet-IsValid id player version created updated balance size h =
      ground (arith, is_negative-cents balance)

  -- A movement of wallet `w` at an instant that leaves `total` cents: nothing else changes.
  pub record IsMoved (w : Wallet A) (w' : Wallet A) (total : ℤ) (at : ℕ) : Type 0 where
    pub still_valid : IsValid w'
    pub total_cents : cents w'.balance ≡ total
    pub kept_currency : w'.balance.currency ≡ w.balance.currency
    pub next_version : w'.version ≡ w.version + 1
    pub moved_at : w'.updated_at ≡ at
    pub kept_id : w'.id ≡ w.id
    pub kept_player : w'.player_id ≡ w.player_id
    pub kept_created_at : w'.created_at ≡ w.created_at

  pub apply_balance-IsMoved :
      (w : Wallet A) (b : Money A) (at : ℕ)
      → IsValid w
      → w.version ≢ max_int64
      → Money.is_valid b ≡ true
      → pos 0 ≤ℤ cents b
      → b.currency ≡ w.balance.currency
      → w.updated_at ≤ at
      → IsMoved w (apply_balance w b at) (cents b) at
  unfolding apply_balance
  apply_balance-IsMoved w b at v room valid nonneg same later = ground arith
