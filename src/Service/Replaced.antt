-- ===== src/Service/Replaced.antt =====
-- internal/application/wager_service.go and wallet_service.go: what is kept when one row of
-- `wallets` is replaced or added together with its ledger entry.
use junglegaming_test.Base.{
  ℕ, ◌==◌, ◌≡◌, ◌≢◌, sym, ap, ◌∙◌, Option, none, some, List, ◌∷◌, arith, inl, inr, Bool-cases, ◌⊎◌,
}
use junglegaming_test.Decimal.{Decimal, DecimalLaws}
use junglegaming_test.Money.Laws.{cents}
use junglegaming_test.Wallet.{Wallet}
use junglegaming_test.Wallet.Invariant.{IsValid}
use junglegaming_test.LedgerEntry.{LedgerEntry}
use junglegaming_test.Store.{Store}
use junglegaming_test.Store.Ledger.{ledger_count}
use junglegaming_test.Store.Wallets.{put_wallet}
use junglegaming_test.Service.Moves.{signed_cents, ledger_total, IsReconciled}

put_wallet_parts :
    {A : Type 0} (wallets : ℕ → Option (Wallet A)) (key : ℕ) (m : Wallet A) (id : ℕ) {w : Wallet A}
    → put_wallet wallets key m id ≡ some w
    → ((id ≡ key) × (m ≡ w)) ⊎ ((id ≢ key) × (wallets id ≡ some w))
unfolding put_wallet
put_wallet_parts wallets key m id h = elim (Bool-cases (id == key)) [
  | inl own ↦ inl (ground arith, ground arith)
  | inr not_own ↦ inr (ground arith, ground arith)
]

put_wallet-none :
    {A : Type 0} (wallets : ℕ → Option (Wallet A)) (key : ℕ) (m : Wallet A) (id : ℕ)
    → put_wallet wallets key m id ≡ none
    → (id ≢ key) × (wallets id ≡ none)
unfolding put_wallet
put_wallet-none wallets key m id h = elim (Bool-cases (id == key)) [
  | inl own ↦ absurd (ground arith)
  | inr not_own ↦ (ground arith, ground arith)
]

module _ {A : Type 0} ⦃decimal : Decimal A⦄ ⦃laws : DecimalLaws A decimal⦄ where
  pub ledger_total_own :
      (e : LedgerEntry A) (es : List (LedgerEntry A)) (id : ℕ)
      → e.wallet_id ≡ id
      → ledger_total (e ∷ es) id ≡ signed_cents e.direction (cents e.amount) (ledger_total es id)
  unfolding ledger_total
  ledger_total_own e es id h = ground arith

  pub ledger_total_other :
      (e : LedgerEntry A) (es : List (LedgerEntry A)) (id : ℕ)
      → e.wallet_id ≢ id
      → ledger_total (e ∷ es) id ≡ ledger_total es id
  unfolding ledger_total
  ledger_total_other e es id h = ground arith

  ledger_count_other :
      (e : LedgerEntry A) (es : List (LedgerEntry A)) (id : ℕ)
      → e.wallet_id ≢ id
      → ledger_count (e ∷ es) id ≡ ledger_count es id
  unfolding ledger_count
  ledger_count_other e es id h = ground arith

  -- The row of one wallet is set, and its balance is the sum of its entries; the sums of the others
  -- stay.
  pub replaced-IsReconciled :
      (base s : Store A) (w : Wallet A)
      → IsReconciled base
      → IsValid w
      → s.wallets ≡ put_wallet base.wallets w.id w
      → ((id : ℕ) → id ≢ w.id → ledger_total s.ledger id ≡ ledger_total base.ledger id)
      → ((id : ℕ) → id ≢ w.id → ledger_count s.ledger id ≡ ledger_count base.ledger id)
      → cents w.balance ≡ ledger_total s.ledger w.id
      → IsReconciled s
  replaced-IsReconciled base s w r valid wallets others counts own = record {
    valid = λ id u h.
        elim (put_wallet_parts base.wallets w.id w id (ap (λ f. f id) (sym wallets) ∙ h)) [
          | inl (at, k) ↦ (rw (← k) valid, rw (← k) (sym at))
          | inr (not_at, k) ↦ r.valid id u k
        ];
    balanced = λ id u h.
        elim (put_wallet_parts base.wallets w.id w id (ap (λ f. f id) (sym wallets) ∙ h)) [
          | inl (at, k) ↦
              ap (λ x. cents x.balance) (sym k) ∙ own ∙ ap (ledger_total s.ledger) (sym at)
          | inr (not_at, k) ↦ r.balanced id u k ∙ sym (others id not_at)
        ];
    owned = λ id h.
        let (not_at, k) =
          put_wallet-none base.wallets w.id w id (ap (λ f. f id) (sym wallets) ∙ h) in
        counts id not_at ∙ r.owned id k;
  }

  -- The same, where the ledger has one more entry, that of the wallet.
  pub posted-IsReconciled :
      (base s : Store A) (w : Wallet A) (e : LedgerEntry A)
      → IsReconciled base
      → IsValid w
      → e.wallet_id ≡ w.id
      → cents w.balance ≡ signed_cents e.direction (cents e.amount) (ledger_total base.ledger w.id)
      → s.wallets ≡ put_wallet base.wallets w.id w
      → s.ledger ≡ e ∷ base.ledger
      → IsReconciled s
  posted-IsReconciled base s w e r valid named sum wallets ledger =
      replaced-IsReconciled base s w r valid wallets
        (λ id not_own.
          ap (λ l. ledger_total l id) ledger
          ∙ ledger_total_other e base.ledger id (λ x. not_own (sym x ∙ named)))
        (λ id not_own.
          ap (λ l. ledger_count l id) ledger
          ∙ ledger_count_other e base.ledger id (λ x. not_own (sym x ∙ named)))
        (sum
          ∙ sym (ledger_total_own e base.ledger w.id named)
          ∙ ap (λ l. ledger_total l w.id) (sym ledger))

  -- A movement of a wallet and its entry.
  pub moved-IsReconciled :
      (s s' : Store A) (wallet m : Wallet A) (e : LedgerEntry A)
      → IsReconciled s
      → s.wallets wallet.id ≡ some wallet
      → IsValid m
      → m.id ≡ wallet.id
      → e.wallet_id ≡ wallet.id
      → cents m.balance ≡ signed_cents e.direction (cents e.amount) (cents wallet.balance)
      → s'.wallets ≡ put_wallet s.wallets wallet.id m
      → s'.ledger ≡ e ∷ s.ledger
      → IsReconciled s'
  moved-IsReconciled s s' wallet m e r locked v same named sum wallets ledger =
      posted-IsReconciled s s' m e r v (named ∙ sym same)
        (sum
          ∙ ap (signed_cents e.direction (cents e.amount))
              (r.balanced wallet.id wallet locked ∙ ap (ledger_total s.ledger) (sym same)))
        (wallets ∙ ap (λ k. put_wallet s.wallets k m) (sym same)) ledger
