-- ===== src/Service/Balance.antt =====
-- internal/application/wager_service.go: whatever `Process` does, each balance stays the sum of the
-- wallet's ledger entries.
use junglegaming_test.Base.{
  ℕ, ◌≡◌, refl, sym, ap, ◌∙◌, Option, none, some, Result, ok, err, arith, str_eq,
}
use mathlib.Core.Path.{subst}
use junglegaming_test.Decimal.{Decimal, DecimalLaws}
use junglegaming_test.Errors.{DomainError, insufficient_funds}
use junglegaming_test.Wallet.{Wallet}
use junglegaming_test.Wallet.Invariant.{rehydrate_wallet_self}
use junglegaming_test.LedgerEntry.{Direction}
use junglegaming_test.Wager.Kinds.{requires_reference}
use junglegaming_test.Wager.State.{WagerTransaction}
use junglegaming_test.Backoff.{ReferenceRetryPolicy}
use junglegaming_test.Store.Events.{CommandMetadata}
use junglegaming_test.Store.{Environment, Action, lift, raise_if}
use junglegaming_test.Store.Wallets.{wallet_row, scan_wallet, find_wallet_for_update}
use junglegaming_test.Store.Frame.{
  KeepsMoney, lift-KeepsMoney, raise_if-KeepsMoney, statement-KeepsMoney, clock_now-KeepsMoney,
  new_uuid-KeepsMoney, create_wager-KeepsMoney, has_processed_reversal-KeepsMoney,
}
use junglegaming_test.Store.Ensures.{Ensures, bind-Ensures, keeps-Ensures, if-Ensures}
use junglegaming_test.Service.{
  ReferenceOutcome, available, unavailable, refused, move_wallet, owned_wallet, lock_wallet,
  after_movement, apply_movement, settle_reversal, settle,
}
use junglegaming_test.Service.Process.{
  WagerRequest, process_outcome, process_referring, process_new, process_inserted, process,
}
use junglegaming_test.Service.Frame.{
  resolve-KeepsMoney, reject-KeepsMoney, wait_for_reference-KeepsMoney,
  process_without_movement-KeepsMoney, resolve_existing-KeepsMoney,
}
use junglegaming_test.Service.Moves.{IsReconciled}
use junglegaming_test.Service.Reconciled.{
  some_inj, IsLocked, SameMoney-IsLocked, SameMoney-IsReconciled, record_movement-IsReconciled,
}

module _ {A : Type 0} ⦃decimal : Decimal A⦄ ⦃laws : DecimalLaws A decimal⦄ where
  -- An action that moves no money, on a locked wallet.
  pub locked_keeps :
      {X : Type 0} (wallet : Wallet A) (m : Action A X)
      → KeepsMoney m
      → Ensures (IsLocked wallet) m (λ _. IsReconciled)
  locked_keeps wallet m k s x s' l h = SameMoney-IsReconciled s s' (k s x s' h) l.reconciled

  wallet_row-found :
      (id : ℕ)
      → Ensures {A = A} IsReconciled
          (wallet_row id)
          (λ row s. IsReconciled s × (s.wallets id ≡ row))
  unfolding wallet_row
  wallet_row-found id s row s' r h =
      let same : s ≡ s' = ground arith in
      (subst IsReconciled same r, ap (λ k. k.wallets id) (sym same) ∙ ground arith)

  scan_wallet-locked :
      (id : ℕ) (row : Option (Wallet A))
      → Ensures
          (λ s. IsReconciled s × (s.wallets id ≡ row))
          (scan_wallet row)
          (λ o s. IsReconciled s × ((w : Wallet A) → o ≡ some w → IsLocked w s))
  unfolding scan_wallet lift
  scan_wallet-locked id none s o s' (r, e) h =
      let same : s ≡ s' = ground arith in
      let nothing : o ≡ none = ground arith in
      (subst IsReconciled same r, λ w found. absurd (ground arith))
  scan_wallet-locked id (some row) s o s' (r, e) h =
      let (valid, named) = r.valid id row e in
      let read = rehydrate_wallet_self row valid in
      let (same, found) : (s ≡ s') × (o ≡ some row) = ground arith in
      let locked : IsLocked row s = record { reconciled = r; locked = ap s.wallets named ∙ e } in
      (
        subst IsReconciled same r,
        λ w k.
            subst (λ v. IsLocked v s') (some_inj (sym found ∙ k))
              (subst (IsLocked row) same locked),
      )

  owned_wallet-locked :
      (w : WagerTransaction A) (row : Option (Wallet A))
      → Ensures
          (λ s. IsReconciled s × ((v : Wallet A) → row ≡ some v → IsLocked v s))
          (owned_wallet w row)
          (λ wallet. IsLocked wallet)
  unfolding owned_wallet raise_if
  owned_wallet-locked w none s x s' (r, l) h = absurd (ground arith)
  owned_wallet-locked w (some v) s x s' (r, l) h =
      let (same, found) : (s ≡ s') × (v ≡ x) = ground arith in
      subst (λ k. IsLocked k s') found (subst (IsLocked v) same (l v refl))

module _ {A : Type 0} ⦃decimal : Decimal A⦄ ⦃laws : DecimalLaws A decimal⦄ ⦃env : Environment⦄ where
  after_movement-IsReconciled :
      (d : Direction) (wallet : Wallet A) (w : WagerTransaction A) (metadata : CommandMetadata)
      (now : ℕ) (r : Result DomainError (Wallet A))
      → move_wallet d wallet w.amount now ≡ r
      → Ensures (IsLocked wallet) (after_movement d wallet w metadata now r) (λ _. IsReconciled)
  unfolding after_movement
  after_movement-IsReconciled d wallet w metadata now (ok m) e =
      record_movement-IsReconciled d wallet m w metadata now e
  after_movement-IsReconciled d wallet w metadata now (err insufficient_funds) e =
      locked_keeps wallet _ (reject-KeepsMoney w _ metadata now)
  after_movement-IsReconciled d wallet w metadata now (err _) e = λ s x s' l h. ground arith

  apply_movement-IsReconciled :
      (wallet : Wallet A) (w : WagerTransaction A) (metadata : CommandMetadata) (now : ℕ)
      → Ensures (IsLocked wallet) (apply_movement wallet w metadata now) (λ _. IsReconciled)
  unfolding apply_movement
  apply_movement-IsReconciled wallet w metadata now =
      bind-Ensures _ _ _ _ _ (keeps-Ensures (SameMoney-IsLocked wallet) (lift-KeepsMoney A _)) (λ m.
        if-Ensures m.1 _ _ (after_movement-IsReconciled m.0 wallet w metadata now _ refl)
          (locked_keeps wallet _ (process_without_movement-KeepsMoney wallet w metadata now)))

  settle_reversal-IsReconciled :
      (wallet : Wallet A) (w : WagerTransaction A) (metadata : CommandMetadata) (now : ℕ)
      → Ensures (IsLocked wallet) (settle_reversal wallet w metadata now) (λ _. IsReconciled)
  unfolding settle_reversal
  settle_reversal-IsReconciled wallet w metadata now =
      bind-Ensures _ _ _ _ _
        (keeps-Ensures (SameMoney-IsLocked wallet) (has_processed_reversal-KeepsMoney _))
        (λ duplicate.
          if-Ensures duplicate _ _ (locked_keeps wallet _ (reject-KeepsMoney w _ metadata now))
            (apply_movement-IsReconciled wallet w metadata now))

  pub settle-IsReconciled :
      (wallet : Wallet A) (w : WagerTransaction A) (metadata : CommandMetadata) (now : ℕ)
      → Ensures (IsLocked wallet) (settle wallet w metadata now) (λ _. IsReconciled)
  unfolding settle
  settle-IsReconciled wallet w metadata now =
      if-Ensures (requires_reference w.transaction_type) _ _
        (settle_reversal-IsReconciled wallet w metadata now)
        (apply_movement-IsReconciled wallet w metadata now)

  process_outcome-IsReconciled :
      (policy : ReferenceRetryPolicy) (wallet : Wallet A) (w : WagerTransaction A)
      (metadata : CommandMetadata) (now : ℕ) (o : ReferenceOutcome A)
      → Ensures
          (IsLocked wallet)
          (process_outcome policy wallet w metadata now o)
          (λ _. IsReconciled)
  unfolding process_outcome
  process_outcome-IsReconciled policy wallet w metadata now (available resolved) =
      settle-IsReconciled wallet resolved metadata now
  process_outcome-IsReconciled policy wallet w metadata now unavailable =
      locked_keeps wallet _ (wait_for_reference-KeepsMoney policy w metadata now)
  process_outcome-IsReconciled policy wallet w metadata now (refused rejection) =
      locked_keeps wallet _ (reject-KeepsMoney w rejection metadata now)

  process_new-IsReconciled :
      (policy : ReferenceRetryPolicy) (wallet : Wallet A) (w : WagerTransaction A)
      (metadata : CommandMetadata) (now : ℕ)
      → Ensures (IsLocked wallet) (process_new policy wallet w metadata now) (λ _. IsReconciled)
  unfolding process_new process_referring
  process_new-IsReconciled policy wallet w metadata now =
      if-Ensures (str_eq w.reference_external_transaction_id "") _ _
        (settle-IsReconciled wallet w metadata now)
        (bind-Ensures _ _ _ _ _
          (keeps-Ensures (SameMoney-IsLocked wallet) (resolve-KeepsMoney w now))
          (λ o. process_outcome-IsReconciled policy wallet w metadata now o))

  pub lock_wallet-IsLocked :
      (w : WagerTransaction A) → Ensures IsReconciled (lock_wallet w) (λ wallet. IsLocked wallet)
  unfolding lock_wallet find_wallet_for_update
  lock_wallet-IsLocked w =
      bind-Ensures _ _ _ _ _
        (bind-Ensures _ _ _ _ _ (keeps-Ensures SameMoney-IsReconciled (statement-KeepsMoney A))
          (λ _.
            bind-Ensures _ _ _ _ _ (wallet_row-found w.wallet_id)
              (λ row. scan_wallet-locked w.wallet_id row)))
        (λ row. owned_wallet-locked w row)

  process_inserted-IsReconciled :
      (policy : ReferenceRetryPolicy) (w : WagerTransaction A) (metadata : CommandMetadata)
      → Ensures IsReconciled (process_inserted policy w metadata) (λ _. IsReconciled)
  unfolding process_inserted
  process_inserted-IsReconciled policy w metadata =
      bind-Ensures _ _ _ _ _ (lock_wallet-IsLocked w) (λ wallet.
        bind-Ensures _ _ _ _ _ (keeps-Ensures (SameMoney-IsLocked wallet) (clock_now-KeepsMoney A))
          (λ now. process_new-IsReconciled policy wallet w metadata now))

  pub process-IsReconciled :
      (policy : ReferenceRetryPolicy) (r : WagerRequest A) (metadata : CommandMetadata)
      → Ensures IsReconciled (process policy r metadata) (λ _. IsReconciled)
  unfolding process
  process-IsReconciled policy r metadata =
      bind-Ensures _ _ _ _ _ (keeps-Ensures SameMoney-IsReconciled (raise_if-KeepsMoney A _ _))
        (λ _.
          bind-Ensures _ _ _ _ _ (keeps-Ensures SameMoney-IsReconciled (clock_now-KeepsMoney A))
            (λ at.
              bind-Ensures _ _ _ _ _ (keeps-Ensures SameMoney-IsReconciled (new_uuid-KeepsMoney A))
                (λ id.
                  bind-Ensures _ _ _ _ _
                    (keeps-Ensures SameMoney-IsReconciled (lift-KeepsMoney A _))
                    (λ w.
                      bind-Ensures _ _ _ _ _
                        (keeps-Ensures SameMoney-IsReconciled (create_wager-KeepsMoney w))
                        (λ inserted.
                          if-Ensures inserted _ _ (process_inserted-IsReconciled policy w metadata)
                            (keeps-Ensures SameMoney-IsReconciled
                              (resolve_existing-KeepsMoney r)))))))
