-- ===== src/Service/Answers.antt =====
-- internal/application/wager_service.go: `Process` moves money only for the answer that it gives.
use junglegaming_test.Base.{
  ℕ, ◌⊎◌, inl, inr, str_eq, refl, Option, none, some, Result, ok, err, arith, ◌≡◌,
}
use junglegaming_test.Decimal.{Decimal}
use junglegaming_test.Errors.{DomainError, insufficient_funds}
use junglegaming_test.Wallet.{Wallet}
use junglegaming_test.LedgerEntry.{Direction}
use junglegaming_test.Wager.Kinds.{requires_reference}
use junglegaming_test.Wager.State.{WagerTransaction}
use junglegaming_test.Backoff.{ReferenceRetryPolicy}
use junglegaming_test.Store.Events.{CommandMetadata}
use junglegaming_test.Store.{Store, Environment, Action, raise_if}
use junglegaming_test.Store.Wallets.{find_wallet_for_update, wallet_row, scan_wallet}
use junglegaming_test.Store.Frame.{
  SameMoney, SameMoney-trans, KeepsMoney, bind-KeepsMoney, lift-KeepsMoney, pure-KeepsMoney,
  raise_if-KeepsMoney, statement-KeepsMoney, clock_now-KeepsMoney, new_uuid-KeepsMoney,
  create_wager-KeepsMoney, has_processed_reversal-KeepsMoney,
}
use junglegaming_test.Store.Ensures.{Ensures, bind-Ensures, keeps-Ensures, if-Ensures}
use junglegaming_test.Service.{
  ProcessResult, ReferenceOutcome, available, unavailable, refused, owned_wallet, lock_wallet,
  after_movement, apply_movement, settle_reversal, settle,
}
use junglegaming_test.Service.Process.{
  WagerRequest, process_outcome, process_referring, process_new, process_inserted, process,
}
use junglegaming_test.Service.Frame.{
  resolve-KeepsMoney, reject-KeepsMoney, wait_for_reference-KeepsMoney,
  process_without_movement-KeepsMoney, resolve_existing-KeepsMoney,
}
use junglegaming_test.Service.Posting.{IsPosted, record_movement-IsPosted}

module _ {A : Type 0} where
  -- Either one entry was posted for the answer, or no wallet and no entry changed.
  abbrev pub IsAnswered : Store A → ProcessResult A → Store A → Type 0
  IsAnswered base r s = IsPosted base r s ⊎ SameMoney base s

  same_stays : (base s s' : Store A) → SameMoney s s' → SameMoney base s → SameMoney base s'
  same_stays base s s' k p = SameMoney-trans p k

  still :
      (base : Store A) (m : Action A (ProcessResult A))
      → KeepsMoney m
      → Ensures (SameMoney base) m (IsAnswered base)
  still base m k s x s' p h = inr (SameMoney-trans p (k s x s' h))

  scan_wallet-KeepsMoney :
      ⦃decimal : Decimal A⦄ (row : Option (Wallet A)) → KeepsMoney (scan_wallet row)
  unfolding scan_wallet
  scan_wallet-KeepsMoney none s x s' h = ground arith
  scan_wallet-KeepsMoney (some w) s x s' h =
      bind-KeepsMoney _ _ (lift-KeepsMoney A _) (λ v. pure-KeepsMoney A (some v)) s x s' h

  wallet_row-KeepsMoney : (id : ℕ) → KeepsMoney {A = A} (wallet_row id)
  unfolding wallet_row
  wallet_row-KeepsMoney id s x s' h = ground arith

  owned_wallet-KeepsMoney :
      ⦃decimal : Decimal A⦄ (w : WagerTransaction A) (row : Option (Wallet A))
      → KeepsMoney (owned_wallet w row)
  unfolding owned_wallet raise_if
  owned_wallet-KeepsMoney w none s x s' h = absurd (ground arith)
  owned_wallet-KeepsMoney w (some v) s x s' h = ground arith

module _ {A : Type 0} ⦃decimal : Decimal A⦄ ⦃env : Environment⦄ where
  lock_wallet-KeepsMoney : (w : WagerTransaction A) → KeepsMoney (lock_wallet w)
  unfolding lock_wallet find_wallet_for_update
  lock_wallet-KeepsMoney w =
      bind-KeepsMoney _ _
        (bind-KeepsMoney _ _ (statement-KeepsMoney A)
          (λ _. bind-KeepsMoney _ _ (wallet_row-KeepsMoney _) (λ row. scan_wallet-KeepsMoney row)))
        (λ row. owned_wallet-KeepsMoney w row)

  after_movement-IsAnswered :
      (base : Store A) (d : Direction) (wallet : Wallet A) (w : WagerTransaction A)
      (metadata : CommandMetadata) (now : ℕ) (r : Result DomainError (Wallet A))
      → Ensures (SameMoney base) (after_movement d wallet w metadata now r) (IsAnswered base)
  unfolding after_movement
  after_movement-IsAnswered base d wallet w metadata now (ok m) =
      λ s x s' p h. inl (record_movement-IsPosted base d wallet m w metadata now s x s' p h)
  after_movement-IsAnswered base d wallet w metadata now (err insufficient_funds) =
      still base _ (reject-KeepsMoney w _ metadata now)
  after_movement-IsAnswered base d wallet w metadata now (err _) = λ s x s' p h. ground arith

  apply_movement-IsAnswered :
      (base : Store A) (wallet : Wallet A) (w : WagerTransaction A) (metadata : CommandMetadata)
      (now : ℕ)
      → Ensures (SameMoney base) (apply_movement wallet w metadata now) (IsAnswered base)
  unfolding apply_movement
  apply_movement-IsAnswered base wallet w metadata now =
      bind-Ensures _ _ _ _ _ (keeps-Ensures (same_stays base) (lift-KeepsMoney A _)) (λ m.
        if-Ensures m.1 _ _ (after_movement-IsAnswered base m.0 wallet w metadata now _)
          (still base _ (process_without_movement-KeepsMoney wallet w metadata now)))

  settle-IsAnswered :
      (base : Store A) (wallet : Wallet A) (w : WagerTransaction A) (metadata : CommandMetadata)
      (now : ℕ)
      → Ensures (SameMoney base) (settle wallet w metadata now) (IsAnswered base)
  unfolding settle settle_reversal
  settle-IsAnswered base wallet w metadata now =
      if-Ensures (requires_reference w.transaction_type) _ _
        (bind-Ensures _ _ _ _ _
          (keeps-Ensures (same_stays base) (has_processed_reversal-KeepsMoney _))
          (λ duplicate.
            if-Ensures duplicate _ _ (still base _ (reject-KeepsMoney w _ metadata now))
              (apply_movement-IsAnswered base wallet w metadata now)))
        (apply_movement-IsAnswered base wallet w metadata now)

  process_outcome-IsAnswered :
      (base : Store A) (policy : ReferenceRetryPolicy) (wallet : Wallet A) (w : WagerTransaction A)
      (metadata : CommandMetadata) (now : ℕ) (o : ReferenceOutcome A)
      → Ensures (SameMoney base) (process_outcome policy wallet w metadata now o) (IsAnswered base)
  unfolding process_outcome
  process_outcome-IsAnswered base policy wallet w metadata now (available resolved) =
      settle-IsAnswered base wallet resolved metadata now
  process_outcome-IsAnswered base policy wallet w metadata now unavailable =
      still base _ (wait_for_reference-KeepsMoney policy w metadata now)
  process_outcome-IsAnswered base policy wallet w metadata now (refused rejection) =
      still base _ (reject-KeepsMoney w rejection metadata now)

  process_new-IsAnswered :
      (base : Store A) (policy : ReferenceRetryPolicy) (wallet : Wallet A) (w : WagerTransaction A)
      (metadata : CommandMetadata) (now : ℕ)
      → Ensures (SameMoney base) (process_new policy wallet w metadata now) (IsAnswered base)
  unfolding process_new process_referring
  process_new-IsAnswered base policy wallet w metadata now =
      if-Ensures (str_eq w.reference_external_transaction_id "") _ _
        (settle-IsAnswered base wallet w metadata now)
        (bind-Ensures _ _ _ _ _ (keeps-Ensures (same_stays base) (resolve-KeepsMoney w now))
          (λ o. process_outcome-IsAnswered base policy wallet w metadata now o))

  process_steps :
      (base : Store A) (policy : ReferenceRetryPolicy) (r : WagerRequest A)
      (metadata : CommandMetadata)
      → Ensures (SameMoney base) (process policy r metadata) (IsAnswered base)
  unfolding process process_inserted
  process_steps base policy r metadata =
      let keeps = same_stays base in
      bind-Ensures _ _ _ _ _ (keeps-Ensures keeps (raise_if-KeepsMoney A _ _)) (λ _.
        bind-Ensures _ _ _ _ _ (keeps-Ensures keeps (clock_now-KeepsMoney A)) (λ at.
          bind-Ensures _ _ _ _ _ (keeps-Ensures keeps (new_uuid-KeepsMoney A)) (λ id.
            bind-Ensures _ _ _ _ _ (keeps-Ensures keeps (lift-KeepsMoney A _)) (λ w.
              bind-Ensures _ _ _ _ _ (keeps-Ensures keeps (create_wager-KeepsMoney w)) (λ inserted.
                if-Ensures inserted _ _
                  (bind-Ensures _ _ _ _ _ (keeps-Ensures keeps (lock_wallet-KeepsMoney w))
                    (λ wallet.
                      bind-Ensures _ _ _ _ _ (keeps-Ensures keeps (clock_now-KeepsMoney A))
                        (λ now. process_new-IsAnswered base policy wallet w metadata now)))
                  (still base _ (resolve_existing-KeepsMoney r)))))))

  -- A call of `Process` that succeeds either leaves every wallet and the ledger as they were, or
  -- answers with a new processed transaction and adds to the ledger one entry: that of the
  -- transaction, with its amount and the two balances of the answer.
  pub process-IsAnswered :
      (policy : ReferenceRetryPolicy) (r : WagerRequest A) (metadata : CommandMetadata)
      (s s' : Store A) (x : ProcessResult A)
      → process policy r metadata s ≡ ok (x, s')
      → IsPosted s x s' ⊎ SameMoney s s'
  process-IsAnswered policy r metadata s s' x h =
      process_steps s policy r metadata s x s' (record { same_wallets = refl; same_ledger = refl })
        h
