-- ===== src/Service/Posting.antt =====
-- internal/application/wager_service.go: what a movement writes to the ledger.
use junglegaming_test.Base.{ℕ, ◌≡◌, false, some, List, ◌∷◌, ok, refl, ap, ◌∙◌, arith, Result}
use mathlib.Core.Path.{subst}
use junglegaming_test.Decimal.{Decimal}
use junglegaming_test.Errors.{DomainError}
use junglegaming_test.Money.{Money}
use junglegaming_test.Wallet.{Wallet}
use junglegaming_test.LedgerEntry.{Direction, LedgerEntry, new_ledger_entry, build_ledger_entry}
use junglegaming_test.Wager.Kinds.{processed}
use junglegaming_test.Wager.State.{WagerTransaction}
use junglegaming_test.Wager.Complete.{mark_processed}
use junglegaming_test.Wager.Settled.{mark_processed_parts}
use junglegaming_test.Store.Events.{CommandMetadata, EventData}
use junglegaming_test.Store.{Store, Environment, lift, pure, ◌>>◌}
use junglegaming_test.Store.Wallets.{create_entry, update_wallet, create_event}
use junglegaming_test.Store.Frame.{
  SameMoney, update_wager-KeepsMoney, new_uuid-KeepsMoney, create_event-KeepsMoney,
}
use junglegaming_test.Store.Ensures.{Ensures, bind-Ensures, keeps-Ensures, lift-Ensures}
use junglegaming_test.Service.{ProcessResult, record_movement}
use junglegaming_test.Service.Events.{create_processed_event, create_balance_changed_event}
use junglegaming_test.Service.Frame.{create_processed_event-KeepsMoney}
use junglegaming_test.Service.Reconciled.{update_wallet_parts, create_entry_parts}

module _ {A : Type 0} where
  -- The answer is a processed transaction, and the ledger has one more entry: that of the
  -- transaction, with its amount and both its balances.
  pub record IsPosted (base : Store A) (r : ProcessResult A) (s : Store A) : Type 0 where
    pub entry : LedgerEntry A
    pub added : s.ledger ≡ entry ∷ base.ledger
    pub is_processed : r.transaction.status ≡ processed
    pub is_fresh : r.idempotent_replay ≡ false
    pub of_transaction : entry.transaction_id ≡ r.transaction.id
    pub of_amount : entry.amount ≡ r.transaction.amount
    pub before : r.transaction.balance_before ≡ some entry.balance_before
    pub after : r.transaction.balance_after ≡ some entry.balance_after

  -- A ledger that is known, and a fact that does not depend on the state.
  record IsLedger (entries : List (LedgerEntry A)) (F : Type 0) (s : Store A) : Type 0 where
    ledger_is : s.ledger ≡ entries
    fact : F

  SameMoney-IsLedger :
      (entries : List (LedgerEntry A)) (F : Type 0) (s s' : Store A)
      → SameMoney s s'
      → IsLedger entries F s
      → IsLedger entries F s'
  SameMoney-IsLedger entries F s s' same l = record {
    ledger_is = same.same_ledger ∙ l.ledger_is;
    fact = l.fact;
  }

module _ {A : Type 0} ⦃decimal : Decimal A⦄ where
  -- A processed transaction and its ledger entry say the same.
  entry_of_processed :
      (w : WagerTransaction A) (id wallet now : ℕ) (d : Direction) (b a : Money A)
      {done : WagerTransaction A} {e : LedgerEntry A} (base s : Store A)
      → mark_processed w b a now ≡ ok done
      → new_ledger_entry id wallet done.id d done.amount b a now ≡ ok e
      → s.ledger ≡ e ∷ base.ledger
      → IsPosted base (record { transaction = done; idempotent_replay = false }) s
  unfolding new_ledger_entry build_ledger_entry
  entry_of_processed w id wallet now d b a {done} {e} base s marked built added =
      let (same, _, _, _, _, _) = mark_processed_parts w b a now marked in
      record {
        entry = e;
        added = added;
        is_processed = rw same refl;
        is_fresh = refl;
        of_transaction = ground arith;
        of_amount = ground arith;
        before = rw same (ground arith);
        after = rw same (ground arith);
      }

module _ {A : Type 0} ⦃decimal : Decimal A⦄ ⦃env : Environment⦄ where
  update_wallet-IsLedger :
      (m : Wallet A) (entries : List (LedgerEntry A)) (F : Type 0)
      → Ensures (IsLedger entries F) (update_wallet m) (λ _. IsLedger entries F)
  update_wallet-IsLedger m entries F s x s' l h =
      let (row, found, stored, wallets, ledger) = update_wallet_parts m s h in
      record { ledger_is = ledger ∙ l.ledger_is; fact = l.fact }

  create_entry-IsLedger :
      (e : LedgerEntry A) (entries : List (LedgerEntry A)) (F : Type 0)
      → Ensures (IsLedger entries F) (create_entry e) (λ _. IsLedger (e ∷ entries) F)
  create_entry-IsLedger e entries F s x s' l h =
      let (kept, added) = create_entry_parts e s h in
      record { ledger_is = added ∙ ap (λ es. e ∷ es) l.ledger_is; fact = l.fact }

  lift-IsLedger :
      {X : Type 0} (r : Result DomainError X) (entries : List (LedgerEntry A)) (F : Type 0)
      → Ensures (IsLedger entries F) (lift r) (λ x. IsLedger entries (F × (r ≡ ok x)))
  lift-IsLedger r entries F s x s' l h =
      let (same, e) = lift-Ensures (IsLedger entries F) r s x s' l h in
      record { ledger_is = same.ledger_is; fact = (l.fact, e) }

  -- The events that follow the entry, and the answer.
  posted :
      (base : Store A) (w : WagerTransaction A) (id wallet now : ℕ) (d : Direction) (b a : Money A)
      (done : WagerTransaction A) (e : LedgerEntry A) (metadata : CommandMetadata)
      (event : EventData A) (aggregate : ℕ)
      → Ensures
          (IsLedger (e ∷ base.ledger) (
            (Unit {0} × (mark_processed w b a now ≡ ok done))
            × (new_ledger_entry id wallet done.id d done.amount b a now ≡ ok e)))
          (create_processed_event done metadata now
            >> (create_event aggregate metadata now event
                >> pure (record { transaction = done; idempotent_replay = false })))
          (IsPosted base)
  posted base w id wallet now d b a done e metadata event aggregate =
      let keeps = SameMoney-IsLedger (e ∷ base.ledger) _ in
      bind-Ensures _ _ _ _ _
        (keeps-Ensures keeps (create_processed_event-KeepsMoney done metadata now))
        (λ _.
          bind-Ensures _ _ _ _ _
            (keeps-Ensures keeps (create_event-KeepsMoney aggregate metadata now event))
            (λ _. λ s x s' l h.
              let (answer, same) : (record { transaction = done; idempotent_replay = false } ≡ x)
                  × (s ≡ s') =
                ground arith in
              subst (λ r. IsPosted base r s') answer
                (entry_of_processed w id wallet now d b a base s' l.fact.0.1 l.fact.1
                  (subst (λ u. u.ledger ≡ e ∷ base.ledger) same l.ledger_is))))

  -- A movement that succeeds posts one entry.
  pub record_movement-IsPosted :
      (base : Store A) (d : Direction) (wallet m : Wallet A) (w : WagerTransaction A)
      (metadata : CommandMetadata) (now : ℕ)
      → Ensures (SameMoney base) (record_movement d wallet m w metadata now) (IsPosted base)
  unfolding record_movement create_balance_changed_event
  record_movement-IsPosted base d wallet m w metadata now s x s' p h =
      let start : IsLedger base.ledger Unit s = record { ledger_is = p.same_ledger; fact = tt } in
      bind-Ensures _ _ _ _ (IsPosted base) (lift-IsLedger _ base.ledger Unit)
        (λ done. bind-Ensures _ _ _ _ _ (update_wallet-IsLedger m base.ledger _) (λ _.
          bind-Ensures _ _ _ _ _
            (keeps-Ensures (SameMoney-IsLedger base.ledger _) (update_wager-KeepsMoney done))
            (λ _.
              bind-Ensures _ _ _ _ _
                (keeps-Ensures (SameMoney-IsLedger base.ledger _) (new_uuid-KeepsMoney A))
                (λ id. bind-Ensures _ _ _ _ _ (lift-IsLedger _ base.ledger _) (λ e.
                  bind-Ensures _ _ _ _ _ (create_entry-IsLedger e base.ledger _) (λ _.
                    posted base w id m.id now d wallet.balance m.balance done e metadata _
                      m.id))))))
        s x s' start h
