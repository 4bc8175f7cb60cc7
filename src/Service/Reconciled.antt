-- ===== src/Service/Reconciled.antt =====
-- internal/application/wager_service.go: every path of `Process` keeps each balance equal to the sum
-- of the wallet's ledger entries.
use junglegaming_test.Base.{ℕ, ◌≡◌, ◌≢◌, sym, ap, ◌∙◌, Option-cases, some, ◌∷◌, ok, arith, inl, inr}
use junglegaming_test.Decimal.{Decimal, DecimalLaws}
use junglegaming_test.Money.{Money}
use junglegaming_test.Wallet.{Wallet}
use junglegaming_test.Wallet.Invariant.{IsValid}
use junglegaming_test.LedgerEntry.{Direction, LedgerEntry, new_ledger_entry}
use junglegaming_test.Wager.State.{WagerTransaction}
use junglegaming_test.Store.Events.{CommandMetadata}
use junglegaming_test.Store.{Store, Environment, statement, raise_if}
use junglegaming_test.Store.Wallets.{
  update_wallet, update_row, wallet_row, create_entry, put_wallet, updated_row, least_version,
}
use junglegaming_test.Store.Frame.{
  SameMoney, bind-KeepsMoney, pure-KeepsMoney, lift-KeepsMoney, update_wager-KeepsMoney,
  new_uuid-KeepsMoney, create_event-KeepsMoney,
}
use junglegaming_test.Store.Ensures.{Ensures, bind-Ensures, keeps-Ensures, lift-Ensures}
use junglegaming_test.Service.{move_wallet, record_movement}
use junglegaming_test.Service.Events.{create_balance_changed_event}
use junglegaming_test.Service.Frame.{create_processed_event-KeepsMoney}
use junglegaming_test.Service.Replaced.{moved-IsReconciled}
use junglegaming_test.Service.Moves.{IsReconciled, move_wallet_parts, entry_parts}

pub some_inj : {X : Type 0} {a b : X} → some a ≡ some b → a ≡ b
some_inj h = ground arith

module _ {A : Type 0} ⦃decimal : Decimal A⦄ ⦃env : Environment⦄ where
  pub update_wallet_parts :
      (m : Wallet A) (s : Store A) {s' : Store A} {x : Unit}
      → update_wallet m s ≡ ok (x, s')
      → (row : Wallet A) × (s.wallets m.id ≡ some row)
        × (m.version ≢ least_version)
        × (s'.wallets ≡ put_wallet s.wallets m.id (updated_row row m))
        × (s'.ledger ≡ s.ledger)
  unfolding update_wallet statement raise_if wallet_row update_row
  update_wallet_parts m s h = elim (Option-cases (s.wallets m.id)) [
    | inl e ↦ absurd (ground arith)
    | inr (row, e) ↦ (row, e, ground arith, ground arith, ground arith)
  ]

  pub create_entry_parts :
      (e : LedgerEntry A) (s : Store A) {s' : Store A} {x : Unit}
      → create_entry e s ≡ ok (x, s')
      → (s'.wallets ≡ s.wallets) × (s'.ledger ≡ e ∷ s.ledger)
  unfolding create_entry
  create_entry_parts e s h = ground arith

module _ {A : Type 0} ⦃decimal : Decimal A⦄ ⦃laws : DecimalLaws A decimal⦄ where
  pub SameMoney-IsReconciled : (s s' : Store A) → SameMoney s s' → IsReconciled s → IsReconciled s'
  SameMoney-IsReconciled s s' same r = record {
    valid = λ id w h. r.valid id w (rw (← same.same_wallets) h);
    balanced = λ id w h. rw same.same_ledger (r.balanced id w (rw (← same.same_wallets) h));
    owned = λ id h. rw same.same_ledger (r.owned id (rw (← same.same_wallets) h));
  }

  -- The state before a movement of `wallet`.
  pub record IsLocked (wallet : Wallet A) (s : Store A) : Type 0 where
    pub reconciled : IsReconciled s
    pub locked : s.wallets wallet.id ≡ some wallet

  -- The state between the update of the wallet and its ledger entry, from the one before.
  record IsMoving (wallet m : Wallet A) (s : Store A) : Type 0 where
    base : Store A
    before : IsLocked wallet base
    valid_now : IsValid m
    same_wallet : m.id ≡ wallet.id
    wallets_now : s.wallets ≡ put_wallet base.wallets wallet.id m
    ledger_now : s.ledger ≡ base.ledger

  pub SameMoney-IsLocked :
      (wallet : Wallet A) (s s' : Store A) → SameMoney s s' → IsLocked wallet s → IsLocked wallet s'
  SameMoney-IsLocked wallet s s' same l = record {
    reconciled = SameMoney-IsReconciled s s' same l.reconciled;
    locked = ap (λ f. f wallet.id) same.same_wallets ∙ l.locked;
  }

  SameMoney-IsMoving :
      (wallet m : Wallet A) (s s' : Store A)
      → SameMoney s s'
      → IsMoving wallet m s
      → IsMoving wallet m s'
  SameMoney-IsMoving wallet m s s' same l = record {
    base = l.base;
    before = l.before;
    valid_now = l.valid_now;
    same_wallet = l.same_wallet;
    wallets_now = same.same_wallets ∙ l.wallets_now;
    ledger_now = same.same_ledger ∙ l.ledger_now;
  }

  update_wallet-IsMoving :
      ⦃env : Environment⦄ (d : Direction) (wallet m : Wallet A) (amount : Money A) (now : ℕ)
      → move_wallet d wallet amount now ≡ ok m
      → Ensures (IsLocked wallet) (update_wallet m) (λ _. IsMoving wallet m)
  update_wallet-IsMoving d wallet m amount now moves s x s' l h =
      let (row, found, stored, wallets, ledger) = update_wallet_parts m s h in
      let valid = (l.reconciled.valid wallet.id wallet l.locked).0 in
      let (v, same, kept) = move_wallet_parts d wallet amount now valid stored moves in
      let e : row ≡ wallet = some_inj (sym found ∙ ap s.wallets same ∙ l.locked) in
      record {
        base = s;
        before = l;
        valid_now = v;
        same_wallet = same;
        wallets_now =
            wallets
            ∙ ap (λ k. put_wallet s.wallets k (updated_row row m)) same
            ∙ ap (λ r. put_wallet s.wallets wallet.id (updated_row r m)) e
            ∙ ap (put_wallet s.wallets wallet.id) kept;
        ledger_now = ledger;
      }

  create_entry-IsReconciled :
      ⦃env : Environment⦄ (d : Direction) (wallet m : Wallet A) (id transaction at : ℕ)
      (amount : Money A) (e : LedgerEntry A)
      → Ensures
          (λ s.
            IsMoving wallet m s
            × (new_ledger_entry id m.id transaction d amount wallet.balance m.balance at ≡ ok e))
          (create_entry e)
          (λ _. IsReconciled)
  create_entry-IsReconciled d wallet m id transaction at amount e s x s' (l, built) h =
      let (kept, added) = create_entry_parts e s h in
      let (named, way, moved, sum) =
        entry_parts id m.id transaction at d amount wallet.balance m.balance built in
      moved-IsReconciled l.base s' wallet m e l.before.reconciled l.before.locked l.valid_now
        l.same_wallet (named ∙ l.same_wallet) (rw (way, moved) sum) (kept ∙ l.wallets_now)
        (added ∙ ap (λ es. e ∷ es) l.ledger_now)

  -- The movement of a locked wallet, as `applyMovement` records it.
  pub record_movement-IsReconciled :
      ⦃env : Environment⦄ (d : Direction) (wallet m : Wallet A) (w : WagerTransaction A)
      (metadata : CommandMetadata) (now : ℕ)
      → move_wallet d wallet w.amount now ≡ ok m
      → Ensures (IsLocked wallet) (record_movement d wallet m w metadata now) (λ _. IsReconciled)
  unfolding record_movement create_balance_changed_event
  record_movement-IsReconciled d wallet m w metadata now moves =
      let moving = SameMoney-IsMoving wallet m in
      bind-Ensures _ _ _ _ _ (keeps-Ensures (SameMoney-IsLocked wallet) (lift-KeepsMoney A _))
        (λ done. bind-Ensures _ _ _ _ _ (update_wallet-IsMoving d wallet m w.amount now moves) (λ _.
          bind-Ensures _ _ _ _ _ (keeps-Ensures moving (update_wager-KeepsMoney done)) (λ _.
            bind-Ensures _ _ _ _ _ (keeps-Ensures moving (new_uuid-KeepsMoney A)) (λ id.
              bind-Ensures _ _ _ _ _ (lift-Ensures (IsMoving wallet m) _) (λ e.
                bind-Ensures _ _ _ _ _
                  (create_entry-IsReconciled d wallet m id done.id now done.amount e)
                  (λ _. keeps-Ensures SameMoney-IsReconciled (
                    bind-KeepsMoney _ _ (create_processed_event-KeepsMoney done metadata now) (λ _.
                      bind-KeepsMoney _ _ (create_event-KeepsMoney _ metadata now _)
                        (λ _. pure-KeepsMoney A _)))))))))
