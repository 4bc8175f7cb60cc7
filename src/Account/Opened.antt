-- ===== src/Account/Opened.antt =====
-- internal/application/wallet_service.go: a wallet that `Create` opens agrees with the ledger.
use junglegaming_test.Base.{
  ℕ, not, true, ◌≡◌, refl, sym, ap, ◌∙◌, Option-cases, none, ◌∷◌, ok, arith, inl, inr,
}
use junglegaming_test.Base.Int.{pos, eq_of_parts}
use junglegaming_test.Decimal.{Decimal, DecimalLaws}
use junglegaming_test.Money
use junglegaming_test.Money.{Money, zero_money}
use junglegaming_test.Money.Laws.{cents, is_zero-cents}
use junglegaming_test.Wallet.{Wallet, new_wallet}
use junglegaming_test.Wallet.Invariant.{IsValid, new_wallet-IsValid}
use junglegaming_test.LedgerEntry.{credit, LedgerEntry, new_ledger_entry}
use junglegaming_test.Store.Events.{CommandMetadata}
use junglegaming_test.Store.{Store, Environment}
use junglegaming_test.Store.Opening.{create_wallet, insert_wallet}
use junglegaming_test.Store.Wallets.{put_wallet, create_entry, wallet_row}
use junglegaming_test.Store.Frame.{
  SameMoney, bind-KeepsMoney, pure-KeepsMoney, lift-KeepsMoney, raise_if-KeepsMoney,
  create_wager-KeepsMoney, clock_now-KeepsMoney, new_uuid-KeepsMoney, create_event-KeepsMoney,
}
use junglegaming_test.Store.Ensures.{
  Ensures, bind-Ensures, keeps-Ensures, lift-Ensures, test-Ensures, raise_if-Ensures,
}
use junglegaming_test.Store.Ledger.{ledger_count}
use junglegaming_test.Service.Moves.{no_entry_total, ledger_total, IsReconciled, entry_parts}
use junglegaming_test.Service.Replaced.{replaced-IsReconciled, posted-IsReconciled}
use junglegaming_test.Service.Reconciled.{SameMoney-IsReconciled, create_entry_parts}
use junglegaming_test.Service.Frame.{create_processed_event-KeepsMoney}
use junglegaming_test.Service.Events.{create_balance_changed_event}
use junglegaming_test.Account.Creation.{create_opening, open_balance, open_wallet}

module _ {A : Type 0} ⦃decimal : Decimal A⦄ ⦃laws : DecimalLaws A decimal⦄ where
  -- The state after the insertion of wallet `w`, from one that agreed with the ledger.
  record IsOpening (w : Wallet A) (initial : Money A) (s : Store A) : Type 0 where
    base : Store A
    before : IsReconciled base
    fresh : base.wallets w.id ≡ none
    valid : IsValid w
    holds : w.balance ≡ initial
    wallets_now : s.wallets ≡ put_wallet base.wallets w.id w
    ledger_now : s.ledger ≡ base.ledger

  SameMoney-IsOpening :
      (w : Wallet A) (initial : Money A) (s s' : Store A)
      → SameMoney s s'
      → IsOpening w initial s
      → IsOpening w initial s'
  SameMoney-IsOpening w initial s s' same l = record {
    base = l.base;
    before = l.before;
    fresh = l.fresh;
    valid = l.valid;
    holds = l.holds;
    wallets_now = same.same_wallets ∙ l.wallets_now;
    ledger_now = same.same_ledger ∙ l.ledger_now;
  }

  -- A wallet that opens with nothing needs no entry.
  empty-IsReconciled :
      (w : Wallet A) (initial : Money A) (s : Store A)
      → Money.is_zero initial ≡ true
      → IsOpening w initial s
      → IsReconciled s
  empty-IsReconciled w initial s z l =
      let none_moved : cents initial ≡ pos 0 =
        ground (arith, is_zero-cents initial, eq_of_parts (cents initial) (pos 0)) in
      replaced-IsReconciled l.base s w l.before l.valid l.wallets_now
        (λ id other. ap (λ es. ledger_total es id) l.ledger_now)
        (λ id other. ap (λ es. ledger_count es id) l.ledger_now)
        (ap cents l.holds
          ∙ none_moved
          ∙ sym (no_entry_total l.base.ledger w.id (l.before.owned w.id l.fresh))
          ∙ ap (λ es. ledger_total es w.id) (sym l.ledger_now))

  module _ ⦃env : Environment⦄ where
    create_wallet-IsOpening :
        (id player at : ℕ) (initial : Money A) (w : Wallet A)
        → Ensures
            (λ s. IsReconciled s × (new_wallet id player initial at ≡ ok w))
            (create_wallet w)
            (λ b s. b ≡ true → IsOpening w initial s)
    unfolding create_wallet wallet_row insert_wallet
    create_wallet-IsOpening id player at initial w s x s' (r, made) h created =
        let (valid, holds, first) = new_wallet-IsValid id player at initial made in
        elim (Option-cases (s.wallets w.id)) [
          | inl e ↦ record {
            base = s;
            before = r;
            fresh = e;
            valid = valid;
            holds = holds;
            wallets_now = ground arith;
            ledger_now = ground arith;
          }
          | inr (row, e) ↦ absurd (ground arith)
        ]

    -- The entry of the opening closes the gap.
    create_entry-IsReconciled :
        (w : Wallet A) (initial zero : Money A) (id transaction at : ℕ) (e : LedgerEntry A)
        → Ensures
            (λ s.
              (IsOpening w initial s × (zero_money initial.currency ≡ ok zero))
              × (new_ledger_entry id w.id transaction credit initial zero initial at ≡ ok e))
            (create_entry e)
            (λ _. IsReconciled)
    unfolding zero_money
    create_entry-IsReconciled w initial zero id transaction at e s x s' ((l, nothing), built) h =
        let (kept, added) = create_entry_parts e s h in
        let (named, way, moved, sum) =
          entry_parts id w.id transaction at credit initial zero initial built in
        let none_before : cents zero ≡ pos 0 = ground (arith, laws.cents-zero_value) in
        posted-IsReconciled l.base s' w e l.before l.valid named
          (ap cents l.holds
            ∙ sum
            ∙ rw
                (
                  way,
                  moved,
                  none_before,
                  no_entry_total l.base.ledger w.id (l.before.owned w.id l.fresh),
                )
                refl)
          (kept ∙ l.wallets_now) (added ∙ ap (λ es. e ∷ es) l.ledger_now)

    create_opening-IsReconciled :
        (w : Wallet A) (initial : Money A) (metadata : CommandMetadata) (at : ℕ)
        → Ensures (IsOpening w initial) (create_opening w initial metadata at) (λ _. IsReconciled)
    unfolding create_opening create_balance_changed_event
    create_opening-IsReconciled w initial metadata at =
        let keeps = SameMoney-IsOpening w initial in
        bind-Ensures _ _ _ _ _ (keeps-Ensures keeps (new_uuid-KeepsMoney A)) (λ id.
          bind-Ensures _ _ _ _ _ (keeps-Ensures keeps (lift-KeepsMoney A _)) (λ opening.
            bind-Ensures _ _ _ _ _ (keeps-Ensures keeps (create_wager-KeepsMoney opening)) (λ b.
              bind-Ensures _ _ _ _ _ (keeps-Ensures keeps (raise_if-KeepsMoney A _ _)) (λ _.
                bind-Ensures _ _ _ _ _ (lift-Ensures (IsOpening w initial) _) (λ zero.
                  bind-Ensures _ _ _ _ _
                    (keeps-Ensures (λ s s' same p. (keeps s s' same p.0, p.1))
                      (new_uuid-KeepsMoney A))
                    (λ entry_id. bind-Ensures _ _ _ _ _ (lift-Ensures _ _) (λ e.
                      bind-Ensures _ _ _ _ _
                        (create_entry-IsReconciled w initial zero entry_id opening.id at e)
                        (λ _. keeps-Ensures SameMoney-IsReconciled (
                          bind-KeepsMoney _ _
                            (create_processed_event-KeepsMoney opening metadata at)
                            (λ _. create_event-KeepsMoney _ metadata at _))))))))))

    open_balance-IsReconciled :
        (w : Wallet A) (initial : Money A) (metadata : CommandMetadata) (now : ℕ)
        → Ensures (IsOpening w initial) (open_balance w initial metadata now) (λ _. IsReconciled)
    unfolding open_balance
    open_balance-IsReconciled w initial metadata now =
        bind-Ensures _ _ (λ _. IsReconciled) _ _
          (test-Ensures (Money.is_zero initial) _ _
            (λ zero s x s' l h.
              SameMoney-IsReconciled s s' (pure-KeepsMoney A tt s x s' h)
                (empty-IsReconciled w initial s zero l))
            (λ _. create_opening-IsReconciled w initial metadata now))
          (λ _. keeps-Ensures SameMoney-IsReconciled (pure-KeepsMoney A _))

    -- The transaction of `Create`.
    pub open_wallet-IsReconciled :
        (player : ℕ) (initial : Money A) (metadata : CommandMetadata)
        → Ensures IsReconciled (open_wallet player initial metadata) (λ _. IsReconciled)
    unfolding open_wallet
    open_wallet-IsReconciled player initial metadata =
        let keeps = SameMoney-IsReconciled in
        bind-Ensures _ _ _ _ _ (keeps-Ensures keeps (clock_now-KeepsMoney A)) (λ now.
          bind-Ensures _ _ _ _ _ (keeps-Ensures keeps (new_uuid-KeepsMoney A)) (λ id.
            bind-Ensures _ _ _ _ _ (lift-Ensures IsReconciled _) (λ w.
              bind-Ensures _ _ _ _ _ (create_wallet-IsOpening id player now initial w) (λ created.
                bind-Ensures _ _ _ _ _ (raise_if-Ensures _ (not created) _) (λ _ s x s' p h.
                  open_balance-IsReconciled w initial metadata now s x s' (p.0 (ground arith))
                    h)))))
