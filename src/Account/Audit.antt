-- ===== src/Account/Audit.antt =====
-- internal/application/wallet_service.go: `Reconcile` on any state, and on one that agrees with its
-- ledger.
use junglegaming_test.Base.{
  ℕ, ◌+◌, ◌≢◌, String, Option, true, ◌≡◌, ◌↔◌, refl, sym, ap, ◌∙◌, none, some, ok, err, arith, inl,
  inr, Result, Result-cases, Option-cases,
}
use mathlib.Core.Path.{subst}
use junglegaming_test.Base.Int.{pos, ◌-ℤ◌, -ℤ_parts, eq_of_parts}
use junglegaming_test.Decimal.{Decimal, DecimalLaws}
use junglegaming_test.Errors.{DomainError}
use junglegaming_test.Money
use junglegaming_test.Money.{Money}
use junglegaming_test.Money.Laws.{cents, sub-IsOk_iff}
use junglegaming_test.Wallet.{Wallet}
use junglegaming_test.Store.{Store, Environment, Action, statement, lift, AppError, ◌>>=◌}
use junglegaming_test.Store.Frame.{bind_parts}
use junglegaming_test.Store.Ledger.{Snapshot, ledger_count, snapshot_of}
use junglegaming_test.Store.Queries.{read_snapshot, reconciliation_snapshot}
use junglegaming_test.Service.Moves.{ledger_total, IsReconciled}
use junglegaming_test.Account.{ReconciliationResult, known_id, reconciliation_of, wallet_missing}
use junglegaming_test.Account.Creation.{answer, with_error, reconcile}
use junglegaming_test.Account.Readable.{snapshot_of-IsOk}
use junglegaming_test.Account.Consistency.{snapshot_of-cents, reconciliation_of-cents}

known_id_parts :
    {E : Type 0} (e : E) (o : Option ℕ) {id : ℕ} → o ≡ some id → id ≢ 0 → known_id e o ≡ ok id
unfolding known_id
known_id_parts e none h k = absurd (ground arith)
known_id_parts e (some n) h k = ground arith

bind_ok :
    {A X Y : Type 0} (m : Action A X) (f : X → Action A Y) (s : Store A) {x : X} {u : Store A}
    → m s ≡ ok (x, u)
    → (m >>= f) s ≡ f x u
bind_ok m f s h = ap (λ r. elim r [ ok p ↦ f p.0 p.1 | err e ↦ err e ]) h

module _ {A : Type 0} ⦃decimal : Decimal A⦄ ⦃laws : DecimalLaws A decimal⦄ where
  -- What a success of `Reconcile` says about wallet `id` of a state.
  pub record IsVerdict (s : Store A) (w : Wallet A) (id : ℕ) (r : ReconciliationResult A)
      : Type 0 where
    pub of_wallet : r.wallet_id ≡ id
    pub stored : r.stored_balance ≡ w.balance
    pub checked : r.checked_entries ≡ ledger_count s.ledger id
    pub verdict : (r.consistent ≡ true) ↔ (cents w.balance ≡ ledger_total s.ledger id)
    pub gap : cents r.difference ≡ cents w.balance -ℤ ledger_total s.ledger id

  IsVerdict-of :
      (s : Store A) (w : Wallet A) (id : ℕ) (p : Snapshot A) (r : ReconciliationResult A)
      → snapshot_of w s.ledger id ≡ ok p
      → reconciliation_of id p ≡ ok r
      → r.wallet_id ≡ id
      → IsVerdict s w id r
  IsVerdict-of s w id p r taken judged named =
      let (stored, total, count, currency, in_range) = snapshot_of-cents w s.ledger id taken in
      let (kept, counted, verdict, gap) = reconciliation_of-cents id p judged in
      record {
        of_wallet = named;
        stored = kept ∙ stored;
        checked = counted ∙ count;
        verdict = rw (← total, ← stored) verdict;
        gap = rw (← total, ← stored) gap;
      }

  reconciliation_of-wallet_id :
      (id : ℕ) (p : Snapshot A) {r : ReconciliationResult A}
      → reconciliation_of id p ≡ ok r
      → r.wallet_id ≡ id
  unfolding reconciliation_of
  reconciliation_of-wallet_id id p h = ground arith

  reconciliation_of-IsOk :
      (s : Store A) (id : ℕ) (w : Wallet A) (p : Snapshot A)
      → IsReconciled s
      → s.wallets id ≡ some w
      → snapshot_of w s.ledger id ≡ ok p
      → (r : ReconciliationResult A) × (reconciliation_of id p ≡ ok r)
  unfolding reconciliation_of
  reconciliation_of-IsOk s id w p r found taken =
      let (v, _) = r.valid id w found in
      let (stored, total, count, currency, in_range) = snapshot_of-cents w s.ledger id taken in
      let same : cents p.stored_balance ≡ cents p.calculated_balance =
        ap cents stored ∙ r.balanced id w found ∙ sym total in
      elim (Result-cases (Money.sub p.stored_balance p.calculated_balance)) [
        | inl (d, e) ↦ (
          record {
            wallet_id = id;
            stored_balance = p.stored_balance;
            calculated_balance = p.calculated_balance;
            difference = d;
            consistent = Money.is_zero d;
            checked_entries = p.checked_entries;
          },
          rw e refl,
        )
        | inr (x, e) ↦ absurd (
            ground (
              arith,
              v.balance_valid,
              sub-IsOk_iff p.stored_balance p.calculated_balance,
              -ℤ_parts (cents p.stored_balance) (cents p.calculated_balance),
            ))
      ]

  module _ ⦃env : Environment⦄ where
    snapshot_taken :
        (s : Store A) (id : ℕ) (w : Wallet A) (p : Snapshot A)
        → s.wallets id ≡ some w
        → env.fault s.steps ≡ none
        → snapshot_of w s.ledger id ≡ ok p
        → with_error wallet_missing (reconciliation_snapshot id) s
          ≡ ok (p, record s { steps = s.steps + 1 })
    unfolding with_error reconciliation_snapshot read_snapshot statement lift
    snapshot_taken s id w p found calm taken = ground arith

    lifted :
        {X : Type 0} (r : Result DomainError X) (s : Store A) {x : X}
        → r ≡ ok x
        → lift r s ≡ ok (x, s)
    unfolding lift
    lifted r s h = rw h refl

    answered :
        {X : Type 0} (r : Result AppError X) (s : Store A) {x : X}
        → r ≡ ok x
        → answer r s ≡ ok (x, s)
    unfolding answer
    answered r s h = rw h refl

    -- In a state where every wallet agrees with its ledger, `Reconcile` of an existing wallet on a
    -- working database succeeds: it reports the stored balance as consistent with the ledger, with
    -- difference zero, counts the entries of the wallet and changes nothing.
    pub reconcile_reconciled :
        (parse_uuid : String → Option ℕ) (text : String) (s : Store A) (id : ℕ) (w : Wallet A)
        → IsReconciled s
        → parse_uuid text ≡ some id
        → s.wallets id ≡ some w
        → env.fault s.steps ≡ none
        → (r : ReconciliationResult A) × (reconcile parse_uuid text s
            ≡ ok (r, record s { steps = s.steps + 1 }))
          × (r.consistent ≡ true)
          × (r.stored_balance ≡ w.balance)
          × (cents r.difference ≡ pos 0)
          × (r.checked_entries ≡ ledger_count s.ledger id)
    unfolding reconcile
    reconcile_reconciled parse_uuid text s id w r parsed found calm =
        let (v, named) = r.valid id w found in
        let (p, taken) = snapshot_of-IsOk s id w r found in
        let (result, judged) = reconciliation_of-IsOk s id w p r found taken in
        let u =
          IsVerdict-of s w id p result taken judged (reconciliation_of-wallet_id id p judged) in
        let known =
          known_id_parts AppError.wallet_not_found (parse_uuid text) parsed
            (ground (arith, v.has_id)) in
        (
          result,
          bind_ok (answer (known_id AppError.wallet_not_found (parse_uuid text)))
                (λ i. with_error wallet_missing (reconciliation_snapshot i) >>= λ q.
                  lift (reconciliation_of i q))
                s (answered _ s known)
              ∙ bind_ok (with_error wallet_missing (reconciliation_snapshot id))
                  (λ q. lift (reconciliation_of id q)) s (snapshot_taken s id w p found calm taken)
              ∙ lifted _ _ judged,
          u.verdict.1 (r.balanced id w found),
          u.stored,
          u.gap
              ∙ eq_of_parts _ (pos 0) (
                  grind (
                    arith,
                    r.balanced id w found,
                    -ℤ_parts (cents w.balance) (ledger_total s.ledger id),
                  )),
          u.checked,
        )

    read_parts :
        (s u : Store A) (id : ℕ) {p : Snapshot A} {r : ReconciliationResult A} {s' : Store A}
        → with_error wallet_missing (reconciliation_snapshot id) s ≡ ok (p, u)
        → lift (reconciliation_of id p) u ≡ ok (r, s')
        → (w : Wallet A) × (s.wallets id ≡ some w)
          × (snapshot_of w s.ledger id ≡ ok p)
          × (reconciliation_of id p ≡ ok r)
    unfolding with_error reconciliation_snapshot read_snapshot statement lift
    read_parts s u id {p} {r} h k = elim (Option-cases (s.wallets id)) [
      | inl e ↦ absurd (ground arith)
      | inr (w, e) ↦ (w, e, ground arith, ground arith)
    ]

    -- Whenever `Reconcile` succeeds, the wallet that it names exists, the balance it reports is the
    -- stored one, it has counted the entries of the wallet, and it reports consistency just where
    -- the balance is the sum of these entries; the difference that it reports is what they lack.
    pub reconcile-IsVerdict :
        (parse_uuid : String → Option ℕ) (text : String) (s s' : Store A)
        (r : ReconciliationResult A)
        → reconcile parse_uuid text s ≡ ok (r, s')
        → (w : Wallet A) × (s.wallets r.wallet_id ≡ some w) × IsVerdict s w r.wallet_id r
    unfolding reconcile answer
    reconcile-IsVerdict parse_uuid text s s' r h =
        let (id, u, known, rest) =
          bind_parts (answer (known_id AppError.wallet_not_found (parse_uuid text)))
            (λ i. with_error wallet_missing (reconciliation_snapshot i) >>= λ q.
              lift (reconciliation_of i q))
            s h in
        let (p, v, first, last) =
          bind_parts (with_error wallet_missing (reconciliation_snapshot id))
            (λ q. lift (reconciliation_of id q)) u rest in
        let same : u ≡ s = ground arith in
        let (w, found, taken, judged) = read_parts u v id first last in
        let named = reconciliation_of-wallet_id id p judged in
        let verdict = IsVerdict-of u w id p r taken judged named in
        subst (λ t. (w : Wallet A) × (t.wallets r.wallet_id ≡ some w) × IsVerdict t w r.wallet_id r)
          same
          (subst (λ i. (w : Wallet A) × (u.wallets i ≡ some w) × IsVerdict u w i r) (sym named)
            (w, found, verdict))
