-- ===== src/Service/Lifetime.antt =====
-- internal/application/wallet_service.go and wager_service.go: the services from an empty database on.
use junglegaming_test.Base.{
  ℕ, ◌+◌, String, Option, true, ◌≡◌, refl, none, some, List, [], ok, arith,
}
use junglegaming_test.Decimal.{Decimal, DecimalLaws}
use junglegaming_test.Wallet.{Wallet}
use junglegaming_test.Backoff.{ReferenceRetryPolicy}
use junglegaming_test.Store.{Store, Environment}
use junglegaming_test.Store.Ledger.{ledger_count}
use junglegaming_test.Service.Moves.{ledger_total, IsReconciled}
use junglegaming_test.Service.Serve.{Command, run_all, run_all-IsReconciled}
use junglegaming_test.Account.{ReconciliationResult}
use junglegaming_test.Account.Creation.{reconcile}
use junglegaming_test.Account.Audit.{reconcile_reconciled}

-- The tables as the migrations leave them.
unfoldable pub empty_store : {A : Type 0} → Store A
empty_store = record {
  wallets = λ id. none;
  accounts = [];
  wagers = [];
  ledger = [];
  outbox = [];
  steps = 0;
}

module _ {A : Type 0} ⦃decimal : Decimal A⦄ ⦃laws : DecimalLaws A decimal⦄ where
  empty_store-IsReconciled : IsReconciled {A = A} empty_store
  unfolding empty_store ledger_total ledger_count
  empty_store-IsReconciled = record {
    valid = λ id w h. absurd (ground arith);
    balanced = λ id w h. absurd (ground arith);
    owned = λ id h. refl;
  }

  -- After any sequence of transactions from the empty database, `Reconcile` of a wallet that exists
  -- succeeds on a working database, reports the stored balance and finds it consistent with the
  -- ledger.
  pub reconcile-run_all :
      (policy : ReferenceRetryPolicy) (commands : List (Command A)) ⦃env : Environment⦄
      (parse_uuid : String → Option ℕ) (text : String) (id : ℕ) (w : Wallet A)
      → parse_uuid text ≡ some id
      → (run_all policy commands empty_store).wallets id ≡ some w
      → env.fault (run_all policy commands empty_store).steps ≡ none
      → (r : ReconciliationResult A) × (s : Store A) × (reconcile parse_uuid text
            (run_all policy commands empty_store)
          ≡ ok (r, s))
        × (r.consistent ≡ true)
        × (r.stored_balance ≡ w.balance)
  reconcile-run_all policy commands parse_uuid text id w parsed found calm =
      let s = run_all policy commands empty_store in
      let (r, done, consistent, stored, _, _) =
        reconcile_reconciled parse_uuid text s id w
          (run_all-IsReconciled policy commands empty_store empty_store-IsReconciled) parsed found
          calm in
      (r, record s { steps = s.steps + 1 }, done, consistent, stored)
