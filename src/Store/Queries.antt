-- ===== src/Store/Queries.antt =====
-- internal/infrastructure/postgres/wallet_ledger_repository.go: the statement of
-- `ReconciliationSnapshot`.
use junglegaming_test.Base.{ℕ, Option, none, some}
use junglegaming_test.Decimal.{Decimal}
use junglegaming_test.Wallet.{Wallet}
use junglegaming_test.Store.{Environment, Action, not_found, raise, lift, statement, ◌>>◌}
use junglegaming_test.Store.Ledger.{Snapshot, snapshot_of}

module _ {A : Type 0} ⦃decimal : Decimal A⦄ where
  -- The row of the statement, if there is one.
  unfoldable pub read_snapshot : ℕ → Option (Wallet A) → Action A (Snapshot A)
  unfolding snapshot_of lift
  read_snapshot id none = raise not_found
  read_snapshot id (some w) = λ s. lift (snapshot_of w s.ledger id) s

module _ {A : Type 0} ⦃decimal : Decimal A⦄ ⦃env : Environment⦄ where
  -- `WalletLedgerRepository.ReconciliationSnapshot`
  unfoldable pub reconciliation_snapshot : ℕ → Action A (Snapshot A)
  unfolding statement read_snapshot
  reconciliation_snapshot id = do statement; λ s. read_snapshot id (s.wallets id) s
