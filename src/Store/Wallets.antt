-- ===== src/Store/Wallets.antt =====
-- internal/infrastructure/postgres/wallet_repository.go, wallet_ledger_repository.go and
-- outbox_repository.go: the statements on wallets, ledger entries and events. The money of a row is
-- the value that its text spells. The constraints of the schema on a row are faults of statements.
use junglegaming_test.Base.{ℕ, ◌==◌, Option, none, some, ◌∷◌, ok, err, if◌then◌else◌}
use junglegaming_test.Base.Int.{add64}
use junglegaming_test.Decimal.{Decimal}
use junglegaming_test.Wallet.{Wallet, rehydrate_wallet}
use junglegaming_test.LedgerEntry.{LedgerEntry}
use junglegaming_test.Store.Events.{EventData, CommandMetadata, event_version}
use junglegaming_test.Store.{
  Environment, Action, infrastructure, concurrent_update, pure, raise_if, lift, statement, new_uuid,
  ◌>>=◌, ◌>>◌,
}

-- The least int64, of which the database cannot compute the predecessor.
abbrev pub least_version : ℕ
least_version = 9223372036854775808

module _ {A : Type 0} where
  -- The wallets after the row of an identifier is changed by `UPDATE`.
  unfoldable pub put_wallet : (ℕ → Option (Wallet A)) → ℕ → Wallet A → ℕ → Option (Wallet A)
  put_wallet wallets key w id = if id == key then some w else wallets id

  -- The row that the statement of `Update` leaves: identity and creation time stay.
  unfoldable pub updated_row : Wallet A → Wallet A → Wallet A
  updated_row row w = record row {
    balance = record row.balance { amount = w.balance.amount };
    version = w.version;
    updated_at = w.updated_at;
  }

  -- `UPDATE wallets ... WHERE id = $1 AND version = $3 - 1`, on the row of that identifier.
  unfoldable pub update_row : Option (Wallet A) → Wallet A → Action A (Unit {0})
  unfolding put_wallet updated_row
  update_row none w s = err concurrent_update
  update_row (some row) w s =
      if add64 row.version 1 == w.version
      then ok (tt, record s { wallets = put_wallet s.wallets w.id (updated_row row w) })
      else err concurrent_update

  -- `UPDATE` gives no row, or the one that it changes.
  unfoldable pub wallet_row : ℕ → Action A (Option (Wallet A))
  wallet_row id s = ok (s.wallets id, s)

module _ {A : Type 0} ⦃decimal : Decimal A⦄ where
  -- `scanWallet`; no row is `ErrNotFound`.
  unfoldable pub scan_wallet : Option (Wallet A) → Action A (Option (Wallet A))
  scan_wallet none = pure none
  scan_wallet (some w) = do
    wallet ← lift (rehydrate_wallet w.id w.player_id w.balance w.version w.created_at w.updated_at)
    pure (some wallet)

module _ {A : Type 0} ⦃decimal : Decimal A⦄ ⦃env : Environment⦄ where
  -- `WalletRepository.FindByIDForUpdate`
  unfoldable pub find_wallet_for_update : ℕ → Action A (Option (Wallet A))
  unfolding statement scan_wallet
  find_wallet_for_update id = do statement; row ← wallet_row id; scan_wallet row

  -- `WalletRepository.Update`
  unfoldable pub update_wallet : Wallet A → Action A (Unit {0})
  unfolding statement raise_if update_row
  update_wallet w = do
    statement
    raise_if (w.version == least_version) (infrastructure "bigint out of range")
    row ← wallet_row w.id
    update_row row w

  -- `WalletLedgerRepository.Create`
  unfoldable pub create_entry : LedgerEntry A → Action A (Unit {0})
  unfolding statement
  create_entry entry = do statement; λ s. ok (tt, record s { ledger = entry ∷ s.ledger })

  -- `OutboxRepository.Create` of a `newEvent`
  unfoldable pub create_event : ℕ → CommandMetadata → ℕ → EventData A → Action A (Unit {0})
  unfolding statement
  create_event aggregate metadata occurred_at data_of = do
    id ← new_uuid
    statement
    λ s. ok (
      tt,
      record s {
        outbox =
            record {
              event_id = id;
              aggregate_id = aggregate;
              correlation_id = metadata.correlation_id;
              causation_id = metadata.causation_id;
              occurred_at = occurred_at;
              version = event_version;
              data_of = data_of;
            }
            ∷ s.outbox;
      },
    )
