-- ===== src/Service/Events.antt =====
-- internal/application/wager_events.go: the events of a transaction.
use junglegaming_test.Base.{ℕ, ◌==◌, Option, none, some, Result, ok, err, if◌then◌else◌}
use junglegaming_test.Decimal.{Decimal}
use junglegaming_test.Errors.{DomainError, invalid_wager_state}
use junglegaming_test.Money.{Money}
use junglegaming_test.Wallet.{Wallet}
use junglegaming_test.LedgerEntry.{LedgerEntry}
use junglegaming_test.Wager.State.{WagerTransaction}
use junglegaming_test.Store.Events.{
  CommandMetadata, ProcessedData, BalanceChangedData, wager_processed, wager_rejected,
  balance_changed, wager_pending_reference,
}
use junglegaming_test.Store.{Environment, Action, lift, ◌>>=◌}
use junglegaming_test.Store.Wallets.{create_event}

module _ {A : Type 0} where
  -- `processedEventData`, on the two balances.
  unfoldable pub processed_data :
      WagerTransaction A
      → Option (Money A)
      → Option (Money A)
      → Result DomainError (ProcessedData A)
  processed_data w (some before) (some after) = ok (record {
    transaction_id = w.id;
    provider_id = w.provider_id;
    external_transaction_id = w.external_transaction_id;
    wallet_id = w.wallet_id;
    player_id = w.player_id;
    round_id = w.round_id;
    game_id = w.game_id;
    kind = w.transaction_type;
    money = w.amount;
    balance_before = before;
    balance_after = after;
    reference_transaction_id =
        if w.reference_transaction_id == 0 then none else some w.reference_transaction_id;
  })
  processed_data w _ _ = err invalid_wager_state

  -- `balanceChangedEventData`
  unfoldable pub balance_changed_data : Wallet A → LedgerEntry A → BalanceChangedData A
  balance_changed_data wallet entry = record {
    wallet_id = wallet.id;
    player_id = wallet.player_id;
    transaction_id = entry.transaction_id;
    direction = entry.direction;
    money = entry.amount;
    balance_before = entry.balance_before;
    balance_after = entry.balance_after;
    wallet_version = wallet.version;
  }

module _ {A : Type 0} ⦃decimal : Decimal A⦄ ⦃env : Environment⦄ where
  -- `createProcessedEvent`
  unfoldable pub create_processed_event :
      WagerTransaction A → CommandMetadata → ℕ → Action A (Unit {0})
  create_processed_event w metadata now = do
    data_of ← lift (processed_data w w.balance_before w.balance_after)
    create_event w.id metadata now (wager_processed data_of)

  -- `createBalanceChangedEvent`
  unfoldable pub create_balance_changed_event :
      Wallet A → LedgerEntry A → CommandMetadata → ℕ → Action A (Unit {0})
  create_balance_changed_event wallet entry metadata now =
      create_event wallet.id metadata now (balance_changed (balance_changed_data wallet entry))

  -- `createRejectedEvent`
  unfoldable pub create_rejected_event :
      WagerTransaction A → CommandMetadata → ℕ → Action A (Unit {0})
  create_rejected_event w metadata now = create_event w.id metadata now (
      wager_rejected (record {
        transaction_id = w.id;
        provider_id = w.provider_id;
        external_transaction_id = w.external_transaction_id;
        wallet_id = w.wallet_id;
        player_id = w.player_id;
        round_id = w.round_id;
        game_id = w.game_id;
        kind = w.transaction_type;
        money = w.amount;
        failure_code = w.failure_code;
        failure_message = w.failure_message;
      }))

  -- `createPendingReferenceEvent`
  unfoldable pub create_pending_reference_event :
      WagerTransaction A → CommandMetadata → ℕ → Action A (Unit {0})
  create_pending_reference_event w metadata now = create_event w.id metadata now (
      wager_pending_reference (record {
        transaction_id = w.id;
        provider_id = w.provider_id;
        external_transaction_id = w.external_transaction_id;
        reference_external_transaction_id = w.reference_external_transaction_id;
        wallet_id = w.wallet_id;
        player_id = w.player_id;
        round_id = w.round_id;
        game_id = w.game_id;
        kind = w.transaction_type;
        money = w.amount;
      }))
