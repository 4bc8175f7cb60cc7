-- ===== src/Store/Events.antt =====
-- internal/application/events.go and commands.go: the events that the outbox keeps. A row has the
-- data of the event, where the database has the JSON text of it.
use junglegaming_test.Base.{ℕ, String, Option}
use junglegaming_test.Money.{Money}
use junglegaming_test.LedgerEntry.{Direction}
use junglegaming_test.Wager.Kinds.{WagerType}

pub record CommandMetadata : Type 0 where
  pub correlation_id : String
  pub causation_id : String

-- `WagerTransactionProcessedData`
pub record ProcessedData (A : Type 0) : Type 0 where
  pub transaction_id : ℕ
  pub provider_id : String
  pub external_transaction_id : String
  pub wallet_id : ℕ
  pub player_id : ℕ
  pub round_id : String
  pub game_id : String
  pub kind : WagerType
  pub money : Money A
  pub balance_before : Money A
  pub balance_after : Money A
  pub reference_transaction_id : Option ℕ

-- `WagerTransactionRejectedData`
pub record RejectedData (A : Type 0) : Type 0 where
  pub transaction_id : ℕ
  pub provider_id : String
  pub external_transaction_id : String
  pub wallet_id : ℕ
  pub player_id : ℕ
  pub round_id : String
  pub game_id : String
  pub kind : WagerType
  pub money : Money A
  pub failure_code : String
  pub failure_message : String

-- `WalletBalanceChangedData`
pub record BalanceChangedData (A : Type 0) : Type 0 where
  pub wallet_id : ℕ
  pub player_id : ℕ
  pub transaction_id : ℕ
  pub direction : Direction
  pub money : Money A
  pub balance_before : Money A
  pub balance_after : Money A
  pub wallet_version : ℕ

-- `WagerTransactionPendingReferenceData`
pub record PendingReferenceData (A : Type 0) : Type 0 where
  pub transaction_id : ℕ
  pub provider_id : String
  pub external_transaction_id : String
  pub reference_external_transaction_id : String
  pub wallet_id : ℕ
  pub player_id : ℕ
  pub round_id : String
  pub game_id : String
  pub kind : WagerType
  pub money : Money A

-- `EventType` with the data of its events.
pub data EventData (A : Type 0) : Type 0 where
  wager_processed : ProcessedData A → EventData A
  wager_rejected : RejectedData A → EventData A
  balance_changed : BalanceChangedData A → EventData A
  wager_pending_reference : PendingReferenceData A → EventData A

abbrev pub event_version : ℕ
event_version = 1

-- `EventEnvelope`
pub record OutboxRow (A : Type 0) : Type 0 where
  pub event_id : ℕ
  pub aggregate_id : ℕ
  pub correlation_id : String
  pub causation_id : String
  pub occurred_at : ℕ
  pub version : ℕ
  pub data_of : EventData A
