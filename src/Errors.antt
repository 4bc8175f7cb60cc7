-- ===== src/Errors.antt =====
-- internal/domain/errors.go: the error values of the domain.
pub data DomainError : Type 0 where
  invalid_currency invalid_money currency_mismatch amount_must_be_positive : DomainError
  invalid_wallet_id invalid_player_id invalid_wallet_version : DomainError
  insufficient_funds invalid_timestamp : DomainError
  invalid_transaction_id invalid_provider_id invalid_external_transaction_id : DomainError
  invalid_idempotency_key invalid_payload_hash invalid_round_id invalid_game_id : DomainError
  invalid_wager_type invalid_wager_status invalid_wager_amount : DomainError
  invalid_wager_reference wager_reference_mismatch wager_reference_not_processed : DomainError
  invalid_wager_transition wager_transaction_terminal invalid_failure_code : DomainError
  invalid_financial_result invalid_wager_state : DomainError
  invalid_ledger_entry invalid_ledger_direction : DomainError
