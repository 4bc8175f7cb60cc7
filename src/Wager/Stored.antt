-- ===== src/Wager/Stored.antt =====
-- internal/domain/wager_transaction.go and internal/infrastructure/postgres/wager_repository.go:
-- what holds of each transaction that the methods produce, and that `RehydrateWagerTransaction` asks.
use junglegaming_test.Base.{ℕ, ◌≤◌, ◌≡◌, refl, String, true, false, some, ok, arith, is_blank}
use junglegaming_test.Decimal.{Decimal}
use junglegaming_test.Money
use junglegaming_test.Wager.Kinds.{
  Status, pending, is_valid_type, is_external, is_valid_status, is_terminal, is_allowed_transition,
}
use junglegaming_test.Wager.State.{
  WagerTransaction, validate_wager_amount, validate_external_reference,
}
use junglegaming_test.Wager.Complete.{complete_with_failure}
use junglegaming_test.Wager.Rehydrate.{
  RehydrateParams, rehydrate, validate_rehydrated_wager, validate_rehydrated_external,
  validate_completed_at, validate_persisted_reference, validate_state,
}

-- The fields of a transaction, as parameters of `RehydrateWagerTransaction`.
abbrev pub fields_of : {A : Type 0} → WagerTransaction A → RehydrateParams A
fields_of w = record {
  id = w.id;
  provider_id = w.provider_id;
  external_transaction_id = w.external_transaction_id;
  idempotency_key = w.idempotency_key;
  payload_hash = w.payload_hash;
  wallet_id = w.wallet_id;
  player_id = w.player_id;
  round_id = w.round_id;
  game_id = w.game_id;
  transaction_type = w.transaction_type;
  amount = w.amount;
  reference_external_transaction_id = w.reference_external_transaction_id;
  reference_transaction_id = w.reference_transaction_id;
  reference_transaction_type = w.reference_transaction_type;
  status = w.status;
  failure_code = w.failure_code;
  failure_message = w.failure_message;
  balance_before = w.balance_before;
  balance_after = w.balance_after;
  created_at = w.created_at;
  updated_at = w.updated_at;
  completed_at = w.completed_at;
}

validate_state_known :
    {A : Type 0} ⦃decimal : Decimal A⦄ (status : Status) (p : RehydrateParams A)
    → validate_state status p ≡ ok tt
    → is_valid_status status ≡ true
unfolding validate_state is_valid_status
validate_state_known pending p h = refl
validate_state_known (Status.unknown s) p h = cc
validate_state_known _ p h = refl

module _ {A : Type 0} ⦃decimal : Decimal A⦄ where
  -- What holds of every provider transaction.
  pub record IsStorable (w : WagerTransaction A) : Type 0 where
    pub has_id : 1 ≤ w.id
    pub has_wallet : 1 ≤ w.wallet_id
    pub has_player : 1 ≤ w.player_id
    pub named_provider : is_blank w.provider_id ≡ false
    pub named_transaction : is_blank w.external_transaction_id ≡ false
    pub named_key : is_blank w.idempotency_key ≡ false
    pub named_hash : is_blank w.payload_hash ≡ false
    pub named_round : is_blank w.round_id ≡ false
    pub named_game : is_blank w.game_id ≡ false
    pub from_provider : is_external w.transaction_type ≡ true
    pub amount_valid : Money.is_valid w.amount ≡ true
    pub amount_fits : validate_wager_amount w.transaction_type w.amount ≡ ok tt
    pub reference_fits :
        validate_external_reference w.transaction_type w.reference_external_transaction_id ≡ ok tt
    pub has_created_at : 1 ≤ w.created_at
    pub updated_after : w.created_at ≤ w.updated_at
    pub completed_within : validate_completed_at (fields_of w) w.completed_at ≡ ok tt
    pub reference_stored : validate_persisted_reference (fields_of w) ≡ ok tt
    pub state_fits : validate_state w.status (fields_of w) ≡ ok tt

  -- The fields of such a transaction are accepted and give the same transaction.
  pub rehydrate-fields_of : (w : WagerTransaction A) → IsStorable w → rehydrate (fields_of w) ≡ ok w
  unfolding rehydrate validate_rehydrated_wager validate_rehydrated_external is_external
      is_valid_type is_valid_status
  rehydrate-fields_of w s = ground (arith, validate_state_known w.status (fields_of w))

  pub complete_with_failure_parts :
      (w : WagerTransaction A) (status : Status) (code message : String) (at : ℕ)
      {w' : WagerTransaction A}
      → complete_with_failure w status code message at ≡ ok w'
      → (w' ≡ record w {
        status = status;
        updated_at = at;
        failure_code = code;
        failure_message = message;
        completed_at = some at;
      })
        × (is_terminal w.status ≡ false)
        × (is_allowed_transition w.status status ≡ true)
        × (is_blank code ≡ false)
        × (1 ≤ at)
        × (w.updated_at ≤ at)
  unfolding complete_with_failure
  complete_with_failure_parts w status code message at h = ground arith
