-- ===== src/Wager/Settled.antt =====
-- internal/domain/wager_transaction.go: new transactions and processed ones are storable.
use junglegaming_test.Base.{ℕ, ◌≤◌, ◌≡◌, refl, String, true, false, some, none, ok, arith, is_blank}
use junglegaming_test.Decimal.{Decimal}
use junglegaming_test.Money.{Money}
use junglegaming_test.Wager.Kinds.{pending, processed, is_terminal, unset}
use junglegaming_test.Wager.State.{WagerTransaction, NewExternalParams, is_valid_identifier}
use junglegaming_test.Wager.Create.{new_external, validate_external_wager}
use junglegaming_test.Wager.Reference.{validate_reference_ready}
use junglegaming_test.Wager.Complete.{mark_processed, validate_observed_balances}
use junglegaming_test.Wager.Rehydrate.{
  validate_completed_at, validate_persisted_reference, validate_state, validate_pending_state,
  validate_processed_state,
}
use junglegaming_test.Wager.Keeps.{no_balances}
use junglegaming_test.Wager.Stored.{fields_of, IsStorable}

identifier-not-blank : (s : String) → is_valid_identifier s ≡ true → is_blank s ≡ false
unfolding is_valid_identifier
identifier-not-blank s h = ground arith

module _ {A : Type 0} ⦃decimal : Decimal A⦄ where
  abbrev processed_of : WagerTransaction A → Money A → Money A → ℕ → WagerTransaction A
  processed_of w before after at = record w {
    status = processed;
    updated_at = at;
    balance_before = some before;
    balance_after = some after;
    completed_at = some at;
  }

  pub mark_processed_parts :
      (w : WagerTransaction A) (before after : Money A) (at : ℕ) {w' : WagerTransaction A}
      → mark_processed w before after at ≡ ok w'
      → (w' ≡ processed_of w before after at)
        × (w.status ≡ pending)
        × (validate_reference_ready w ≡ ok tt)
        × (validate_observed_balances w before after ≡ ok tt)
        × (1 ≤ at)
        × (w.updated_at ≤ at)
  unfolding mark_processed is_terminal
  mark_processed_parts w before after at h = ground arith

  processed_state :
      (w : WagerTransaction A) (before after : Money A) (at : ℕ)
      → validate_reference_ready w ≡ ok tt
      → validate_observed_balances w before after ≡ ok tt
      → validate_pending_state (fields_of w) ≡ ok tt
      → validate_processed_state (fields_of (processed_of w before after at)) ≡ ok tt
  unfolding validate_processed_state validate_pending_state validate_reference_ready
      validate_observed_balances
  processed_state w before after at ready observed open_state = ground arith

  -- A processed transaction is storable.
  pub mark_processed-IsStorable :
      (w : WagerTransaction A) (before after : Money A) (at : ℕ) {w' : WagerTransaction A}
      → IsStorable w
      → mark_processed w before after at ≡ ok w'
      → IsStorable w'
  unfolding validate_state validate_persisted_reference validate_completed_at is_terminal
  mark_processed-IsStorable w before after at s h =
      let (e, status, ready, observed, time, later) = mark_processed_parts w before after at h in
      let open_state = no_balances w.status w (rw status refl) s.state_fits in
      let state = processed_state w before after at ready observed open_state in rw e (ground arith)

  -- The transaction that a provider's parameters make.
  abbrev fresh_of : NewExternalParams A → WagerTransaction A
  fresh_of p = record {
    id = p.id;
    provider_id = p.provider_id;
    external_transaction_id = p.external_transaction_id;
    idempotency_key = p.idempotency_key;
    payload_hash = p.payload_hash;
    wallet_id = p.wallet_id;
    player_id = p.player_id;
    round_id = p.round_id;
    game_id = p.game_id;
    transaction_type = p.transaction_type;
    amount = p.amount;
    reference_external_transaction_id = p.reference_external_transaction_id;
    reference_transaction_id = 0;
    reference_transaction_type = unset;
    status = pending;
    failure_code = "";
    failure_message = "";
    balance_before = none;
    balance_after = none;
    created_at = p.created_at;
    updated_at = p.created_at;
    completed_at = none;
  }

  pub new_external_parts :
      (p : NewExternalParams A) {w : WagerTransaction A}
      → new_external p ≡ ok w
      → (w ≡ fresh_of p) × (validate_external_wager p ≡ ok tt)
  unfolding new_external
  new_external_parts p h = ground arith

  fresh_of-IsStorable :
      (p : NewExternalParams A) → validate_external_wager p ≡ ok tt → IsStorable (fresh_of p)
  unfolding validate_external_wager validate_state validate_persisted_reference
      validate_completed_at validate_pending_state
  fresh_of-IsStorable p h = ground (
    arith,
    identifier-not-blank p.provider_id,
    identifier-not-blank p.external_transaction_id,
    identifier-not-blank p.idempotency_key,
    identifier-not-blank p.round_id,
    identifier-not-blank p.game_id,
  )

  -- A new provider transaction is storable, and pending.
  pub new_external-IsStorable :
      (p : NewExternalParams A) {w : WagerTransaction A}
      → new_external p ≡ ok w
      → IsStorable w × (w.status ≡ pending) × (w.amount ≡ p.amount)
  new_external-IsStorable p h =
      let (e, valid) = new_external_parts p h in rw e (fresh_of-IsStorable p valid, refl, refl)
