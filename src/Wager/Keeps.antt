-- ===== src/Wager/Keeps.antt =====
-- internal/domain/wager_transaction.go: a rejected or failed transaction, one that waits for its
-- reference and one whose reference is resolved keep what `RehydrateWagerTransaction` asks.
use junglegaming_test.Base.{
  ℕ, ◌≤◌, ◌≡◌, ◌≢◌, ◌⊎◌, refl, String, true, false, some, ok, arith, is_blank, inl, inr,
}
use junglegaming_test.Decimal.{Decimal}
use junglegaming_test.Wager.Kinds.{
  Status, equal_type, pending, pending_reference, processed, rejected, failed, is_terminal,
  is_allowed_reference_type, is_valid_type,
}
use junglegaming_test.Wager.State.{WagerTransaction}
use junglegaming_test.Wager.Reference.{
  mark_pending_reference, resolve_reference, validate_reference,
}
use junglegaming_test.Wager.Complete.{mark_rejected, mark_failed}
use junglegaming_test.Wager.Rehydrate.{
  validate_completed_at, validate_persisted_reference, validate_state, validate_pending_state,
}
use junglegaming_test.Wager.Stored.{fields_of, IsStorable, complete_with_failure_parts}

module _ {A : Type 0} ⦃decimal : Decimal A⦄ where
  -- The transaction that a failure leaves.
  abbrev failure_of : WagerTransaction A → Status → String → String → ℕ → WagerTransaction A
  failure_of w status code message at = record w {
    status = status;
    updated_at = at;
    failure_code = code;
    failure_message = message;
    completed_at = some at;
  }

  -- A transaction that has not ended has observed no balances.
  pub no_balances :
      (status : Status) (w : WagerTransaction A)
      → is_terminal status ≡ false
      → validate_state status (fields_of w) ≡ ok tt
      → validate_pending_state (fields_of w) ≡ ok tt
  unfolding validate_state is_terminal
  no_balances pending w open_state h = h
  no_balances pending_reference w open_state h = ground arith
  no_balances processed w open_state h = cc
  no_balances rejected w open_state h = cc
  no_balances failed w open_state h = cc
  no_balances (Status.unknown s) w open_state h = cc

  failure_state :
      (w : WagerTransaction A) (code message : String) (at : ℕ)
      → validate_pending_state (fields_of w) ≡ ok tt
      → is_blank code ≡ false
      → (validate_state rejected (fields_of (failure_of w rejected code message at)) ≡ ok tt)
        × (validate_state failed (fields_of (failure_of w failed code message at)) ≡ ok tt)
  unfolding validate_state validate_pending_state
  failure_state w code message at h known = ground arith

  failure_completed :
      (w : WagerTransaction A) (status : Status) (code message : String) (at : ℕ)
      → 1 ≤ at
      → w.created_at ≤ at
      → validate_completed_at (fields_of (failure_of w status code message at)) (some at) ≡ ok tt
  unfolding validate_completed_at
  failure_completed w status code message at h later = ground arith

  -- A failure keeps everything but the state, the failure and the times.
  failure_of-IsStorable :
      (w : WagerTransaction A) (status : Status) (code message : String) (at : ℕ)
      → IsStorable w
      → 1 ≤ at
      → w.created_at ≤ at
      → validate_state status (fields_of (failure_of w status code message at)) ≡ ok tt
      → IsStorable (failure_of w status code message at)
  unfolding validate_persisted_reference
  failure_of-IsStorable w status code message at s h later state =
      ground (arith, failure_completed w status code message at)

  -- A rejection or a failure of a storable transaction is storable.
  pub mark_rejected-IsStorable :
      (w : WagerTransaction A) (code message : String) (at : ℕ) {w' : WagerTransaction A}
      → IsStorable w
      → mark_rejected w code message at ≡ ok w'
      → IsStorable w'
  unfolding mark_rejected
  mark_rejected-IsStorable w code message at s h =
      let (e, open_state, edge, known, time, later) =
        complete_with_failure_parts w rejected code message at h in
      let state =
        failure_state w code message at (no_balances w.status w open_state s.state_fits) known in
      rw e (failure_of-IsStorable w rejected code message at s time (omega arith) state.0)

  pub mark_failed-IsStorable :
      (w : WagerTransaction A) (code message : String) (at : ℕ) {w' : WagerTransaction A}
      → IsStorable w
      → mark_failed w code message at ≡ ok w'
      → IsStorable w'
  unfolding mark_failed
  mark_failed-IsStorable w code message at s h =
      let (e, open_state, edge, known, time, later) =
        complete_with_failure_parts w failed code message at h in
      let state =
        failure_state w code message at (no_balances w.status w open_state s.state_fits) known in
      rw e (failure_of-IsStorable w failed code message at s time (omega arith) state.1)

  pub mark_pending_reference_parts :
      (w : WagerTransaction A) (at : ℕ) {w' : WagerTransaction A}
      → mark_pending_reference w at ≡ ok w'
      → (w' ≡ record w { status = pending_reference; updated_at = at })
        × (w.status ≡ pending)
        × (is_blank w.reference_external_transaction_id ≡ false)
        × (w.reference_transaction_id ≡ 0)
        × (w.updated_at ≤ at)
  unfolding mark_pending_reference is_terminal
  mark_pending_reference_parts w at h = ground arith

  -- A transaction that waits for its reference is storable.
  pub mark_pending_reference-IsStorable :
      (w : WagerTransaction A) (at : ℕ) {w' : WagerTransaction A}
      → IsStorable w
      → mark_pending_reference w at ≡ ok w'
      → IsStorable w'
  unfolding validate_state validate_persisted_reference validate_completed_at validate_pending_state
      is_terminal
  mark_pending_reference-IsStorable w at s h =
      let (e, status, named, free, later) = mark_pending_reference_parts w at h in
      let open_state = no_balances w.status w (rw status refl) s.state_fits in rw e (ground arith)

  -- The transaction with its reference stored.
  abbrev resolved_of : WagerTransaction A → WagerTransaction A → ℕ → WagerTransaction A
  resolved_of w reference at = record w {
    status = pending;
    reference_transaction_id = reference.id;
    reference_transaction_type = reference.transaction_type;
    updated_at = at;
  }

  pub resolve_reference_parts :
      (w reference : WagerTransaction A) (at : ℕ) {w' : WagerTransaction A}
      → resolve_reference w reference at ≡ ok w'
      → (((w' ≡ w)
            × (w.reference_transaction_id ≢ 0)
            × (w.reference_transaction_id ≡ reference.id)
            × (equal_type w.reference_transaction_type reference.transaction_type ≡ true))
          ⊎ ((w' ≡ resolved_of w reference at)
              × (w.reference_transaction_id ≡ 0)
              × (1 ≤ at)
              × (w.updated_at ≤ at)))
        × (validate_reference w reference ≡ ok tt)
        × ((w.status ≡ pending) ⊎ (w.status ≡ pending_reference))
  unfolding resolve_reference is_terminal
  resolve_reference_parts w reference at h = ground arith

  resolved_of-IsStorable :
      (w reference : WagerTransaction A) (at : ℕ)
      → IsStorable w
      → 1 ≤ reference.id
      → 1 ≤ at
      → w.updated_at ≤ at
      → validate_reference w reference ≡ ok tt
      → validate_pending_state (fields_of w) ≡ ok tt
      → IsStorable (resolved_of w reference at)
  unfolding validate_reference validate_state validate_persisted_reference validate_completed_at
      validate_pending_state is_allowed_reference_type is_valid_type
  resolved_of-IsStorable w reference at s named time later valid open_state = ground arith

  -- A transaction that has found its reference is storable.
  pub resolve_reference-IsStorable :
      (w reference : WagerTransaction A) (at : ℕ) {w' : WagerTransaction A}
      → IsStorable w
      → 1 ≤ reference.id
      → resolve_reference w reference at ≡ ok w'
      → IsStorable w'
  unfolding is_terminal
  resolve_reference-IsStorable w reference at s named h =
      let (e, valid, open_state) = resolve_reference_parts w reference at h in
      let pending_state = no_balances w.status w (ground arith) s.state_fits in
      elim e [
        | inl (same, _, _, _) ↦ rw same s
        | inr (moved, free, time, later) ↦
            rw moved (resolved_of-IsStorable w reference at s named time later valid pending_state)
      ]
