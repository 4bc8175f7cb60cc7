-- ===== src/Service/Frame.antt =====
-- internal/application/wager_service.go and wager_reference.go: the paths of the service that leave
-- the wallets and the ledger as they are.
use junglegaming_test.Base.{ℕ, Option, none, some, Result, arith}
use junglegaming_test.Decimal.{Decimal}
use junglegaming_test.Errors.{DomainError}
use junglegaming_test.Wallet.{Wallet}
use junglegaming_test.Wager.State.{WagerTransaction}
use junglegaming_test.Wager.Kinds.{Status, processed}
use junglegaming_test.Wager.Reference.{resolve_reference}
use junglegaming_test.Backoff.{ReferenceRetryPolicy}
use junglegaming_test.Store.Events.{CommandMetadata}
use junglegaming_test.Store.{Environment}
use junglegaming_test.Store.Frame.{
  KeepsMoney, bind-KeepsMoney, pure-KeepsMoney, raise_if-KeepsMoney, lift-KeepsMoney,
  create_event-KeepsMoney, update_wager-KeepsMoney, update_pending_reference-KeepsMoney,
  find_by_external_id-KeepsMoney, find_by_key-KeepsMoney,
}
use junglegaming_test.Service.{
  Rejection, outcome_of, reference_outcome, found_reference, resolve, reject, wait_for_reference,
  process_without_movement,
}
use junglegaming_test.Service.Events.{
  create_processed_event, create_rejected_event, create_pending_reference_event,
}
use junglegaming_test.Service.Process.{
  WagerRequest, replay, conflict, resolve_found, resolve_existing,
}

outcome_of-KeepsMoney :
    (A : Type 0) (r : Result DomainError (WagerTransaction A)) → KeepsMoney (outcome_of r)
unfolding outcome_of
outcome_of-KeepsMoney A r s x s' h = ground arith

module _ {A : Type 0} ⦃decimal : Decimal A⦄ where
  reference_outcome-KeepsMoney :
      (w reference : WagerTransaction A) (now : ℕ) (status : Status)
      → KeepsMoney (reference_outcome w reference now status)
  unfolding reference_outcome
  reference_outcome-KeepsMoney w reference now processed s x s' h =
      outcome_of-KeepsMoney A (resolve_reference w reference now) s x s' h
  reference_outcome-KeepsMoney w reference now _ s x s' h = ground arith

  found_reference-KeepsMoney :
      (w : WagerTransaction A) (now : ℕ) (row : Option (WagerTransaction A))
      → KeepsMoney (found_reference w now row)
  unfolding found_reference
  found_reference-KeepsMoney w now none s x s' h = ground arith
  found_reference-KeepsMoney w now (some r) s x s' h =
      reference_outcome-KeepsMoney w r now r.status s x s' h

module _ {A : Type 0} ⦃decimal : Decimal A⦄ ⦃env : Environment⦄ where
  pub resolve-KeepsMoney : (w : WagerTransaction A) (now : ℕ) → KeepsMoney (resolve w now)
  unfolding resolve
  resolve-KeepsMoney w now =
      bind-KeepsMoney _ _ (find_by_external_id-KeepsMoney _ _)
        (λ row. found_reference-KeepsMoney w now row)

  create_rejected_event-KeepsMoney :
      (w : WagerTransaction A) (metadata : CommandMetadata) (now : ℕ)
      → KeepsMoney (create_rejected_event w metadata now)
  unfolding create_rejected_event
  create_rejected_event-KeepsMoney w metadata now = create_event-KeepsMoney _ metadata now _

  pub create_processed_event-KeepsMoney :
      (w : WagerTransaction A) (metadata : CommandMetadata) (now : ℕ)
      → KeepsMoney (create_processed_event w metadata now)
  unfolding create_processed_event
  create_processed_event-KeepsMoney w metadata now =
      bind-KeepsMoney _ _ (lift-KeepsMoney A _) (λ d. create_event-KeepsMoney _ metadata now _)

  create_pending_reference_event-KeepsMoney :
      (w : WagerTransaction A) (metadata : CommandMetadata) (now : ℕ)
      → KeepsMoney (create_pending_reference_event w metadata now)
  unfolding create_pending_reference_event
  create_pending_reference_event-KeepsMoney w metadata now =
      create_event-KeepsMoney _ metadata now _

  -- A rejection moves no money.
  pub reject-KeepsMoney :
      (w : WagerTransaction A) (rejection : Rejection) (metadata : CommandMetadata) (now : ℕ)
      → KeepsMoney (reject w rejection metadata now)
  unfolding reject
  reject-KeepsMoney w rejection metadata now = bind-KeepsMoney _ _ (lift-KeepsMoney A _) (λ done.
      bind-KeepsMoney _ _ (update_wager-KeepsMoney done) (λ _.
        bind-KeepsMoney _ _ (create_rejected_event-KeepsMoney done metadata now)
          (λ _. pure-KeepsMoney A _)))

  -- Waiting for a reference moves no money.
  pub wait_for_reference-KeepsMoney :
      (policy : ReferenceRetryPolicy) (w : WagerTransaction A) (metadata : CommandMetadata)
      (now : ℕ)
      → KeepsMoney (wait_for_reference policy w metadata now)
  unfolding wait_for_reference
  wait_for_reference-KeepsMoney policy w metadata now =
      bind-KeepsMoney _ _ (lift-KeepsMoney A _) (λ v.
        bind-KeepsMoney _ _ (update_pending_reference-KeepsMoney v _ _ metadata) (λ _.
          bind-KeepsMoney _ _ (create_pending_reference_event-KeepsMoney v metadata now)
            (λ _. pure-KeepsMoney A _)))

  pub process_without_movement-KeepsMoney :
      (wallet : Wallet A) (w : WagerTransaction A) (metadata : CommandMetadata) (now : ℕ)
      → KeepsMoney (process_without_movement wallet w metadata now)
  unfolding process_without_movement
  process_without_movement-KeepsMoney wallet w metadata now =
      bind-KeepsMoney _ _ (lift-KeepsMoney A _) (λ done.
        bind-KeepsMoney _ _ (update_wager-KeepsMoney done) (λ _.
          bind-KeepsMoney _ _ (create_processed_event-KeepsMoney done metadata now)
            (λ _. pure-KeepsMoney A _)))

  replay-KeepsMoney :
      (r : WagerRequest A) (existing : WagerTransaction A) → KeepsMoney (replay r existing)
  unfolding replay
  replay-KeepsMoney r existing =
      bind-KeepsMoney _ _ (raise_if-KeepsMoney A _ _) (λ _. pure-KeepsMoney A _)

  conflict-KeepsMoney : (other : Option (WagerTransaction A)) → KeepsMoney (conflict other)
  unfolding conflict
  conflict-KeepsMoney other s x s' h = ground arith

  resolve_found-KeepsMoney :
      (r : WagerRequest A) (row : Option (WagerTransaction A)) → KeepsMoney (resolve_found r row)
  unfolding resolve_found
  resolve_found-KeepsMoney r (some existing) = replay-KeepsMoney r existing
  resolve_found-KeepsMoney r none =
      bind-KeepsMoney _ _ (find_by_external_id-KeepsMoney _ _) (λ row. conflict-KeepsMoney row)

  -- The answer to a request that was made before moves no money.
  pub resolve_existing-KeepsMoney : (r : WagerRequest A) → KeepsMoney (resolve_existing r)
  unfolding resolve_existing
  resolve_existing-KeepsMoney r =
      bind-KeepsMoney _ _ (find_by_key-KeepsMoney _ _) (λ row. resolve_found-KeepsMoney r row)
