-- ===== src/Service.antt =====
-- internal/application/wager_service.go and wager_reference.go: the wager service, on the state of
-- Store. A `*ProcessWagerResult` is the transaction it is built from and the flag of a replay.
pub mod Events
pub mod Process
pub mod Frame
pub mod Moves
pub mod Replaced
pub mod Reconciled
pub mod Balance
pub mod Command
pub mod Submit
pub mod Lookup
pub mod Retry
pub mod Retried
pub mod Posting
pub mod Answers
pub mod Serve
pub mod Lifetime
use junglegaming_test.Base.{
  ℕ, ◌+◌, ◌==◌, String, Bool, true, false, not, Option, none, some, Result, ok, err, if◌then◌else◌,
}
use junglegaming_test.Decimal.{Decimal}
use junglegaming_test.Errors.{
  DomainError, insufficient_funds, invalid_ledger_direction, invalid_wager_state,
  wager_reference_mismatch, invalid_wager_reference, currency_mismatch,
}
use junglegaming_test.Currency
use junglegaming_test.Money.{Money}
use junglegaming_test.Wallet
use junglegaming_test.Wallet.{Wallet}
use junglegaming_test.LedgerEntry.{Direction, debit, credit, other, LedgerEntry, new_ledger_entry}
use junglegaming_test.Wager.Kinds.{
  WagerType, rollback, Status, pending, pending_reference, processed, rejected, failed, equal_type,
  requires_reference,
}
use junglegaming_test.Wager.State.{WagerTransaction, movement_direction}
use junglegaming_test.Wager.Reference.{resolve_reference, mark_pending_reference}
use junglegaming_test.Wager.Complete.{mark_processed, mark_rejected}
use junglegaming_test.Backoff.{ReferenceRetryPolicy, next_attempt_at}
use junglegaming_test.Store.Events.{CommandMetadata}
use junglegaming_test.Store.{
  Environment, Action, AppError, of_domain, wallet_not_found, wallet_mismatch, pure, raise,
  raise_if, lift, new_uuid, ◌>>=◌, ◌>>◌,
}
use junglegaming_test.Store.Wallets.{find_wallet_for_update, update_wallet, create_entry}
use junglegaming_test.Store.Wagers.{
  update_wager, update_pending_reference, find_by_external_id, has_processed_reversal,
}
use junglegaming_test.Service.Events.{
  create_processed_event, create_balance_changed_event, create_rejected_event,
  create_pending_reference_event,
}

-- `ProcessWagerResult`
pub record ProcessResult (A : Type 0) : Type 0 where
  pub transaction : WagerTransaction A
  pub idempotent_replay : Bool

-- `wagerRejection`
pub record Rejection : Type 0 where
  pub code : String
  pub message : String

-- `referenceOutcome` of `resolveReference`
pub data ReferenceOutcome (A : Type 0) : Type 0 where
  available : WagerTransaction A → ReferenceOutcome A
  unavailable : ReferenceOutcome A
  refused : Rejection → ReferenceOutcome A

abbrev reference_not_processable : Rejection
reference_not_processable = record {
  code = "REFERENCE_NOT_PROCESSABLE";
  message = "referenced transaction did not complete successfully";
}

abbrev reference_mismatch : Rejection
reference_mismatch = record {
  code = "REFERENCE_MISMATCH";
  message =
      "referenced transaction does not match provider, player, wallet, currency, round or amount";
}

abbrev reference_type_not_allowed : Rejection
reference_type_not_allowed = record {
  code = "REFERENCE_TYPE_NOT_ALLOWED";
  message = "referenced transaction type cannot be used by this operation";
}

abbrev duplicate_reversal : Rejection
duplicate_reversal = record {
  code = "DUPLICATE_REVERSAL";
  message = "referenced transaction already has a successful direct reversal";
}

-- `insufficientFundsRejection`
unfoldable pub insufficient_funds_rejection : WagerType → Rejection
insufficient_funds_rejection t =
    if equal_type t rollback
    then record {
      code = "REVERSAL_INSUFFICIENT_FUNDS";
      message = "insufficient funds for reversal";
    }
    else record { code = "BET_INSUFFICIENT_FUNDS"; message = "insufficient funds for bet" }

module _ {A : Type 0} where
  -- The `switch` on the error of `ResolveReference`.
  unfoldable pub outcome_of :
      Result DomainError (WagerTransaction A) → Action A (ReferenceOutcome A)
  outcome_of (ok w) = pure (ReferenceOutcome.available w)
  outcome_of (err wager_reference_mismatch) = pure (ReferenceOutcome.refused reference_mismatch)
  outcome_of (err invalid_wager_reference) =
      pure (ReferenceOutcome.refused reference_type_not_allowed)
  outcome_of (err e) = raise (of_domain e)

module _ {A : Type 0} ⦃decimal : Decimal A⦄ where
  -- The `switch` on the status of the reference, and the rest of `resolveReference`.
  unfoldable pub reference_outcome :
      WagerTransaction A → WagerTransaction A → ℕ → Status → Action A (ReferenceOutcome A)
  unfolding outcome_of
  reference_outcome w reference now pending = pure ReferenceOutcome.unavailable
  reference_outcome w reference now pending_reference = pure ReferenceOutcome.unavailable
  reference_outcome w reference now rejected =
      pure (ReferenceOutcome.refused reference_not_processable)
  reference_outcome w reference now failed =
      pure (ReferenceOutcome.refused reference_not_processable)
  reference_outcome w reference now processed = outcome_of (resolve_reference w reference now)
  reference_outcome w reference now (Status.unknown s) = raise (of_domain invalid_wager_state)

  -- What `resolveReference` does with the row that it found.
  unfoldable pub found_reference :
      WagerTransaction A → ℕ → Option (WagerTransaction A) → Action A (ReferenceOutcome A)
  unfolding reference_outcome
  found_reference w now none = pure ReferenceOutcome.unavailable
  found_reference w now (some reference) = reference_outcome w reference now reference.status

  -- The `switch` on the direction in `applyMovement`.
  unfoldable pub move_wallet : Direction → Wallet A → Money A → ℕ → Result DomainError (Wallet A)
  move_wallet debit w amount now = Wallet.debit w amount now
  move_wallet credit w amount now = Wallet.credit w amount now
  move_wallet (other s) w amount now = err invalid_ledger_direction

  -- What `lockWallet` does with the row that it found.
  unfoldable pub owned_wallet : WagerTransaction A → Option (Wallet A) → Action A (Wallet A)
  unfolding raise_if
  owned_wallet w none = raise wallet_not_found
  owned_wallet w (some wallet) = do
    raise_if (not (wallet.player_id == w.player_id)) wallet_mismatch
    raise_if (not (Currency.equal wallet.balance.currency w.amount.currency))
        (of_domain currency_mismatch)
    pure wallet

module _ {A : Type 0} ⦃decimal : Decimal A⦄ ⦃env : Environment⦄ where
  -- `lockWallet`
  unfoldable pub lock_wallet : WagerTransaction A → Action A (Wallet A)
  unfolding owned_wallet
  lock_wallet w = do row ← find_wallet_for_update w.wallet_id; owned_wallet w row

  -- `resolveReference`
  unfoldable pub resolve : WagerTransaction A → ℕ → Action A (ReferenceOutcome A)
  unfolding found_reference
  resolve w now = do
    row ← find_by_external_id w.provider_id w.reference_external_transaction_id
    found_reference w now row

  -- `reject`
  unfoldable pub reject :
      WagerTransaction A → Rejection → CommandMetadata → ℕ → Action A (ProcessResult A)
  reject w rejection metadata now = do
    done ← lift (mark_rejected w rejection.code rejection.message now)
    update_wager done
    create_rejected_event done metadata now
    pure (record { transaction = done; idempotent_replay = false })

  -- `markPendingReference`
  unfoldable pub wait_for_reference :
      ReferenceRetryPolicy → WagerTransaction A → CommandMetadata → ℕ → Action A (ProcessResult A)
  wait_for_reference policy w metadata now = do
    waiting ← lift (mark_pending_reference w now)
    let expires_at = now + policy.ttl
    update_pending_reference waiting (next_attempt_at policy now expires_at 1) expires_at metadata
    create_pending_reference_event waiting metadata now
    pure (record { transaction = waiting; idempotent_replay = false })

  -- `applyMovement` where the transaction has no movement.
  unfoldable pub process_without_movement :
      Wallet A → WagerTransaction A → CommandMetadata → ℕ → Action A (ProcessResult A)
  process_without_movement wallet w metadata now = do
    done ← lift (mark_processed w wallet.balance wallet.balance now)
    update_wager done
    create_processed_event done metadata now
    pure (record { transaction = done; idempotent_replay = false })

  -- `applyMovement` after the wallet has moved.
  unfoldable pub record_movement :
      Direction
      → Wallet A
      → Wallet A
      → WagerTransaction A
      → CommandMetadata
      → ℕ
      → Action A (ProcessResult A)
  record_movement direction wallet moved w metadata now = do
    done ← lift (mark_processed w wallet.balance moved.balance now)
    update_wallet moved
    update_wager done
    id ← new_uuid
    entry ← lift (
        new_ledger_entry id moved.id done.id direction done.amount wallet.balance moved.balance now)
    create_entry entry
    create_processed_event done metadata now
    create_balance_changed_event moved entry metadata now
    pure (record { transaction = done; idempotent_replay = false })

  -- What `applyMovement` does with the outcome of the movement.
  unfoldable pub after_movement :
      Direction
      → Wallet A
      → WagerTransaction A
      → CommandMetadata
      → ℕ
      → Result DomainError (Wallet A)
      → Action A (ProcessResult A)
  unfolding reject record_movement
  after_movement direction wallet w metadata now (ok moved) =
      record_movement direction wallet moved w metadata now
  after_movement direction wallet w metadata now (err insufficient_funds) =
      reject w (insufficient_funds_rejection w.transaction_type) metadata now
  after_movement direction wallet w metadata now (err e) = raise (of_domain e)

  -- `applyMovement`
  unfoldable pub apply_movement :
      Wallet A → WagerTransaction A → CommandMetadata → ℕ → Action A (ProcessResult A)
  unfolding process_without_movement after_movement
  apply_movement wallet w metadata now = do
    movement ← lift (movement_direction w)
    (if movement.1
        then after_movement movement.0 wallet w metadata now
            (move_wallet movement.0 wallet w.amount now)
        else process_without_movement wallet w metadata now)

  -- `settle` where a reversal is wanted.
  unfoldable pub settle_reversal :
      Wallet A → WagerTransaction A → CommandMetadata → ℕ → Action A (ProcessResult A)
  unfolding reject apply_movement
  settle_reversal wallet w metadata now = do
    duplicate ← has_processed_reversal w.reference_transaction_id
    (if duplicate
        then reject w duplicate_reversal metadata now
        else apply_movement wallet w metadata now)

  -- `settle`
  unfoldable pub settle :
      Wallet A → WagerTransaction A → CommandMetadata → ℕ → Action A (ProcessResult A)
  unfolding settle_reversal apply_movement
  settle wallet w metadata now =
      if requires_reference w.transaction_type
      then settle_reversal wallet w metadata now
      else apply_movement wallet w metadata now
