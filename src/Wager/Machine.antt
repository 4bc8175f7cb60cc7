-- ===== src/Wager/Machine.antt =====
-- internal/domain/wager_transaction.go: the life of a provider transaction, as sequences of
-- successful method calls in any order.
use junglegaming_test.Base.{ℕ, ◌≤◌, ◌≡◌, refl, String, true, ok, err, arith, ◌⊎◌, inl, inr}
use junglegaming_test.Decimal.{Decimal}
use junglegaming_test.Errors.{wager_transaction_terminal}
use junglegaming_test.Money.{Money}
use junglegaming_test.Wager.Kinds.{
  Status, pending, pending_reference, processed, rejected, failed, is_terminal,
  is_allowed_transition,
}
use junglegaming_test.Wager.State.{WagerTransaction, NewExternalParams}
use junglegaming_test.Wager.Create.{new_external}
use junglegaming_test.Wager.Reference.{mark_pending_reference, resolve_reference}
use junglegaming_test.Wager.Complete.{mark_rejected, mark_failed, mark_processed}
use junglegaming_test.Wager.Rehydrate.{rehydrate, validate_state}
use junglegaming_test.Wager.Stored.{
  fields_of, IsStorable, rehydrate-fields_of, complete_with_failure_parts,
}
use junglegaming_test.Wager.Keeps.{
  mark_rejected-IsStorable, mark_failed-IsStorable, mark_pending_reference-IsStorable,
  resolve_reference-IsStorable, resolve_reference_parts, mark_pending_reference_parts,
}
use junglegaming_test.Wager.Settled.{
  mark_processed-IsStorable, new_external-IsStorable, mark_processed_parts,
}

-- The diagram of the states; `resolve` also keeps a pending transaction pending.
infix 40 ◌⟶◌
pub data ◌⟶◌ : Status → Status → Type 0 where
  wait : pending ⟶ pending_reference
  resolve : pending_reference ⟶ pending
  stay : pending ⟶ pending
  process : pending ⟶ processed
  reject : pending ⟶ rejected
  fail : pending ⟶ failed
  expire : pending_reference ⟶ rejected
  abandon : pending_reference ⟶ failed

to_rejected : (from : Status) → is_allowed_transition from rejected ≡ true → from ⟶ rejected
unfolding is_allowed_transition
to_rejected pending h = reject
to_rejected pending_reference h = expire
to_rejected _ h = cc

to_failed : (from : Status) → is_allowed_transition from failed ≡ true → from ⟶ failed
unfolding is_allowed_transition
to_failed pending h = fail
to_failed pending_reference h = abandon
to_failed _ h = cc

module _ {A : Type 0} ⦃decimal : Decimal A⦄ where
  -- One successful call of a method; a reference has an identifier.
  pub data Step (w w' : WagerTransaction A) : Type 0 where
    waits : (at : ℕ) → mark_pending_reference w at ≡ ok w' → Step w w'
    resolves :
        (reference : WagerTransaction A) (at : ℕ)
        → 1 ≤ reference.id
        → resolve_reference w reference at ≡ ok w'
        → Step w w'
    processes :
        (before after : Money A) (at : ℕ) → mark_processed w before after at ≡ ok w' → Step w w'
    rejects : (code message : String) (at : ℕ) → mark_rejected w code message at ≡ ok w' → Step w w'
    fails : (code message : String) (at : ℕ) → mark_failed w code message at ≡ ok w' → Step w w'

  -- Any number of calls on the transaction `w`.
  pub data Reach (w : WagerTransaction A) : WagerTransaction A → Type 0 where
    here : Reach w w
    next : {u v : WagerTransaction A} → Reach w u → Step u v → Reach w v

  -- What no method changes, and the time that only grows.
  pub record IsSameOperation (w w' : WagerTransaction A) : Type 0 where
    pub same_id : w'.id ≡ w.id
    pub same_provider : w'.provider_id ≡ w.provider_id
    pub same_external_id : w'.external_transaction_id ≡ w.external_transaction_id
    pub same_key : w'.idempotency_key ≡ w.idempotency_key
    pub same_hash : w'.payload_hash ≡ w.payload_hash
    pub same_wallet : w'.wallet_id ≡ w.wallet_id
    pub same_player : w'.player_id ≡ w.player_id
    pub same_round : w'.round_id ≡ w.round_id
    pub same_game : w'.game_id ≡ w.game_id
    pub same_type : w'.transaction_type ≡ w.transaction_type
    pub same_amount : w'.amount ≡ w.amount
    pub same_reference : w'.reference_external_transaction_id ≡ w.reference_external_transaction_id
    pub same_created_at : w'.created_at ≡ w.created_at
    pub later : w.updated_at ≤ w'.updated_at

  Step-IsStorable : {w w' : WagerTransaction A} → Step w w' → IsStorable w → IsStorable w'
  Step-IsStorable {w} (waits at h) s = mark_pending_reference-IsStorable w at s h
  Step-IsStorable {w} (resolves r at named h) s = resolve_reference-IsStorable w r at s named h
  Step-IsStorable {w} (processes b a at h) s = mark_processed-IsStorable w b a at s h
  Step-IsStorable {w} (rejects c m at h) s = mark_rejected-IsStorable w c m at s h
  Step-IsStorable {w} (fails c m at h) s = mark_failed-IsStorable w c m at s h

  Reach-keeps : {w w' : WagerTransaction A} → IsStorable w → Reach w w' → IsStorable w'
  Reach-keeps s here = s
  Reach-keeps s (next r st) = Step-IsStorable st (Reach-keeps s r)

  -- Whatever is called on a new provider transaction, it stays storable.
  pub Reach-IsStorable :
      (p : NewExternalParams A) {w w' : WagerTransaction A}
      → new_external p ≡ ok w
      → Reach w w'
      → IsStorable w'
  Reach-IsStorable p h r = Reach-keeps (new_external-IsStorable p h).0 r

  -- Whatever is called on a new provider transaction, `RehydrateWagerTransaction` accepts its fields.
  pub Reach-rehydrate :
      (p : NewExternalParams A) {w w' : WagerTransaction A}
      → new_external p ≡ ok w
      → Reach w w'
      → rehydrate (fields_of w') ≡ ok w'
  Reach-rehydrate p {w} {w'} h r = rehydrate-fields_of w' (Reach-IsStorable p h r)

  Step-IsSameOperation : {w w' : WagerTransaction A} → Step w w' → IsSameOperation w w'
  unfolding mark_rejected mark_failed
  Step-IsSameOperation {w} (waits at h) =
      let (e, _, _, _, later) = mark_pending_reference_parts w at h in rw e (ground arith)
  Step-IsSameOperation {w} (resolves r at named h) = elim (resolve_reference_parts w r at h).0 [
    | inl (same, _, _, _) ↦ rw same (ground arith)
    | inr (moved, _, _, later) ↦ rw moved (ground arith)
  ]
  Step-IsSameOperation {w} (processes b a at h) =
      let (e, _, _, _, _, later) = mark_processed_parts w b a at h in rw e (ground arith)
  Step-IsSameOperation {w} (rejects c m at h) =
      let (e, _, _, _, _, later) = complete_with_failure_parts w rejected c m at h in
      rw e (ground arith)
  Step-IsSameOperation {w} (fails c m at h) =
      let (e, _, _, _, _, later) = complete_with_failure_parts w failed c m at h in
      rw e (ground arith)

  -- No sequence of successful method calls, in which each reference has an identifier, changes the
  -- identifiers, the type, the amount, the named reference or the creation time of a transaction,
  -- and the time of its last update never decreases.
  pub Reach-IsSameOperation : {w w' : WagerTransaction A} → Reach w w' → IsSameOperation w w'
  Reach-IsSameOperation here = ground arith
  Reach-IsSameOperation (next r st) =
      let before = Reach-IsSameOperation r in let after = Step-IsSameOperation st in ground arith

  waits_unresolved :
      (w : WagerTransaction A)
      → IsStorable w
      → w.status ≡ pending_reference
      → w.reference_transaction_id ≡ 0
  unfolding validate_state
  waits_unresolved w s h = ground arith

  -- Each call on a storable transaction follows the diagram.
  pub Step-⟶ : {w w' : WagerTransaction A} → IsStorable w → Step w w' → w.status ⟶ w'.status
  unfolding mark_rejected mark_failed
  Step-⟶ {w} s (waits at h) =
      let (e, status, _, _, _) = mark_pending_reference_parts w at h in rw (e, status) wait
  Step-⟶ {w} s (resolves r at named h) =
      let (e, valid, open_state) = resolve_reference_parts w r at h in
      elim e [
        | inl (same, known, _, _) ↦ elim open_state [
          | inl p ↦ rw (same, p) stay
          | inr q ↦ absurd (known (waits_unresolved w s q))
        ]
        | inr (moved, _, _, _) ↦ elim open_state [
          | inl p ↦ rw (moved, p) stay
          | inr q ↦ rw (moved, q) resolve
        ]
      ]
  Step-⟶ {w} s (processes b a at h) =
      let (e, status, _, _, _, _) = mark_processed_parts w b a at h in rw (e, status) process
  Step-⟶ {w} s (rejects c m at h) =
      let (e, _, edge, _, _, _) = complete_with_failure_parts w rejected c m at h in
      rw e (to_rejected w.status edge)
  Step-⟶ {w} s (fails c m at h) =
      let (e, _, edge, _, _, _) = complete_with_failure_parts w failed c m at h in
      rw e (to_failed w.status edge)

  -- From a new provider transaction on, each successful method call, on a reference that has an
  -- identifier, takes the state along an edge of the diagram: pending to pending, pending-reference
  -- or an end, pending-reference to pending, rejected or failed.
  pub Reach-follows :
      (p : NewExternalParams A) {w u v : WagerTransaction A}
      → new_external p ≡ ok w
      → Reach w u
      → Step u v
      → u.status ⟶ v.status
  Reach-follows p h r st = Step-⟶ (Reach-IsStorable p h r) st

  -- Every method refuses the transaction with the error of a finished one.
  pub record IsFinal (w : WagerTransaction A) : Type 0 where
    pub never_waits : (at : ℕ) → mark_pending_reference w at ≡ err wager_transaction_terminal
    pub never_resolves :
        (reference : WagerTransaction A) (at : ℕ)
        → resolve_reference w reference at ≡ err wager_transaction_terminal
    pub never_processes :
        (before after : Money A) (at : ℕ)
        → mark_processed w before after at ≡ err wager_transaction_terminal
    pub never_rejects :
        (code message : String) (at : ℕ)
        → mark_rejected w code message at ≡ err wager_transaction_terminal
    pub never_fails :
        (code message : String) (at : ℕ)
        → mark_failed w code message at ≡ err wager_transaction_terminal

  terminal_refuses : (w : WagerTransaction A) → is_terminal w.status ≡ true → IsFinal w
  unfolding mark_pending_reference resolve_reference mark_processed mark_rejected mark_failed
  terminal_refuses w h = record {
    never_waits = λ at. rw h;
    never_resolves = λ reference at. rw h;
    never_processes = λ before after at. rw h;
    never_rejects = λ code message at. rw h;
    never_fails = λ code message at. rw h;
  }

  -- What the three methods that finish a transaction answer refuses every further call of a method,
  -- whatever its arguments.
  pub finished-IsFinal :
      (w w' : WagerTransaction A) (before after : Money A) (code message : String) (at : ℕ)
      → (mark_processed w before after at ≡ ok w')
        ⊎ (mark_rejected w code message at ≡ ok w')
        ⊎ (mark_failed w code message at ≡ ok w')
      → IsFinal w'
  unfolding mark_rejected mark_failed is_terminal
  finished-IsFinal w w' b a c m at (inl h) =
      let (e, _, _, _, _, _) = mark_processed_parts w b a at h in terminal_refuses w' (rw e refl)
  finished-IsFinal w w' b a c m at (inr (inl h)) =
      let (e, _, _, _, _, _) = complete_with_failure_parts w rejected c m at h in
      terminal_refuses w' (rw e refl)
  finished-IsFinal w w' b a c m at (inr (inr h)) =
      let (e, _, _, _, _, _) = complete_with_failure_parts w failed c m at h in
      terminal_refuses w' (rw e refl)
