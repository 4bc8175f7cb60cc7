-- ===== src/Ingress/Balanced.antt =====
-- internal/infrastructure/sqs/wager_handler.go: the handler keeps the wallets in agreement with the
-- ledger, and an error leaves everything as it was.
use junglegaming_test.Base.{
  ℕ, ◌≡◌, sym, String, Bool, true, false, Option, none, some, List, is_blank, Result, ok, err,
  arith,
}
use mathlib.Core.Path.{subst}
use junglegaming_test.Decimal.{Decimal, DecimalLaws}
use junglegaming_test.Backoff.{ReferenceRetryPolicy}
use junglegaming_test.Store.{Store, Environment, AppError, invalid_correlation_id, statement}
use junglegaming_test.Store.Run.{Attempts, within_transaction}
use junglegaming_test.Store.Attempted.{attempt-keeps}
use junglegaming_test.Store.Frame.{raise_if-KeepsMoney, clock_now-KeepsMoney, statement-KeepsMoney}
use junglegaming_test.Store.Ensures.{Ensures, bind-Ensures, keeps-Ensures}
use junglegaming_test.Service.{ProcessResult}
use junglegaming_test.Service.Moves.{IsReconciled}
use junglegaming_test.Service.Reconciled.{SameMoney-IsReconciled}
use junglegaming_test.Service.Balance.{process-IsReconciled}
use junglegaming_test.Service.Process.{WagerRequest}
use junglegaming_test.Service.Command.{ProcessWagerCommand, parse_wager_request}
use junglegaming_test.Service.Submit.{process_parsed, process_command}
use junglegaming_test.Store.Events.{CommandMetadata}
use junglegaming_test.Ingress.{
  Desk, Work, on_store, done, completed, insert_message, agreed, registered, register, complete,
  ◌>>=◌,
}
use junglegaming_test.Ingress.Message.{Envelope, HandlerError, accepted, wager_message_to_command}
use junglegaming_test.Ingress.Registered.{work_parts, on_store_parts}
use junglegaming_test.Ingress.Handler.{
  Codec, wager_consumer_name, message_metadata, handle_registered, handle_message, passed_on,
  handle_accepted, handle,
}

module _ {A : Type 0} ⦃decimal : Decimal A⦄ ⦃laws : DecimalLaws A decimal⦄ where
  abbrev IsBalanced : Desk A → Type 0
  IsBalanced d = IsReconciled d.store

  abbrev Keeps : {X : Type 0} → Work A X → Type 0
  Keeps {X} m = (d : Desk A) (x : X) (d' : Desk A) → IsBalanced d → m d ≡ ok (x, d') → IsBalanced d'

  bind-Keeps :
      {X Y : Type 0} (m : Work A X) (f : X → Work A Y)
      → Keeps m
      → ((x : X) → Keeps (f x))
      → Keeps (m >>= f)
  bind-Keeps m f k l d y d' v h =
      let (x, u, first, rest) = work_parts m f d h in l x u y d' (k d x u v first) rest

  on_store-Keeps :
      {X : Type 0} (m : Store A → Result AppError (X × Store A))
      → Ensures IsReconciled m (λ _. IsReconciled)
      → Keeps (on_store m)
  on_store-Keeps m k d x d' v h = let (e, _) = on_store_parts m d h in k d.store x d'.store v e

  same-Keeps :
      {X : Type 0} (m : Work A X)
      → ((d : Desk A) (x : X) (d' : Desk A) → m d ≡ ok (x, d') → d'.store ≡ d.store)
      → Keeps m
  same-Keeps m k d x d' v h = subst IsReconciled (sym (k d x d' h)) v

  module _ ⦃env : Environment⦄ where
    process_parsed-IsReconciled :
        (policy : ReferenceRetryPolicy) (metadata : CommandMetadata)
        (r : Result AppError (WagerRequest A))
        → Ensures IsReconciled (process_parsed policy metadata r) (λ _. IsReconciled)
    unfolding process_parsed
    process_parsed-IsReconciled policy metadata (ok r) s x s' v h =
        process-IsReconciled policy r metadata s x s' v h
    process_parsed-IsReconciled policy metadata (err e) s x s' v h = absurd (ground arith)

    process_command-IsReconciled :
        (parse_uuid : String → Option ℕ) (hash : WagerRequest A → Option String)
        (policy : ReferenceRetryPolicy) (command : ProcessWagerCommand) (metadata : CommandMetadata)
        → Ensures IsReconciled
            (process_command parse_uuid hash policy command metadata)
            (λ _. IsReconciled)
    unfolding process_command
    process_command-IsReconciled parse_uuid hash policy command metadata =
        bind-Ensures _ _ _ _ _
          (keeps-Ensures SameMoney-IsReconciled
            (raise_if-KeepsMoney A (is_blank metadata.correlation_id) invalid_correlation_id))
          (λ _.
            process_parsed-IsReconciled policy metadata
              (parse_wager_request parse_uuid hash command))

    statement-Keeps : Keeps (on_store statement)
    statement-Keeps =
        on_store-Keeps statement (keeps-Ensures SameMoney-IsReconciled (statement-KeepsMoney A))

    registered-Keeps :
        (id hash : String) (o : Option _) → Keeps (registered wager_consumer_name id hash o)
    unfolding registered insert_message agreed
    registered-Keeps id hash none = same-Keeps _ (λ d x d' h. ground arith)
    registered-Keeps id hash (some r) =
        bind-Keeps _ _ statement-Keeps (λ _. same-Keeps (agreed r hash) (λ d x d' h. ground arith))

    handle_registered-Keeps :
        (codec : Codec A) (policy : ReferenceRetryPolicy) (m : Envelope) (b : Bool)
        → Keeps (handle_registered codec policy m b)
    unfolding handle_registered complete completed
    handle_registered-Keeps codec policy m true = same-Keeps _ (λ d x d' h. ground arith)
    handle_registered-Keeps codec policy m false =
        bind-Keeps _ _
          (on_store-Keeps _ (
            process_command-IsReconciled codec.parse_uuid codec.hash_request policy
              (wager_message_to_command m.data_of) (message_metadata m)))
          (λ result.
            bind-Keeps _ _
              (on_store-Keeps _ (keeps-Ensures SameMoney-IsReconciled (clock_now-KeepsMoney A)))
              (λ now.
                bind-Keeps _ _
                  (bind-Keeps _ _ statement-Keeps (λ _.
                    same-Keeps (completed wager_consumer_name m.message_id now)
                      (λ d x d' h. ground arith)))
                  (λ _. same-Keeps (done (some result)) (λ d x d' h. ground arith))))

    handle_message-Keeps :
        (codec : Codec A) (policy : ReferenceRetryPolicy) (m : Envelope) (hash : String)
        → Keeps (handle_message codec policy m hash)
    unfolding handle_message register
    handle_message-Keeps codec policy m hash =
        bind-Keeps _ _
          (bind-Keeps _ _ statement-Keeps
            (λ _. λ d x d' v h. registered-Keeps m.message_id hash _ d x d' v h))
          (handle_registered-Keeps codec policy m)

  passed_on-state :
      {X : Type 0} (p : Result AppError X × Desk A)
      → IsReconciled p.1.store
      → IsReconciled (passed_on p).1.store
  unfolding passed_on
  passed_on-state (ok x, d) v = v
  passed_on-state (err e, d) v = v

  handle_accepted-IsReconciled :
      (codec : Codec A) (policy : ReferenceRetryPolicy) (body : String) (world : Attempts)
      (d : Desk A) (r : Result HandlerError Envelope)
      → IsReconciled d.store
      → IsReconciled (handle_accepted codec policy body world d r).1.store
  unfolding handle_accepted within_transaction
  handle_accepted-IsReconciled codec policy body world d (err e) v = v
  handle_accepted-IsReconciled codec policy body world d (ok m) v =
      let transaction : Environment → Work A (Option (ProcessResult A)) =
        λ env. handle_message ⦃env = env⦄ codec policy m (codec.hash_message body) in
      passed_on-state (within_transaction world transaction d) (
        attempt-keeps (λ (u : Desk A). IsReconciled u.store) world transaction 2 d
          (λ env u x d' w h.
            handle_message-Keeps ⦃env = env⦄ codec policy m (codec.hash_message body) u x d' w h)
          v)

  -- `Handle` keeps each balance equal to the sum of the entries.
  pub handle-IsReconciled :
      (codec : Codec A) (policy : ReferenceRetryPolicy) (providers : List String)
      (transport_id body : String) (world : Attempts) (d : Desk A)
      → IsReconciled d.store
      → IsReconciled (handle codec policy providers transport_id body world d).1.store
  unfolding handle
  handle-IsReconciled codec policy providers transport_id body world d v =
      handle_accepted-IsReconciled codec policy body world d
        (accepted codec.unmarshal providers transport_id body) v
