-- ===== src/Ingress/Handler.antt =====
-- internal/infrastructure/sqs/wager_handler.go: `Handle`. The packages that read identifiers and
-- messages and that hash texts are parameters, collected in `Codec`.
use junglegaming_test.Base.{ℕ, String, Bool, true, false, Option, none, some, List, Result, ok, err}
use junglegaming_test.Decimal.{Decimal}
use junglegaming_test.Backoff.{ReferenceRetryPolicy}
use junglegaming_test.Store.Events.{CommandMetadata}
use junglegaming_test.Store.{Environment, AppError, clock_now}
use junglegaming_test.Store.Run.{Attempts, within_transaction}
use junglegaming_test.Service.{ProcessResult}
use junglegaming_test.Service.Process.{WagerRequest}
use junglegaming_test.Service.Submit.{process_command}
use junglegaming_test.Ingress.{Desk, Work, on_store, done, register, complete, ◌>>=◌, ◌>>◌}
use junglegaming_test.Ingress.Message.{
  Envelope, HandlerError, of_application, accepted, wager_message_to_command,
}

pub record Codec (A : Type 0) : Type 0 where
  pub unmarshal : String → Option Envelope
  pub parse_uuid : String → Option ℕ
  pub hash_request : WagerRequest A → Option String
  pub hash_message : String → String

abbrev pub wager_consumer_name : String
wager_consumer_name = "wager-transactions"

abbrev pub message_metadata : Envelope → CommandMetadata
message_metadata m = record { correlation_id = m.message_id; causation_id = m.message_id }

module _ {A : Type 0} ⦃decimal : Decimal A⦄ ⦃env : Environment⦄ where
  -- The transaction of `Handle` after `Register`; `none` is a duplicate.
  unfoldable pub handle_registered :
      Codec A → ReferenceRetryPolicy → Envelope → Bool → Work A (Option (ProcessResult A))
  unfolding on_store complete process_command clock_now
  handle_registered codec policy m true = done none
  handle_registered codec policy m false = do
    result ← on_store (
        process_command codec.parse_uuid codec.hash_request policy
          (wager_message_to_command m.data_of) (message_metadata m))
    now ← on_store clock_now
    complete wager_consumer_name m.message_id now
    done (some result)

  -- The transaction of `Handle`.
  unfoldable pub handle_message :
      Codec A → ReferenceRetryPolicy → Envelope → String → Work A (Option (ProcessResult A))
  unfolding handle_registered register
  handle_message codec policy m hash = do
    completed ← register wager_consumer_name m.message_id hash
    handle_registered codec policy m completed

module _ {A : Type 0} where
  -- The error of a transaction, as the handler passes it on.
  unfoldable pub passed_on :
      {X : Type 0} → Result AppError X × Desk A → Result HandlerError X × Desk A
  passed_on (ok x, d) = (ok x, d)
  passed_on (err e, d) = (err (of_application e), d)

module _ {A : Type 0} ⦃decimal : Decimal A⦄ where
  unfoldable pub handle_accepted :
      Codec A
      → ReferenceRetryPolicy
      → String
      → Attempts
      → Desk A
      → Result HandlerError Envelope
      → Result HandlerError (Option (ProcessResult A)) × Desk A
  unfolding passed_on handle_message within_transaction
  handle_accepted codec policy body world d (err e) = (err e, d)
  handle_accepted codec policy body world d (ok m) = passed_on (
      within_transaction world
        (λ env. handle_message ⦃env = env⦄ codec policy m (codec.hash_message body)) d)

  -- `Handle`
  unfoldable pub handle :
      Codec A
      → ReferenceRetryPolicy
      → List String
      → String
      → String
      → Attempts
      → Desk A
      → Result HandlerError (Option (ProcessResult A)) × Desk A
  unfolding handle_accepted accepted
  handle codec policy providers transport_id body world d =
      handle_accepted codec policy body world d
        (accepted codec.unmarshal providers transport_id body)
