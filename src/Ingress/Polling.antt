-- ===== src/Ingress/Polling.antt =====
-- internal/infrastructure/sqs/consumer.go with wager_handler.go: the consumer of wager messages.
use junglegaming_test.Base.{ℕ, String, Bool, Option, none, some, List, Result, ok, err}
use junglegaming_test.Decimal.{Decimal, DecimalLaws}
use junglegaming_test.Backoff.{ReferenceRetryPolicy}
use junglegaming_test.Store.Run.{Attempts}
use junglegaming_test.Service.Moves.{IsReconciled}
use junglegaming_test.Ingress.{Desk}
use junglegaming_test.Ingress.Message.{HandlerError}
use junglegaming_test.Ingress.Handler.{Codec, handle}
use junglegaming_test.Ingress.Balanced.{handle-IsReconciled}
use junglegaming_test.Ingress.Consumer.{QueueMessage, QueueCall, Consumer, poll_once}
use junglegaming_test.Ingress.Fates.{poll_from-keeps}

unfoldable pub error_of : {E X : Type 0} → Result E X → Option E
error_of (ok x) = none
error_of (err e) = some e

-- What the consumer is given: the tests and the calls of the queue, and the world of each message.
pub record Line : Type 0 where
  pub is_transient : HandlerError → Bool
  pub refuses : QueueCall → Option HandlerError
  pub is_stopped : ℕ → Bool
  pub during : QueueMessage → Attempts

module _ {A : Type 0} ⦃decimal : Decimal A⦄ where
  -- `NewConsumer` with the handler of wager messages.
  unfoldable pub wager_consumer :
      Codec A → ReferenceRetryPolicy → List String → Line → Consumer (Desk A) HandlerError
  unfolding handle error_of
  wager_consumer codec policy providers line = record {
    handler = λ d m.
        let outcome = handle codec policy providers m.message_id m.body (line.during m) d in
        (error_of outcome.0, outcome.1);
    is_transient = line.is_transient;
    refuses = line.refuses;
    is_stopped = line.is_stopped;
  }

module _ {A : Type 0} ⦃decimal : Decimal A⦄ ⦃laws : DecimalLaws A decimal⦄ where
  -- Where every wallet is valid, agrees with its ledger entries and no entry is without a wallet,
  -- this still holds after a poll of the queue, whatever the messages hold and whatever fails.
  pub poll_once-IsReconciled :
      (codec : Codec A) (policy : ReferenceRetryPolicy) (providers : List String) (line : Line)
      (received : Result HandlerError (List QueueMessage)) (stopped : Bool) (d : Desk A)
      → IsReconciled d.store
      → IsReconciled
          (poll_once (wager_consumer codec policy providers line) received stopped d).1.state.store
  unfolding poll_once wager_consumer
  poll_once-IsReconciled codec policy providers line (ok batch) stopped d v =
      poll_from-keeps (λ (u : Desk A). IsReconciled u.store)
        (wager_consumer codec policy providers line)
        (λ s m p.
          handle-IsReconciled codec policy providers m.message_id m.body (line.during m) s p)
        0 batch d v
  poll_once-IsReconciled codec policy providers line (err e) stopped d v = v
