-- ===== src/Ingress/Consumer.antt =====
-- internal/infrastructure/sqs/consumer.go: the consumer, over the state `S` that its handler works on
-- and the errors `E`. A call of the queue may be refused. The reason that a dead letter carries is left out.
use junglegaming_test.Base.{
  ℕ, suc, String, str_eq, Bool, true, false, Option, none, some, List, [], ◌∷◌, ◌++◌, if◌then◌else◌,
  Result, ok, err,
}
use junglegaming_test.Backoff.{retry_delay}

-- `types.Message`: its identifier, text, parsed receive count and group.
pub record QueueMessage : Type 0 where
  pub message_id : String
  pub body : String
  pub receive_count : Option ℕ
  pub group_id : String

-- The calls that decide on a message: `DeleteMessage`, `ChangeMessageVisibility` and `SendMessage` to
-- the dead letter queue.
pub data QueueCall : Type 0 where
  deletes : QueueMessage → QueueCall
  delays : QueueMessage → ℕ → QueueCall
  dead_letters : QueueMessage → String → QueueCall

-- The handler, `isTransient`, the refusals of the queue, and whether the consumer is stopped before
-- the message of an index.
pub record Consumer (S E : Type 0) : Type 0 where
  pub handler : S → QueueMessage → Option E × S
  pub is_transient : E → Bool
  pub refuses : QueueCall → Option E
  pub is_stopped : ℕ → Bool

-- What a part of `PollOnce` does: its calls, its error, and the state it leaves.
pub record Polled (S E : Type 0) : Type 0 where
  pub calls : List QueueCall
  pub error : Option E
  pub state : S

-- The group of a dead letter.
unfoldable pub dead_letter_group : QueueMessage → String
dead_letter_group m = if str_eq m.group_id "" then m.message_id else m.group_id

-- `release` with the delay chosen for each message.
unfoldable pub release : (QueueMessage → ℕ) → List QueueMessage → List QueueCall
release delay_of [] = []
release delay_of (m ∷ ms) = delays m (delay_of m) ∷ release delay_of ms

abbrev pub delay_of : QueueMessage → ℕ
delay_of m = retry_delay m.receive_count

-- `len(result.Messages) > 0`
unfoldable pub any_message : List QueueMessage → Bool
any_message [] = false
any_message (m ∷ ms) = true

module _ {S E : Type 0} where
  -- `moveToDLQ`, by the outcome of `SendMessage`.
  unfoldable pub after_send : Consumer S E → QueueMessage → S → Option E → Polled S E
  after_send c m s (some e) = record {
    calls = dead_letters m (dead_letter_group m) ∷ [];
    error = some e;
    state = s;
  }
  after_send c m s none = record {
    calls = dead_letters m (dead_letter_group m) ∷ deletes m ∷ [];
    error = c.refuses (deletes m);
    state = s;
  }

  -- The `switch` of `processMessage`.
  unfoldable pub settle_message : Consumer S E → QueueMessage → S → Option E → Polled S E
  unfolding after_send dead_letter_group
  settle_message c m s none = record {
    calls = deletes m ∷ [];
    error = c.refuses (deletes m);
    state = s;
  }
  settle_message c m s (some e) =
      if c.is_transient e
      then record { calls = delays m (delay_of m) ∷ []; error = some e; state = s }
      else after_send c m s (c.refuses (dead_letters m (dead_letter_group m)))

  -- `processMessage`
  unfoldable pub process_message : Consumer S E → QueueMessage → S → Polled S E
  unfolding settle_message
  process_message c m s = let outcome = c.handler s m in settle_message c m outcome.1 outcome.0

  -- The rest of the loop after a message: an error releases the others.
  unfoldable pub go_on : List QueueMessage → Polled S E → Polled S E → Option E → Polled S E
  unfolding release
  go_on ms now later (some e) = record now { calls = now.calls ++ release delay_of ms }
  go_on ms now later none = record later { calls = now.calls ++ later.calls }

  -- The loop of `PollOnce` from the message of an index on.
  unfoldable pub poll_from : Consumer S E → ℕ → List QueueMessage → S → Polled S E
  unfolding process_message go_on release
  poll_from c i [] s = record { calls = []; error = none; state = s }
  poll_from c i (m ∷ ms) s =
      let now = process_message c m s in
      let later = poll_from c (suc i) ms now.state in
      if c.is_stopped i
      then record { calls = release (λ x. 0) (m ∷ ms); error = none; state = s }
      else go_on ms now later now.error

  -- `PollOnce`: whether there was work, and what it did. An error of `ReceiveMessage` counts unless
  -- the consumer was stopped by then.
  unfoldable pub poll_once :
      Consumer S E → Result E (List QueueMessage) → Bool → S → Bool × Polled S E
  unfolding poll_from any_message
  poll_once c (ok batch) stopped s = (any_message batch, poll_from c 0 batch s)
  poll_once c (err e) stopped s =
      (false, record { calls = []; error = if stopped then none else some e; state = s })
