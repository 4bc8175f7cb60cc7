-- ===== src/Ingress/Once.antt =====
-- internal/infrastructure/sqs/wager_handler.go: a message that was handled is not handled again, and
-- the handler keeps the wallets in agreement with the ledger.
use junglegaming_test.Base.{
  ℕ, ◌+◌, ◌≡◌, refl, sym, ◌∙◌, String, Bool, true, false, Option, none, some, ok, arith,
}
use mathlib.Core.Path.{subst}
use junglegaming_test.Decimal.{Decimal}
use junglegaming_test.Backoff.{ReferenceRetryPolicy}
use junglegaming_test.Store.{Environment, clock_now, statement}
use junglegaming_test.Service.{ProcessResult}
use junglegaming_test.Service.Submit.{process_command}
use junglegaming_test.Ingress.{Desk, on_store, done, completed, register, complete, ◌>>=◌, ◌>>◌}
use junglegaming_test.Ingress.Message.{Envelope, wager_message_to_command}
use junglegaming_test.Ingress.Registered.{
  IsHandled, IsKnown, work_parts, on_store_parts, completed-IsHandled, register_parts,
  register_again,
}
use junglegaming_test.Ingress.Kept.{Handling, Handling-keeps}
use junglegaming_test.Ingress.Handler.{
  Codec, wager_consumer_name, message_metadata, handle_registered, handle_message,
}

module _ {A : Type 0} ⦃decimal : Decimal A⦄ where
  complete-IsHandled :
      ⦃env : Environment⦄ (id hash : String) (at : ℕ) (d d' : Desk A) {x : Unit}
      → IsKnown id hash d.inbox
      → complete wager_consumer_name id at d ≡ ok (x, d')
      → IsHandled id hash d'.inbox
  unfolding complete
  complete-IsHandled id hash at d d' known h =
      let (_, u, first, second) =
        work_parts (on_store statement) (λ _. completed wager_consumer_name id at) d h in
      let (_, kept) = on_store_parts statement d first in
      completed-IsHandled id hash at u d' (subst (IsKnown id hash) (sym kept) known) second

  handle_registered-IsHandled :
      ⦃env : Environment⦄ (codec : Codec A) (policy : ReferenceRetryPolicy) (m : Envelope)
      (hash : String) (b : Bool) (d d' : Desk A) (r : Option (ProcessResult A))
      → ((b ≡ true) → IsHandled m.message_id hash d.inbox)
      → ((b ≡ false) → IsKnown m.message_id hash d.inbox)
      → handle_registered codec policy m b d ≡ ok (r, d')
      → IsHandled m.message_id hash d'.inbox
  unfolding handle_registered
  handle_registered-IsHandled codec policy m hash true d d' r k l h =
      let same : d ≡ d' = ground arith in
      subst (λ (u : Desk A). IsHandled m.message_id hash u.inbox) same (k refl)
  handle_registered-IsHandled codec policy m hash false d d' r k l h =
      let process =
        process_command codec.parse_uuid codec.hash_request policy
          (wager_message_to_command m.data_of) (message_metadata m) in
      let (x, u, first, rest) =
        work_parts (on_store process)
          (λ result. on_store clock_now >>= λ now.
            complete wager_consumer_name m.message_id now >> done (some result))
          d h in
      let (now, v, second, rest') =
        work_parts (on_store clock_now)
          (λ now. complete wager_consumer_name m.message_id now >> done (some x)) u rest in
      let (_, w, third, last) =
        work_parts (complete wager_consumer_name m.message_id now) (λ _. done (some x)) v rest' in
      let (_, kept) = on_store_parts process d first in
      let (_, kept') = on_store_parts clock_now u second in
      let same : w ≡ d' = ground arith in
      subst (λ (t : Desk A). IsHandled m.message_id hash t.inbox) same
        (complete-IsHandled m.message_id hash now v w
          (subst (IsKnown m.message_id hash) (sym (kept' ∙ kept)) (l refl)) third)

  -- A transaction of the handler that succeeds leaves the message handled.
  handle_message-IsHandled :
      ⦃env : Environment⦄ (codec : Codec A) (policy : ReferenceRetryPolicy) (m : Envelope)
      (hash : String) (d d' : Desk A) (r : Option (ProcessResult A))
      → handle_message codec policy m hash d ≡ ok (r, d')
      → IsHandled m.message_id hash d'.inbox
  unfolding handle_message
  handle_message-IsHandled codec policy m hash d d' r h =
      let (b, u, first, rest) =
        work_parts (register wager_consumer_name m.message_id hash)
          (handle_registered codec policy m) d h in
      let (k, l) = register_parts m.message_id hash d first in
      handle_registered-IsHandled codec policy m hash b u d' r k l rest

  again :
      ⦃env : Environment⦄ (codec : Codec A) (policy : ReferenceRetryPolicy) (m : Envelope)
      (hash : String) (d : Desk A) {u : Desk A}
      → register wager_consumer_name m.message_id hash d ≡ ok (true, u)
      → handle_message codec policy m hash d ≡ ok (none, u)
  unfolding handle_message handle_registered
  again codec policy m hash d h = ground arith

  -- Once a message was handled, handling it again on a working database succeeds as a duplicate and
  -- changes nothing but the count of statements: no transaction is made and no wallet moves. This
  -- holds whatever messages were handled in between, in any environments, and whatever became of the
  -- tables other than the inbox.
  pub handle_message_again :
      (first second : Environment) (codec : Codec A) (policy : ReferenceRetryPolicy) (m : Envelope)
      (hash : String) (d d' later : Desk A) (r : Option (ProcessResult A))
      → handle_message ⦃env = first⦄ codec policy m hash d ≡ ok (r, d')
      → Handling d' later
      → second.fault later.store.steps ≡ none
      → second.fault (later.store.steps + 1) ≡ none
      → handle_message ⦃env = second⦄ codec policy m hash later
        ≡ ok (
          none,
          record later { store = record later.store { steps = later.store.steps + 1 + 1 } },
        )
  handle_message_again first second codec policy m hash d d' later r h between calm still =
      again ⦃env = second⦄ codec policy m hash later (
        register_again ⦃env = second⦄ m.message_id hash later
          (Handling-keeps m.message_id hash d' later between
            (handle_message-IsHandled ⦃env = first⦄ codec policy m hash d d' r h))
          calm still)
