-- ===== src/Ingress/Fates.antt =====
-- internal/infrastructure/sqs/consumer.go: what becomes of the messages of a batch.
use junglegaming_test.Base.{
  ℕ, suc, ◌≡◌, refl, sym, false, Option, none, some, List, [], ◌∷◌, ◌++◌, arith, inl, inr,
  Bool-cases,
}
use mathlib.Core.Path.{subst}
use junglegaming_test.Ingress.Consumer.{
  QueueMessage, QueueCall, deletes, delays, dead_letters, Consumer, Polled, dead_letter_group,
  release, delay_of, after_send, settle_message, process_message, go_on, poll_from,
}

-- The calls that a message may lead to: it is deleted after it was handled; it comes back after a
-- delay, without being deleted; it is copied to the dead letter queue after a permanent error and
-- deleted after that; or it stays, since the copy was refused.
pub data IsFate {S E : Type 0} (c : Consumer S E) (m : QueueMessage) : List QueueCall → Type 0 where
  handled : (s : S) → (c.handler s m).0 ≡ none → IsFate c m (deletes m ∷ [])
  delayed : (d : ℕ) → IsFate c m (delays m d ∷ [])
  buried :
      (s : S) (e : E)
      → (c.handler s m).0 ≡ some e
      → c.is_transient e ≡ false
      → c.refuses (dead_letters m (dead_letter_group m)) ≡ none
      → IsFate c m (dead_letters m (dead_letter_group m) ∷ deletes m ∷ [])
  kept :
      (s : S) (e x : E)
      → (c.handler s m).0 ≡ some e
      → c.is_transient e ≡ false
      → c.refuses (dead_letters m (dead_letter_group m)) ≡ some x
      → IsFate c m (dead_letters m (dead_letter_group m) ∷ [])

-- The calls are those of one fate for each message, in the order of the messages.
pub data AreFates {S E : Type 0} (c : Consumer S E)
    : List QueueMessage → List QueueCall → Type 0 where
  no_message : AreFates c [] []
  next_message :
      (m : QueueMessage) (ms : List QueueMessage) (now later : List QueueCall)
      → IsFate c m now
      → AreFates c ms later
      → AreFates c (m ∷ ms) (now ++ later)

module _ {S E : Type 0} where
  release-AreFates :
      (c : Consumer S E) (d : QueueMessage → ℕ) (ms : List QueueMessage)
      → AreFates c ms (release d ms)
  unfolding release
  release-AreFates c d [] = no_message
  release-AreFates c d (m ∷ ms) =
      next_message m ms (delays m (d m) ∷ []) (release d ms) (delayed (d m))
        (release-AreFates c d ms)

  after_send-IsFate :
      (c : Consumer S E) (m : QueueMessage) (s t : S) (e : E) (o : Option E)
      → (c.handler s m).0 ≡ some e
      → c.is_transient e ≡ false
      → c.refuses (dead_letters m (dead_letter_group m)) ≡ o
      → IsFate c m (after_send c m t o).calls
  unfolding after_send
  after_send-IsFate c m s t e none h k r = buried s e h k r
  after_send-IsFate c m s t e (some x) h k r = kept s e x h k r

  settle_message-IsFate :
      (c : Consumer S E) (m : QueueMessage) (s t : S) (o : Option E)
      → (c.handler s m).0 ≡ o
      → IsFate c m (settle_message c m t o).calls
  unfolding settle_message
  settle_message-IsFate c m s t none h = handled s h
  settle_message-IsFate c m s t (some e) h = elim (Bool-cases (c.is_transient e)) [
    | inl waits ↦ rw waits (delayed (delay_of m))
    | inr fails ↦ rw fails (after_send-IsFate c m s t e _ h fails refl)
  ]

  go_on-AreFates :
      (c : Consumer S E) (m : QueueMessage) (ms : List QueueMessage) (now later : Polled S E)
      (o : Option E)
      → IsFate c m now.calls
      → AreFates c ms later.calls
      → AreFates c (m ∷ ms) (go_on ms now later o).calls
  unfolding go_on
  go_on-AreFates c m ms now later (some e) f g =
      next_message m ms now.calls (release delay_of ms) f (release-AreFates c delay_of ms)
  go_on-AreFates c m ms now later none f g = next_message m ms now.calls later.calls f g

  -- Each message of a batch gets one fate, in the order of the batch, whether the consumer is
  -- stopped, the handler fails or the queue refuses calls: it is deleted only after it was handled,
  -- or after it failed permanently and the dead letter queue has taken it; else it stays in the
  -- queue.
  pub poll_from-AreFates :
      (c : Consumer S E) (i : ℕ) (batch : List QueueMessage) (s : S)
      → AreFates c batch (poll_from c i batch s).calls
  unfolding poll_from process_message
  poll_from-AreFates c i [] s = no_message
  poll_from-AreFates c i (m ∷ ms) s = elim (Bool-cases (c.is_stopped i)) [
    | inl stopped ↦ rw stopped (release-AreFates c (λ x. 0) (m ∷ ms))
    | inr goes ↦ rw goes (
        go_on-AreFates c m ms (process_message c m s) _ (process_message c m s).error
          (settle_message-IsFate c m s (c.handler s m).1 (c.handler s m).0 refl)
          (poll_from-AreFates c (suc i) ms (process_message c m s).state))
  ]

  settle_message-state :
      (c : Consumer S E) (m : QueueMessage) (t : S) (o : Option E)
      → (settle_message c m t o).state ≡ t
  unfolding settle_message after_send
  settle_message-state c m t o = ground arith

  go_on-keeps :
      (P : S → Type 0) (ms : List QueueMessage) (now later : Polled S E) (o : Option E)
      → P now.state
      → P later.state
      → P (go_on ms now later o).state
  unfolding go_on
  go_on-keeps P ms now later (some e) p q = p
  go_on-keeps P ms now later none p q = q

  -- What the handler keeps of its state, the loop keeps.
  pub poll_from-keeps :
      (P : S → Type 0) (c : Consumer S E)
      → ((s : S) (m : QueueMessage) → P s → P (c.handler s m).1)
      → (i : ℕ) (batch : List QueueMessage) (s : S) → P s
      → P (poll_from c i batch s).state
  unfolding poll_from process_message
  poll_from-keeps P c k i [] s p = p
  poll_from-keeps P c k i (m ∷ ms) s p =
      let q =
        subst P (sym (settle_message-state c m (c.handler s m).1 (c.handler s m).0)) (k s m p) in
      elim (Bool-cases (c.is_stopped i)) [
        | inl stopped ↦ rw stopped p
        | inr goes ↦ rw goes (
            go_on-keeps P ms (process_message c m s) _ (process_message c m s).error q
              (poll_from-keeps P c k (suc i) ms (process_message c m s).state q))
      ]
