-- ===== src/Outbox/Delivered.antt =====
-- internal/application/outbox_dispatcher_service.go: what holds however the steps of the workers
-- interleave and wherever they fail.
use junglegaming_test.Base.{
  ℕ, ◌+◌, ◌==◌, String, Bool, true, ◌≡◌, refl, Option, none, some, List, [], ◌∷◌, arith, inl, inr,
  Bool-cases,
}
use mathlib.Core.Path.{subst}
use junglegaming_test.Backoff.{outbox_lease_duration, outbox_retry_delay}
use junglegaming_test.Outbox.{
  Delivery, claim, claim_pending, candidate, mark_published, schedule_retry,
}
use junglegaming_test.Outbox.Sent.{
  was_sent, AllSent, more-AllSent, claim-AllSent, mark_published-AllSent, schedule_retry-AllSent,
}
use junglegaming_test.Outbox.Dispatch.{
  error_not_found, Task, idle, holding, delivered, undelivered, returned, System, Answer, fails,
  answers, Step, claims, publishes, finishes, stops, set_task, claimed_next, claim_next,
  publish_held, finish_with, finish_held, take_step, take_steps,
}

module _ {A : Type 0} where
  -- Each row that is marked as published was sent, and each worker past its publication has sent
  -- its event.
  pub record IsDelivered (s : System A) : Type 0 where
    pub rows_sent : AllSent s.sent s.rows
    pub tasks_sent :
        (w : ℕ) (d : Delivery A) → s.tasks w ≡ delivered d → was_sent d.event.event_id s.sent ≡ true

  set_task-delivered :
      (s : System A) (worker : ℕ) (t : Task A) (sent : List ℕ)
      → ((d : Delivery A) → t ≡ delivered d → was_sent d.event.event_id sent ≡ true)
      → ((w : ℕ) (d : Delivery A) → s.tasks w ≡ delivered d → was_sent d.event.event_id sent ≡ true)
      → (w : ℕ) (d : Delivery A) → set_task s.tasks worker t w ≡ delivered d
      → was_sent d.event.event_id sent ≡ true
  unfolding set_task
  set_task-delivered s worker t sent k l w d h = elim (Bool-cases (w == worker)) [
    | inl own ↦ k d (ground arith)
    | inr other ↦ l w d (ground arith)
  ]

  -- A worker whose task is not past a publication.
  quiet :
      (s : System A) (worker : ℕ) (t : Task A) (rows : List (Delivery A))
      → ((d : Delivery A) → t ≡ delivered d → was_sent d.event.event_id s.sent ≡ true)
      → AllSent s.sent rows
      → IsDelivered s
      → IsDelivered (record s { rows = rows; tasks = set_task s.tasks worker t })
  quiet s worker t rows k all v = record {
    rows_sent = all;
    tasks_sent = set_task-delivered s worker t s.sent k v.tasks_sent;
  }

  claimed_next-IsDelivered :
      (s : System A) (worker : ℕ) (c : Option (Delivery A × List (Delivery A)))
      → ((d : Delivery A) (rows : List (Delivery A)) → c ≡ some (d, rows) → AllSent s.sent rows)
      → IsDelivered s
      → IsDelivered (claimed_next s worker c)
  unfolding claimed_next
  claimed_next-IsDelivered s worker none k v =
      quiet s worker _ s.rows (λ d h. absurd (ground arith)) v.rows_sent v
  claimed_next-IsDelivered s worker (some (d, rows)) k v =
      quiet s worker _ rows (λ e h. absurd (ground arith)) (k d rows refl) v

  claim_next-IsDelivered :
      (s : System A) (worker : ℕ) (answer : Answer) (locked : ℕ → Bool)
      → IsDelivered s
      → IsDelivered (claim_next s worker answer locked)
  unfolding claim_next claim_pending
  claim_next-IsDelivered s worker (fails e) locked v =
      quiet s worker _ s.rows (λ d h. absurd (ground arith)) v.rows_sent v
  claim_next-IsDelivered s worker (answers now at) locked v =
      claimed_next-IsDelivered s worker
        (claim worker (now + outbox_lease_duration) (candidate at locked s.rows) s.rows)
        (λ d rows h.
          claim-AllSent worker (now + outbox_lease_duration) (candidate at locked s.rows) s.sent
            s.rows h v.rows_sent)
        v

  publish_held-IsDelivered :
      (s : System A) (worker : ℕ) (t : Task A) (outcome : Option String)
      → IsDelivered s
      → IsDelivered (publish_held s worker t outcome)
  unfolding publish_held was_sent
  publish_held-IsDelivered s worker (holding d) none v = record {
    rows_sent = more-AllSent d.event.event_id s.sent s.rows v.rows_sent;
    tasks_sent =
        set_task-delivered s worker (delivered d) (d.event.event_id ∷ s.sent)
          (λ e h.
            let same : d ≡ e = ground arith in
            subst (λ x. was_sent x.event.event_id (d.event.event_id ∷ s.sent) ≡ true) same
              (ground arith))
          (λ w e h. let old = v.tasks_sent w e h in ground arith);
  }
  publish_held-IsDelivered s worker (holding d) (some e) v =
      quiet s worker _ s.rows (λ x h. absurd (ground arith)) v.rows_sent v
  publish_held-IsDelivered s worker idle o v = v
  publish_held-IsDelivered s worker (delivered d) o v = v
  publish_held-IsDelivered s worker (undelivered d e) o v = v
  publish_held-IsDelivered s worker (returned b e) o v = v

  finish_with-IsDelivered :
      (s : System A) (worker : ℕ) (outcome missing : Option String) (r : Option (List (Delivery A)))
      → ((rows : List (Delivery A)) → r ≡ some rows → AllSent s.sent rows)
      → IsDelivered s
      → IsDelivered (finish_with s worker outcome missing r)
  unfolding finish_with
  finish_with-IsDelivered s worker outcome missing none k v =
      quiet s worker _ s.rows (λ d h. absurd (ground arith)) v.rows_sent v
  finish_with-IsDelivered s worker outcome missing (some rows) k v =
      quiet s worker _ rows (λ d h. absurd (ground arith)) (k rows refl) v

  finish_held-IsDelivered :
      (s : System A) (worker : ℕ) (t : Task A) (answer : Answer)
      → ((d : Delivery A) → t ≡ delivered d → was_sent d.event.event_id s.sent ≡ true)
      → IsDelivered s
      → IsDelivered (finish_held s worker t answer)
  unfolding finish_held
  finish_held-IsDelivered s worker (delivered d) (fails e) k v =
      quiet s worker _ s.rows (λ x h. absurd (ground arith)) v.rows_sent v
  finish_held-IsDelivered s worker (delivered d) (answers now at) k v =
      finish_with-IsDelivered s worker none (some error_not_found)
        (mark_published d.event.event_id worker now s.rows)
        (λ rows h.
          mark_published-AllSent d.event.event_id worker now s.sent s.rows (k d refl) h v.rows_sent)
        v
  finish_held-IsDelivered s worker (undelivered d x) (fails e) k v =
      quiet s worker _ s.rows (λ y h. absurd (ground arith)) v.rows_sent v
  finish_held-IsDelivered s worker (undelivered d x) (answers now at) k v =
      let next = now + outbox_retry_delay d.attempts in
      finish_with-IsDelivered s worker (some x) (some x)
        (schedule_retry d.event.event_id worker next s.rows)
        (λ rows h. schedule_retry-AllSent d.event.event_id worker next s.sent s.rows h v.rows_sent)
        v
  finish_held-IsDelivered s worker idle answer k v = v
  finish_held-IsDelivered s worker (holding d) answer k v = v
  finish_held-IsDelivered s worker (returned b e) answer k v = v

  take_step-IsDelivered : (x : Step) (s : System A) → IsDelivered s → IsDelivered (take_step x s)
  unfolding take_step
  take_step-IsDelivered (claims worker answer locked) s v =
      claim_next-IsDelivered s worker answer locked v
  take_step-IsDelivered (publishes worker outcome) s v =
      publish_held-IsDelivered s worker (s.tasks worker) outcome v
  take_step-IsDelivered (finishes worker answer) s v =
      finish_held-IsDelivered s worker (s.tasks worker) answer (v.tasks_sent worker) v
  take_step-IsDelivered (stops worker) s v =
      quiet s worker idle s.rows (λ d h. absurd (ground arith)) v.rows_sent v

  -- Where no event is marked as published that the publisher has not accepted, and each worker that
  -- is past its publication has sent its event, this still holds after any steps of any number of
  -- workers, whatever they interleave with, wherever a statement or a publication fails and wherever
  -- a worker stops.
  pub take_steps-IsDelivered :
      (xs : List Step) (s : System A) → IsDelivered s → IsDelivered (take_steps xs s)
  unfolding take_steps
  take_steps-IsDelivered [] s v = v
  take_steps-IsDelivered (x ∷ xs) s v =
      take_steps-IsDelivered xs (take_step x s) (take_step-IsDelivered x s v)
