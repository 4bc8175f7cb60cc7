-- ===== src/Outbox/Dispatch.antt =====
-- internal/application/outbox_dispatcher_service.go: `DispatchNext` as the steps of a worker, each
-- of which is one statement or one call of the publisher, so that the steps of several workers can
-- interleave. A worker may stop between any two of its steps, and start anew at any time. The
-- error of a failed publication stands also for that error joined with a later one.
use junglegaming_test.Base.{
  ℕ, ◌+◌, ◌==◌, String, Bool, true, false, Option, none, some, List, [], ◌∷◌, if◌then◌else◌,
}
use junglegaming_test.Backoff.{outbox_lease_duration, outbox_retry_delay}
use junglegaming_test.Outbox.{Delivery, claim_pending, mark_published, schedule_retry}

-- Where a worker is in `DispatchNext`: not in it, after `ClaimPending`, after a `Publish` that
-- succeeded or failed, or back with the Boolean and the error.
pub data Task (A : Type 0) : Type 0 where
  idle : Task A
  holding : Delivery A → Task A
  delivered : Delivery A → Task A
  undelivered : Delivery A → String → Task A
  returned : Bool → Option String → Task A

-- The rows, the workers, and the identifiers that the publisher has accepted, the last first.
pub record System (A : Type 0) : Type 0 where
  pub rows : List (Delivery A)
  pub tasks : ℕ → Task A
  pub sent : List ℕ

-- What the world answers to a statement: an error, or the clock of the worker before it and that
-- of the database in it.
pub data Answer : Type 0 where
  fails : String → Answer
  answers : ℕ → ℕ → Answer

-- A step of a worker. `stop` ends its process.
pub data Step : Type 0 where
  claims : ℕ → Answer → (ℕ → Bool) → Step
  publishes : ℕ → Option String → Step
  finishes : ℕ → Answer → Step
  stops : ℕ → Step

abbrev pub error_not_found : String
error_not_found = "not found"

module _ {A : Type 0} where
  unfoldable pub set_task : (ℕ → Task A) → ℕ → Task A → ℕ → Task A
  set_task tasks worker t w = if w == worker then t else tasks w

  -- `Clock.Now` and `ClaimPending`.
  unfoldable pub claimed_next : System A → ℕ → Option (Delivery A × List (Delivery A)) → System A
  unfolding set_task
  claimed_next s worker none = record s { tasks = set_task s.tasks worker (returned false none) }
  claimed_next s worker (some (d, rows)) = record s {
    rows = rows;
    tasks = set_task s.tasks worker (holding d);
  }

  unfoldable pub claim_next : System A → ℕ → Answer → (ℕ → Bool) → System A
  unfolding claimed_next claim_pending set_task
  claim_next s worker (fails e) locked = record s {
    tasks = set_task s.tasks worker (returned false (some e));
  }
  claim_next s worker (answers now at) locked =
      claimed_next s worker (claim_pending at locked worker (now + outbox_lease_duration) s.rows)

  -- `Publish`
  unfoldable pub publish_held : System A → ℕ → Task A → Option String → System A
  unfolding set_task
  publish_held s worker (holding d) none = record s {
    tasks = set_task s.tasks worker (delivered d);
    sent = d.event.event_id ∷ s.sent;
  }
  publish_held s worker (holding d) (some e) = record s {
    tasks = set_task s.tasks worker (undelivered d e);
  }
  publish_held s worker other e = s

  -- The end of a statement, by the rows that it leaves, and the errors of a failure and of no row.
  unfoldable pub finish_with :
      System A → ℕ → Option String → Option String → Option (List (Delivery A)) → System A
  unfolding set_task
  finish_with s worker outcome missing none = record s {
    tasks = set_task s.tasks worker (returned true missing);
  }
  finish_with s worker outcome missing (some rows) = record s {
    rows = rows;
    tasks = set_task s.tasks worker (returned true outcome);
  }

  -- `Clock.Now` and `MarkPublished`, or `handlePublishFailure`.
  unfoldable pub finish_held : System A → ℕ → Task A → Answer → System A
  unfolding finish_with set_task mark_published schedule_retry
  finish_held s worker (delivered d) (fails e) = record s {
    tasks = set_task s.tasks worker (returned true (some e));
  }
  finish_held s worker (delivered d) (answers now at) =
      finish_with s worker none (some error_not_found)
        (mark_published d.event.event_id worker now s.rows)
  finish_held s worker (undelivered d x) (fails e) = record s {
    tasks = set_task s.tasks worker (returned true (some x));
  }
  finish_held s worker (undelivered d x) (answers now at) =
      finish_with s worker (some x) (some x)
        (schedule_retry d.event.event_id worker (now + outbox_retry_delay d.attempts) s.rows)
  finish_held s worker other answer = s

  unfoldable pub take_step : Step → System A → System A
  unfolding claim_next publish_held finish_held set_task
  take_step (claims worker answer locked) s = claim_next s worker answer locked
  take_step (publishes worker outcome) s = publish_held s worker (s.tasks worker) outcome
  take_step (finishes worker answer) s = finish_held s worker (s.tasks worker) answer
  take_step (stops worker) s = record s { tasks = set_task s.tasks worker idle }

  unfoldable pub take_steps : List Step → System A → System A
  unfolding take_step
  take_steps [] s = s
  take_steps (x ∷ xs) s = take_steps xs (take_step x s)

  -- `DispatchNext` of one worker, from start to end.
  unfoldable pub dispatch_next :
      ℕ → Answer → (ℕ → Bool) → Option String → Answer → System A → System A
  unfolding take_step
  dispatch_next worker first locked publication last s =
      take_step (finishes worker last)
        (take_step (publishes worker publication) (take_step (claims worker first locked) s))
