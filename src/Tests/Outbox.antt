-- ===== src/Tests/Outbox.antt =====
-- Two events, of which one is due, and two workers.
use junglegaming_test.Base.{ℕ, refl, false, none, some, List, [], ◌∷◌, arith}
use junglegaming_test.Base.Int.{ℤ}
use junglegaming_test.LedgerEntry.{Direction}
use junglegaming_test.Store.Events.{OutboxRow, balance_changed}
use junglegaming_test.Outbox.{
  Delivery, candidate, is_claimable, first_of, comes_before, is_null, lease_over,
}
use junglegaming_test.Outbox.Order.{candidate_first, IsRow, IsOpen, IsNotLater}
use junglegaming_test.Outbox.Sent.{AllSent, was_sent}
use junglegaming_test.Outbox.Dispatch.{
  System, idle, Step, claims, publishes, finishes, stops, answers, take_steps,
}
use junglegaming_test.Outbox.Delivered.{IsDelivered, take_steps-IsDelivered}
use junglegaming_test.Outbox.Settled.{claimable_count}
use junglegaming_test.Outbox.Drained.{
  Readings, AreBetween, calls, dispatch_all, AllPublished, dispatch_all-AllPublished,
}
use junglegaming_test.Tests.Data.{cash}

abbrev event : ℕ → ℕ → OutboxRow ℤ
event id at = record {
  event_id = id;
  aggregate_id = 7;
  correlation_id = "c-1";
  causation_id = "";
  occurred_at = at;
  version = 1;
  data_of = balance_changed (record {
    wallet_id = 7;
    player_id = 3;
    transaction_id = 9;
    direction = Direction.credit;
    money = cash 100;
    balance_before = cash 0;
    balance_after = cash 100;
    wallet_version = 2;
  });
}

abbrev waiting : ℕ → ℕ → Delivery ℤ
waiting id at = record {
  event = event id at;
  attempts = 0;
  next_attempt_at = at;
  claimed_by = none;
  claimed_until = none;
  published_at = none;
}

abbrev two_events : List (Delivery ℤ)
two_events = waiting 1 90 ∷ waiting 2 80 ∷ waiting 3 200 ∷ []

abbrev waiting_system : System ℤ
waiting_system = record { rows = two_events; tasks = λ w. idle; sent = [] }

candidate_first_example :
    IsRow (waiting 2 80) two_events
    × IsOpen 100 (λ id. false) (waiting 2 80)
    × ((e : Delivery ℤ)
        → IsRow e two_events
        → IsOpen 100 (λ id. false) e
        → IsNotLater (waiting 2 80) e)
unfolding candidate is_claimable first_of comes_before is_null lease_over
candidate_first_example = candidate_first 100 (λ id. false) two_events (waiting 2 80) refl

waiting_system-IsDelivered : IsDelivered waiting_system
unfolding AllSent is_null was_sent
waiting_system-IsDelivered = record {
  rows_sent = (
    (λ h. absurd (ground arith)),
    ((λ h. absurd (ground arith)), ((λ h. absurd (ground arith)), tt)),
  );
  tasks_sent = λ w d h. absurd (ground arith);
}

-- Worker 4 stops after its publication, and worker 5 takes the event after the lease.
abbrev two_workers : List Step
two_workers =
    claims 4 (answers 100 100) (λ id. false)
    ∷ publishes 4 none
    ∷ stops 4
    ∷ claims 5 (answers 40000000000 40000000000) (λ id. false)
    ∷ publishes 5 (some "timeout")
    ∷ finishes 5 (answers 40000000000 40000000000)
    ∷ []

take_steps-IsDelivered_example : IsDelivered (take_steps two_workers waiting_system)
take_steps-IsDelivered_example =
    take_steps-IsDelivered two_workers waiting_system waiting_system-IsDelivered

-- The clocks advance, and those of the program and of the database do not agree.
abbrev two_calls : List Readings
two_calls =
    record { claim_now = 99; claimed_at = 100; finish_now = 110; finished_at = 112 }
    ∷ record { claim_now = 149; claimed_at = 150; finish_now = 160; finished_at = 161 }
    ∷ []

dispatch_all-AllPublished_example :
    AllPublished 100 two_events (dispatch_all 4 two_calls waiting_system).rows
unfolding claimable_count is_claimable is_null lease_over AreBetween calls
dispatch_all-AllPublished_example =
    dispatch_all-AllPublished 100 199 4 two_calls waiting_system (omega arith)
      (omega arith, omega arith, (omega arith, omega arith, tt)) (omega arith)
