-- ===== src/Outbox.antt =====
-- internal/infrastructure/postgres/outbox_dispatcher_repository.go: the statements of the outbox
-- dispatcher on `outbox_events`. A worker identifier is a number. The rows that other connections
-- have locked, which `SKIP LOCKED` passes over, are a parameter.
pub mod Dispatch
pub mod Order
pub mod Sent
pub mod Delivered
pub mod Settled
pub mod Drained
use junglegaming_test.Base.{
  ℕ, suc, ◌+◌, ◌==◌, Bool, true, false, not, ◌&&◌, ◌||◌, Option, none, some, List, [], ◌∷◌, ltb,
  leb, if◌then◌else◌,
}
use junglegaming_test.Store.Events.{OutboxRow}

-- A row of `outbox_events`: the event, and the columns of its delivery.
pub record Delivery (A : Type 0) : Type 0 where
  pub event : OutboxRow A
  pub attempts : ℕ
  pub next_attempt_at : ℕ
  pub claimed_by : Option ℕ
  pub claimed_until : Option ℕ
  pub published_at : Option ℕ

-- `IS NULL`
unfoldable pub is_null : {X : Type 0} → Option X → Bool
is_null none = true
is_null (some x) = false

-- `claimed_until IS NULL OR claimed_until <= CURRENT_TIMESTAMP`
unfoldable pub lease_over : ℕ → Option ℕ → Bool
lease_over at none = true
lease_over at (some until) = leb until at

-- `claimed_by = $2`
unfoldable pub claimed_by_worker : ℕ → Option ℕ → Bool
claimed_by_worker worker none = false
claimed_by_worker worker (some other) = other == worker

module _ {A : Type 0} where
  -- The columns of a row that `OutboxRepository.Create` inserts: the defaults of the schema.
  unfoldable pub enqueued : ℕ → OutboxRow A → Delivery A
  enqueued at row = record {
    event = row;
    attempts = 0;
    next_attempt_at = at;
    claimed_by = none;
    claimed_until = none;
    published_at = none;
  }

  -- The condition of the candidate.
  unfoldable pub is_claimable : ℕ → Delivery A → Bool
  unfolding is_null lease_over
  is_claimable at d =
      is_null d.published_at && leb d.next_attempt_at at && lease_over at d.claimed_until

  -- `ORDER BY next_attempt_at, occurred_at`
  unfoldable pub comes_before : Delivery A → Delivery A → Bool
  comes_before d e =
      ltb d.next_attempt_at e.next_attempt_at
      || (d.next_attempt_at == e.next_attempt_at && ltb d.event.occurred_at e.event.occurred_at)

  -- The first of a row and the first of the others.
  unfoldable pub first_of : Delivery A → Option (Delivery A) → Delivery A
  unfolding comes_before
  first_of d none = d
  first_of d (some e) = if comes_before e d then e else d

  -- The candidate among the rows that are not locked.
  unfoldable pub candidate : ℕ → (ℕ → Bool) → List (Delivery A) → Option (Delivery A)
  unfolding is_claimable first_of
  candidate at locked [] = none
  candidate at locked (d ∷ ds) =
      let rest = candidate at locked ds in
      if is_claimable at d && not (locked d.event.event_id) then some (first_of d rest) else rest

  unfoldable pub update_deliveries :
      (Delivery A → Bool) → (Delivery A → Delivery A) → List (Delivery A) → List (Delivery A)
  update_deliveries test f [] = []
  update_deliveries test f (d ∷ ds) =
      let rest = update_deliveries test f ds in if test d then f d ∷ rest else d ∷ rest

  unfoldable pub any_delivery : (Delivery A → Bool) → List (Delivery A) → Bool
  any_delivery test [] = false
  any_delivery test (d ∷ ds) = test d || any_delivery test ds

  abbrev pub is_event : ℕ → Delivery A → Bool
  is_event id d = d.event.event_id == id

  unfoldable pub claimed : ℕ → ℕ → Delivery A → Delivery A
  claimed worker until d = record d {
    attempts = d.attempts + 1;
    claimed_by = some worker;
    claimed_until = some until;
  }

  -- `ClaimPending` on the candidate; `none` is `ErrNotFound`.
  unfoldable pub claim :
      ℕ → ℕ → Option (Delivery A) → List (Delivery A) → Option (Delivery A × List (Delivery A))
  unfolding claimed update_deliveries
  claim worker until none rows = none
  claim worker until (some d) rows = some (
    claimed worker until d,
    update_deliveries (is_event d.event.event_id) (claimed worker until) rows,
  )

  unfoldable pub claim_pending :
      ℕ → (ℕ → Bool) → ℕ → ℕ → List (Delivery A) → Option (Delivery A × List (Delivery A))
  unfolding claim candidate
  claim_pending at locked worker until rows = claim worker until (candidate at locked rows) rows

  -- `WHERE event_id = $1 AND claimed_by = $2 AND published_at IS NULL`
  unfoldable pub is_held : ℕ → ℕ → Delivery A → Bool
  unfolding claimed_by_worker is_null
  is_held id worker d =
      is_event id d && claimed_by_worker worker d.claimed_by && is_null d.published_at

  unfoldable pub published : ℕ → Delivery A → Delivery A
  published at d = record d { published_at = some at; claimed_by = none; claimed_until = none }

  unfoldable pub released : ℕ → Delivery A → Delivery A
  released next d = record d { next_attempt_at = next; claimed_by = none; claimed_until = none }

  -- A change of the rows that the worker holds; `none` is `ErrNotFound`, for no row.
  unfoldable pub change_held :
      ℕ → ℕ → (Delivery A → Delivery A) → List (Delivery A) → Option (List (Delivery A))
  unfolding is_held any_delivery update_deliveries
  change_held id worker f rows =
      if any_delivery (is_held id worker) rows
      then some (update_deliveries (is_held id worker) f rows)
      else none

  -- `MarkPublished`
  unfoldable pub mark_published : ℕ → ℕ → ℕ → List (Delivery A) → Option (List (Delivery A))
  unfolding change_held published
  mark_published id worker at rows = change_held id worker (published at) rows

  -- `ScheduleRetry`
  unfoldable pub schedule_retry : ℕ → ℕ → ℕ → List (Delivery A) → Option (List (Delivery A))
  unfolding change_held released
  schedule_retry id worker next rows = change_held id worker (released next) rows
