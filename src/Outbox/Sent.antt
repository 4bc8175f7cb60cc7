-- ===== src/Outbox/Sent.antt =====
-- internal/infrastructure/postgres/outbox_dispatcher_repository.go: no statement of the dispatcher
-- marks an event as published but the one for an event that was sent.
use junglegaming_test.Base.{
  ℕ, ◌==◌, ◌||◌, Bool, true, false, ◌≡◌, Option, none, some, List, [], ◌∷◌, arith, inl, inr,
  Bool-cases,
}
use mathlib.Core.Path.{subst}
use junglegaming_test.Outbox.{
  Delivery, is_null, is_held, is_event, claim, claimed, published, released, update_deliveries,
  change_held, mark_published, schedule_retry,
}

-- The publisher has accepted the event.
unfoldable pub was_sent : ℕ → List ℕ → Bool
was_sent id [] = false
was_sent id (x ∷ xs) = x == id || was_sent id xs

module _ {A : Type 0} where
  -- Each row that is marked as published was accepted by the publisher.
  unfoldable pub AllSent : List ℕ → List (Delivery A) → Type 0
  AllSent sent [] = Unit
  AllSent sent (d ∷ ds) =
      (is_null d.published_at ≡ false → was_sent d.event.event_id sent ≡ true) × AllSent sent ds

  update_deliveries-AllSent :
      (test : Delivery A → Bool) (f : Delivery A → Delivery A) (sent : List ℕ)
      (rows : List (Delivery A))
      → ((d : Delivery A)
          → test d ≡ true
          → (is_null d.published_at ≡ false → was_sent d.event.event_id sent ≡ true)
          → is_null (f d).published_at ≡ false
          → was_sent (f d).event.event_id sent ≡ true)
      → AllSent sent rows
      → AllSent sent (update_deliveries test f rows)
  unfolding update_deliveries AllSent
  update_deliveries-AllSent test f sent [] k all = tt
  update_deliveries-AllSent test f sent (d ∷ ds) k all = elim (Bool-cases (test d)) [
    | inl hit ↦ rw hit (k d hit all.0, update_deliveries-AllSent test f sent ds k all.1)
    | inr miss ↦ rw miss (all.0, update_deliveries-AllSent test f sent ds k all.1)
  ]

  pub more-AllSent :
      (id : ℕ) (sent : List ℕ) (rows : List (Delivery A))
      → AllSent sent rows
      → AllSent (id ∷ sent) rows
  unfolding AllSent was_sent
  more-AllSent id sent [] all = tt
  more-AllSent id sent (d ∷ ds) all =
      (λ h. let old = all.0 h in ground arith, more-AllSent id sent ds all.1)

  pub claim-AllSent :
      (worker until : ℕ) (c : Option (Delivery A)) (sent : List ℕ) (rows : List (Delivery A))
      {d : Delivery A} {rows' : List (Delivery A)}
      → claim worker until c rows ≡ some (d, rows')
      → AllSent sent rows
      → AllSent sent rows'
  unfolding claim claimed
  claim-AllSent worker until none sent rows {d} {rows'} h all = absurd (ground arith)
  claim-AllSent worker until (some c) sent rows {d} {rows'} h all =
      let same : update_deliveries (is_event c.event.event_id) (claimed worker until) rows ≡ rows' =
        ground arith in
      subst (AllSent sent) same
        (update_deliveries-AllSent _ (claimed worker until) sent rows (λ d hit k. k) all)

  -- A change of held rows that leaves the event and publishes only what was sent.
  change_held-AllSent :
      (id worker : ℕ) (f : Delivery A → Delivery A) (sent : List ℕ) (rows : List (Delivery A))
      {rows' : List (Delivery A)}
      → ((d : Delivery A)
          → is_held id worker d ≡ true
          → (is_null d.published_at ≡ false → was_sent d.event.event_id sent ≡ true)
          → is_null (f d).published_at ≡ false
          → was_sent (f d).event.event_id sent ≡ true)
      → change_held id worker f rows ≡ some rows'
      → AllSent sent rows
      → AllSent sent rows'
  unfolding change_held
  change_held-AllSent id worker f sent rows {rows'} k h all =
      let same : update_deliveries (is_held id worker) f rows ≡ rows' = ground arith in
      subst (AllSent sent) same (update_deliveries-AllSent _ f sent rows k all)

  own_event : (id worker : ℕ) (d : Delivery A) → is_held id worker d ≡ true → d.event.event_id ≡ id
  unfolding is_held
  own_event id worker d h = ground arith

  pub mark_published-AllSent :
      (id worker at : ℕ) (sent : List ℕ) (rows : List (Delivery A)) {rows' : List (Delivery A)}
      → was_sent id sent ≡ true
      → mark_published id worker at rows ≡ some rows'
      → AllSent sent rows
      → AllSent sent rows'
  unfolding mark_published published
  mark_published-AllSent id worker at sent rows done h all =
      change_held-AllSent id worker (published at) sent rows
        (λ d held k p. rw (own_event id worker d held) done) h all

  pub schedule_retry-AllSent :
      (id worker next : ℕ) (sent : List ℕ) (rows : List (Delivery A)) {rows' : List (Delivery A)}
      → schedule_retry id worker next rows ≡ some rows'
      → AllSent sent rows
      → AllSent sent rows'
  unfolding schedule_retry released
  schedule_retry-AllSent id worker next sent rows h all =
      change_held-AllSent id worker (released next) sent rows (λ d held k. k) h all
