-- ===== src/Outbox/Drained.antt =====
-- internal/application/outbox_dispatcher_service.go: a worker alone empties the outbox.
use junglegaming_test.Base.{
  ℕ, zero, suc, ◌+◌, ◌≤◌, ◌<◌, true, false, ◌≡◌, sym, none, some, List, [], ◌∷◌, arith, inl, inr,
  Option-cases,
}
use mathlib.Core.Path.{subst}
use junglegaming_test.Backoff.{outbox_lease_duration}
use junglegaming_test.Outbox.{
  Delivery, is_null, is_claimable, claim, claim_pending, claimed, candidate, change_held,
  mark_published,
}
use junglegaming_test.Outbox.Settled.{
  claimable_count, candidate_found, candidate-none, settle_rows, IsAdvanced, settle_rows-IsAdvanced,
  IsAdvanced-refl, IsAdvanced-trans, settle_rows-claimable_count, settle_rows-fewer,
  held_after_claim, claimable_count_later, is_candidate_later,
}
use junglegaming_test.Outbox.Dispatch.{
  System, answers, set_task, claimed_next, claim_next, publish_held, finish_with, finish_held,
  take_step, dispatch_next,
}

-- The clocks that a call of `DispatchNext` reads: those of the program and of the database as it
-- claims, and those as it marks the event.
pub record Readings : Type 0 where
  pub claim_now : ℕ
  pub claimed_at : ℕ
  pub finish_now : ℕ
  pub finished_at : ℕ

-- Each call claims between two times of the database.
unfoldable pub AreBetween : ℕ → ℕ → List Readings → Type 0
AreBetween start last [] = Unit
AreBetween start last (c ∷ cs) =
    (start ≤ c.claimed_at) × (c.claimed_at ≤ last) × AreBetween start last cs

unfoldable pub calls : List Readings → ℕ
calls [] = zero
calls (c ∷ cs) = suc (calls cs)

module _ {A : Type 0} where
  -- `DispatchNext` where nothing fails and no other connection holds a row.
  unfoldable pub dispatch_at : ℕ → Readings → System A → System A
  unfolding dispatch_next
  dispatch_at worker c s =
      dispatch_next worker (answers c.claim_now c.claimed_at) (λ id. false) none
        (answers c.finish_now c.finished_at) s

  -- One call after the other.
  unfoldable pub dispatch_all : ℕ → List Readings → System A → System A
  unfolding dispatch_at
  dispatch_all worker [] s = s
  dispatch_all worker (c ∷ cs) s = dispatch_all worker cs (dispatch_at worker c s)

  -- A dispatch without faults by a worker alone, which finds candidate `d`.
  dispatched :
      (worker : ℕ) (c : Readings) (s : System A) {d : Delivery A}
      → candidate c.claimed_at (λ id. false) s.rows ≡ some d
      → (dispatch_at worker c s).rows
        ≡ settle_rows c.finish_now d.event.event_id worker
            (c.claim_now + outbox_lease_duration)
            s.rows
  unfolding dispatch_at dispatch_next take_step claim_next claimed_next claim_pending claim set_task
      publish_held finish_held finish_with mark_published change_held settle_rows claimed
  dispatched worker c s {d} h =
      let until = c.claim_now + outbox_lease_duration in
      let held =
        held_after_claim c.claimed_at d.event.event_id worker until s.rows
          (candidate_found c.claimed_at s.rows h) in
      ground arith

  undispatched :
      (worker : ℕ) (c : Readings) (s : System A)
      → candidate c.claimed_at (λ id. false) s.rows ≡ none
      → (dispatch_at worker c s).rows ≡ s.rows
  unfolding dispatch_at dispatch_next take_step claim_next claimed_next claim_pending claim set_task
      publish_held finish_held
  undispatched worker c s h = ground arith

  -- Each row that was claimable is published.
  unfoldable pub AllPublished : ℕ → List (Delivery A) → List (Delivery A) → Type 0
  AllPublished at [] es = Unit
  AllPublished at (d ∷ ds) [] = ⊥
  AllPublished at (d ∷ ds) (e ∷ es) =
      (is_claimable at d ≡ true → is_null e.published_at ≡ false) × AllPublished at ds es

  exhausted :
      (at : ℕ) (rows rows' : List (Delivery A))
      → IsAdvanced at rows rows'
      → claimable_count at rows' ≡ 0
      → AllPublished at rows rows'
  unfolding AllPublished IsAdvanced claimable_count
  exhausted at [] es a h = tt
  exhausted at (d ∷ ds) [] a h = absurd a
  exhausted at (d ∷ ds) (e ∷ es) (first, kept, rest) h =
      (λ p. let now = first p in ground arith, exhausted at ds es rest (ground arith))

  -- One dispatch, whatever it finds.
  dispatch_at-IsAdvanced :
      (start worker : ℕ) (c : Readings) (s : System A)
      → IsAdvanced start s.rows (dispatch_at worker c s).rows
        × (claimable_count start (dispatch_at worker c s).rows ≤ claimable_count start s.rows)
  dispatch_at-IsAdvanced start worker c s =
      elim (Option-cases (candidate c.claimed_at (λ id. false) s.rows)) [
        | inl e ↦
            subst
              (λ rows.
                IsAdvanced start s.rows rows
                × (claimable_count start rows ≤ claimable_count start s.rows))
              (sym (undispatched worker c s e)) (IsAdvanced-refl start s.rows, ground arith)
        | inr (d, e) ↦
            let until = c.claim_now + outbox_lease_duration in
            let id = d.event.event_id in
            subst
              (λ rows.
                IsAdvanced start s.rows rows
                × (claimable_count start rows ≤ claimable_count start s.rows))
              (sym (dispatched worker c s e))
              (
                settle_rows-IsAdvanced start c.finish_now id worker until s.rows,
                settle_rows-claimable_count start c.finish_now id worker until s.rows,
              )
      ]

  dispatch_all-IsAdvanced :
      (start worker : ℕ) (cs : List Readings) (s : System A)
      → IsAdvanced start s.rows (dispatch_all worker cs s).rows
        × (claimable_count start (dispatch_all worker cs s).rows ≤ claimable_count start s.rows)
  unfolding dispatch_all
  dispatch_all-IsAdvanced start worker [] s = (IsAdvanced-refl start s.rows, ground arith)
  dispatch_all-IsAdvanced start worker (c ∷ cs) s =
      let next = dispatch_at worker c s in
      let (once, fewer) = dispatch_at-IsAdvanced start worker c s in
      let (more, least) = dispatch_all-IsAdvanced start worker cs next in
      (
        IsAdvanced-trans start s.rows next.rows (dispatch_all worker cs next).rows once more,
        ground arith,
      )

  -- A dispatch that finds an event leaves fewer.
  dispatch_at-fewer :
      (last worker : ℕ) (c : Readings) (s : System A) {d : Delivery A}
      → c.claimed_at ≤ last
      → candidate c.claimed_at (λ id. false) s.rows ≡ some d
      → claimable_count last (dispatch_at worker c s).rows < claimable_count last s.rows
  dispatch_at-fewer last worker c s {d} h e =
      let until = c.claim_now + outbox_lease_duration in
      let id = d.event.event_id in
      subst (λ rows. claimable_count last rows < claimable_count last s.rows)
        (sym (dispatched worker c s e))
        (settle_rows-fewer last c.finish_now id worker until s.rows (
          is_candidate_later c.claimed_at last id s.rows h (candidate_found c.claimed_at s.rows e)))

  emptied :
      (start last worker : ℕ) (cs : List Readings) (s : System A)
      → start ≤ last
      → AreBetween start last cs
      → claimable_count last s.rows ≤ calls cs
      → claimable_count start (dispatch_all worker cs s).rows ≡ 0
  unfolding dispatch_all AreBetween calls
  emptied start last worker [] s h b k =
      let less = claimable_count_later start last s.rows h in ground arith
  emptied start last worker (c ∷ cs) s h (above, below, b) k =
      let next = dispatch_at worker c s in
      elim (Option-cases (candidate c.claimed_at (λ id. false) s.rows)) [
        | inl e ↦
            let empty = candidate-none c.claimed_at s.rows e in
            let less = claimable_count_later start c.claimed_at s.rows above in
            let (_, once) = dispatch_at-IsAdvanced start worker c s in
            let (_, rest) = dispatch_all-IsAdvanced start worker cs next in ground arith
        | inr (d, e) ↦
            let less = dispatch_at-fewer last worker c s below e in
            emptied start last worker cs next h b (ground arith)
      ]

  -- A worker alone whose calls of `DispatchNext` claim between the times `start` and `last`, on a
  -- working database and publisher, leaves each event published that could be claimed at `start`,
  -- if it calls as often as there are events that can be claimed at `last`.
  pub dispatch_all-AllPublished :
      (start last worker : ℕ) (cs : List Readings) (s : System A)
      → start ≤ last
      → AreBetween start last cs
      → claimable_count last s.rows ≤ calls cs
      → AllPublished start s.rows (dispatch_all worker cs s).rows
  dispatch_all-AllPublished start last worker cs s h b k =
      exhausted start s.rows (dispatch_all worker cs s).rows
        (dispatch_all-IsAdvanced start worker cs s).0 (emptied start last worker cs s h b k)
