-- ===== src/Outbox/Settled.antt =====
-- internal/infrastructure/postgres/outbox_dispatcher_repository.go: what the claim and the mark of one
-- event leave of the rows.
use junglegaming_test.Base.{
  ℕ, suc, ◌≤◌, ◌<◌, ◌&&◌, ◌||◌, not, Bool, true, false, ◌≡◌, refl, sym, none, some, List, [], ◌∷◌,
  arith, inl, inr, Bool-cases, Option-cases, if◌then◌else◌,
}
use mathlib.Core.Path.{subst}
use junglegaming_test.Outbox.{
  Delivery, is_null, lease_over, claimed_by_worker, is_held, is_event, is_claimable, claimed,
  first_of, candidate, published, update_deliveries, any_delivery,
}

module _ {A : Type 0} where
  unfoldable pub claimable_count : ℕ → List (Delivery A) → ℕ
  claimable_count at [] = 0
  claimable_count at (d ∷ ds) =
      let rest = claimable_count at ds in if is_claimable at d then suc rest else rest

  abbrev is_candidate : ℕ → ℕ → Delivery A → Bool
  is_candidate at id d = is_event id d && is_claimable at d

  -- The candidate is one of the claimable rows, and there is one if any is claimable.
  pub candidate_found :
      (at : ℕ) (rows : List (Delivery A)) {d : Delivery A}
      → candidate at (λ id. false) rows ≡ some d
      → any_delivery (is_candidate at d.event.event_id) rows ≡ true
  unfolding candidate any_delivery first_of
  candidate_found at [] h = absurd (ground arith)
  candidate_found at (x ∷ xs) {d} h = elim (Bool-cases (is_claimable at x)) [
    | inr later ↦ let rest = candidate_found at xs {d = d} (ground arith) in ground arith
    | inl due ↦ elim (Option-cases (candidate at (λ id. false) xs)) [
      | inl e ↦ let same : x ≡ d = ground arith in ground arith
      | inr (y, e) ↦ let rest = candidate_found at xs {d = y} e in ground arith
    ]
  ]

  pub candidate-none :
      (at : ℕ) (rows : List (Delivery A))
      → candidate at (λ id. false) rows ≡ none
      → claimable_count at rows ≡ 0
  unfolding candidate claimable_count
  candidate-none at [] h = refl
  candidate-none at (x ∷ xs) h = elim (Bool-cases (is_claimable at x)) [
    | inl due ↦ absurd (ground arith)
    | inr later ↦ let rest = candidate-none at xs (ground arith) in ground arith
  ]

  -- What a dispatch leaves of a row: published where it was the candidate's, else as it was.
  unfoldable pub settle_rows : ℕ → ℕ → ℕ → ℕ → List (Delivery A) → List (Delivery A)
  settle_rows at id worker until rows =
      update_deliveries (is_held id worker) (published at)
        (update_deliveries (is_event id) (claimed worker until) rows)

  -- Row by row: what was claimable is claimable or published, what was published stays so.
  unfoldable pub IsAdvanced : ℕ → List (Delivery A) → List (Delivery A) → Type 0
  IsAdvanced at [] es = Unit
  IsAdvanced at (d ∷ ds) [] = ⊥
  IsAdvanced at (d ∷ ds) (e ∷ es) =
      (is_claimable at d ≡ true → (is_claimable at e || not (is_null e.published_at)) ≡ true)
      × (is_null d.published_at ≡ false → is_null e.published_at ≡ false)
      × IsAdvanced at ds es

  settle_row : ℕ → ℕ → ℕ → ℕ → Delivery A → Delivery A
  settle_row at id worker until d =
      if is_event id d && is_null d.published_at
      then published at (claimed worker until d)
      else if is_event id d
      then claimed worker until d
      else d

  settle_rows-cons :
      (at id worker until : ℕ) (d : Delivery A) (ds : List (Delivery A))
      → settle_rows at id worker until (d ∷ ds)
        ≡ settle_row at id worker until d ∷ settle_rows at id worker until ds
  unfolding settle_rows settle_row update_deliveries is_held claimed is_null claimed_by_worker
  settle_rows-cons at id worker until d ds = elim (Bool-cases (is_event id d)) [
    | inl own ↦ ground arith
    | inr other ↦ ground arith
  ]

  pub settle_rows-IsAdvanced :
      (start at id worker until : ℕ) (rows : List (Delivery A))
      → IsAdvanced start rows (settle_rows at id worker until rows)
  unfolding IsAdvanced settle_rows update_deliveries settle_row claimed published is_claimable
      is_null
  settle_rows-IsAdvanced start at id worker until [] = tt
  settle_rows-IsAdvanced start at id worker until (d ∷ ds) =
      subst (IsAdvanced start (d ∷ ds)) (sym (settle_rows-cons at id worker until d ds)) (
        (λ h. ground arith),
        (λ h. ground arith),
        settle_rows-IsAdvanced start at id worker until ds,
      )

  pub IsAdvanced-refl : (at : ℕ) (rows : List (Delivery A)) → IsAdvanced at rows rows
  unfolding IsAdvanced
  IsAdvanced-refl at [] = tt
  IsAdvanced-refl at (d ∷ ds) = ((λ h. ground arith), (λ h. h), IsAdvanced-refl at ds)

  pub IsAdvanced-trans :
      (at : ℕ) (a b c : List (Delivery A))
      → IsAdvanced at a b
      → IsAdvanced at b c
      → IsAdvanced at a c
  unfolding IsAdvanced
  IsAdvanced-trans at [] b c h k = tt
  IsAdvanced-trans at (x ∷ xs) [] c h k = absurd h
  IsAdvanced-trans at (x ∷ xs) (y ∷ ys) [] h k = absurd k
  IsAdvanced-trans at (x ∷ xs) (y ∷ ys) (z ∷ zs) (a, b, h) (d, e, k) = (
    (λ p.
        let first = a p in
        elim (Bool-cases (is_claimable at y)) [
          | inl due ↦ d due
          | inr later ↦ let kept = e (ground arith) in ground arith
        ]),
    (λ p. e (b p)),
    IsAdvanced-trans at xs ys zs h k,
  )

  pub settle_rows-claimable_count :
      (start at id worker until : ℕ) (rows : List (Delivery A))
      → claimable_count start (settle_rows at id worker until rows) ≤ claimable_count start rows
  unfolding settle_rows update_deliveries is_held claimed published is_claimable is_null
      claimed_by_worker claimable_count
  settle_rows-claimable_count start at id worker until [] = ground arith
  settle_rows-claimable_count start at id worker until (d ∷ ds) =
      let rest = settle_rows-claimable_count start at id worker until ds in ground arith

  pub settle_rows-fewer :
      (start at id worker until : ℕ) (rows : List (Delivery A))
      → any_delivery (is_candidate start id) rows ≡ true
      → claimable_count start (settle_rows at id worker until rows) < claimable_count start rows
  unfolding settle_rows update_deliveries is_held claimed published is_claimable is_null
      claimed_by_worker claimable_count any_delivery
  settle_rows-fewer start at id worker until [] h = ground arith
  settle_rows-fewer start at id worker until (d ∷ ds) h =
      elim (Bool-cases (is_candidate start id d)) [
        | inl own ↦
            let rest = settle_rows-claimable_count start at id worker until ds in ground arith
        | inr other ↦
            let rest = settle_rows-fewer start at id worker until ds (ground arith) in ground arith
      ]

  -- What can be claimed can be claimed later as well.
  is_claimable_later :
      (start at : ℕ) (d : Delivery A)
      → start ≤ at
      → is_claimable start d ≡ true
      → is_claimable at d ≡ true
  unfolding is_claimable lease_over
  is_claimable_later start at d h k = elim (Option-cases d.claimed_until) [
    | inl e ↦ ground arith
    | inr (until, e) ↦ ground arith
  ]

  pub claimable_count_later :
      (start at : ℕ) (rows : List (Delivery A))
      → start ≤ at
      → claimable_count start rows ≤ claimable_count at rows
  unfolding claimable_count
  claimable_count_later start at [] h = ground arith
  claimable_count_later start at (d ∷ ds) h =
      let rest = claimable_count_later start at ds h in
      elim (Bool-cases (is_claimable start d)) [
        | inl due ↦ let still = is_claimable_later start at d h due in ground arith
        | inr later ↦ ground arith
      ]

  pub is_candidate_later :
      (start at id : ℕ) (rows : List (Delivery A))
      → start ≤ at
      → any_delivery (is_candidate start id) rows ≡ true
      → any_delivery (is_candidate at id) rows ≡ true
  unfolding any_delivery
  is_candidate_later start at id [] h k = k
  is_candidate_later start at id (d ∷ ds) h k = elim (Bool-cases (is_candidate start id d)) [
    | inl own ↦ let still = is_claimable_later start at d h (ground arith) in ground arith
    | inr other ↦ let rest = is_candidate_later start at id ds h (ground arith) in ground arith
  ]

  pub held_after_claim :
      (at id worker until : ℕ) (rows : List (Delivery A))
      → any_delivery (is_candidate at id) rows ≡ true
      → any_delivery
          (is_held id worker)
          (update_deliveries (is_event id) (claimed worker until) rows)
        ≡ true
  unfolding update_deliveries is_held claimed is_claimable is_null claimed_by_worker any_delivery
  held_after_claim at id worker until [] h = ground arith
  held_after_claim at id worker until (d ∷ ds) h = elim (Bool-cases (is_candidate at id d)) [
    | inl own ↦ ground arith
    | inr other ↦ let rest = held_after_claim at id worker until ds (ground arith) in ground arith
  ]
