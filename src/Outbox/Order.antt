-- ===== src/Outbox/Order.antt =====
-- internal/infrastructure/postgres/outbox_dispatcher_repository.go: which event `ClaimPending` takes.
use junglegaming_test.Base.{
  ℕ, ◌≤◌, ◌<◌, ◌⊎◌, sym, ◌&&◌, not, Bool, true, false, ◌≡◌, none, some, List, [], ◌∷◌, arith, inl,
  inr, Bool-cases, Option-cases,
}
use mathlib.Core.Path.{subst}
use junglegaming_test.Outbox.{
  Delivery, is_null, lease_over, is_claimable, comes_before, first_of, candidate,
}

module _ {A : Type 0} where
  -- The rows that the statement looks at.
  abbrev is_free : ℕ → (ℕ → Bool) → Delivery A → Bool
  is_free at locked d = is_claimable at d && not (locked d.event.event_id)

  -- None of the rows that can be claimed comes before the one given.
  unfoldable NoneBefore : ℕ → (ℕ → Bool) → Delivery A → List (Delivery A) → Type 0
  NoneBefore at locked d [] = Unit
  NoneBefore at locked d (e ∷ es) =
      (is_free at locked e ≡ true → comes_before e d ≡ false) × NoneBefore at locked d es

  weaken :
      (at : ℕ) (locked : ℕ → Bool) (d e : Delivery A) (rows : List (Delivery A))
      → comes_before e d ≡ false
      → NoneBefore at locked e rows
      → NoneBefore at locked d rows
  unfolding NoneBefore comes_before
  weaken at locked d e [] h k = tt
  weaken at locked d e (x ∷ xs) h (first, rest) =
      (λ free. let old = first free in ground arith, weaken at locked d e xs h rest)

  nothing_free :
      (at : ℕ) (locked : ℕ → Bool) (d : Delivery A) (rows : List (Delivery A))
      → candidate at locked rows ≡ none
      → NoneBefore at locked d rows
  unfolding NoneBefore candidate
  nothing_free at locked d [] h = tt
  nothing_free at locked d (x ∷ xs) h =
      (λ free. absurd (ground arith), nothing_free at locked d xs (ground arith))

  candidate-NoneBefore :
      (at : ℕ) (locked : ℕ → Bool) (rows : List (Delivery A)) (d : Delivery A)
      → candidate at locked rows ≡ some d
      → (is_free at locked d ≡ true) × NoneBefore at locked d rows
  unfolding candidate NoneBefore first_of comes_before
  candidate-NoneBefore at locked [] d h = absurd (ground arith)
  candidate-NoneBefore at locked (x ∷ xs) d h = elim (Bool-cases (is_free at locked x)) [
    | inr other ↦
        let (free, rest) = candidate-NoneBefore at locked xs d (ground arith) in
        (free, ((λ k. absurd (ground arith)), rest))
    | inl own ↦ elim (Option-cases (candidate at locked xs)) [
      | inl e ↦
          let same : x ≡ d = ground arith in
          (ground arith, ((λ k. ground arith), nothing_free at locked d xs e))
      | inr (y, e) ↦
          let (free, rest) = candidate-NoneBefore at locked xs y e in
          elim (Bool-cases (comes_before y x)) [
            | inl first ↦
                let same : y ≡ d = ground arith in
                (
                  ground arith,
                  ((λ k. ground arith), subst (λ z. NoneBefore at locked z xs) same rest),
                )
            | inr second ↦
                let same : x ≡ d = ground arith in
                (
                  ground arith,
                  (
                    (λ k. ground arith),
                    subst (λ z. NoneBefore at locked z xs) same
                        (weaken at locked x y xs second rest),
                  ),
                )
          ]
    ]
  ]

  -- An event that may be taken: it is not published, it is due, no lease on it runs, and no other
  -- connection has locked its row.
  pub record IsOpen (at : ℕ) (locked : ℕ → Bool) (d : Delivery A) : Type 0 where
    pub unpublished : d.published_at ≡ none
    pub due : d.next_attempt_at ≤ at
    pub unleased : (until : ℕ) → d.claimed_until ≡ some until → until ≤ at
    pub unlocked : locked d.event.event_id ≡ false

  is_free-IsOpen :
      (at : ℕ) (locked : ℕ → Bool) (d : Delivery A)
      → is_free at locked d ≡ true
      → IsOpen at locked d
  unfolding is_claimable is_null lease_over
  is_free-IsOpen at locked d h = record {
    unpublished = ground arith;
    due = ground arith;
    unleased = λ until e. ground arith;
    unlocked = ground arith;
  }

  IsOpen-is_free :
      (at : ℕ) (locked : ℕ → Bool) (d : Delivery A)
      → IsOpen at locked d
      → is_free at locked d ≡ true
  unfolding is_claimable is_null lease_over
  IsOpen-is_free at locked d o = elim (Option-cases d.claimed_until) [
    | inl e ↦ let p = o.unpublished in let q = o.due in let r = o.unlocked in ground arith
    | inr (until, e) ↦
        let p = o.unpublished in
        let q = o.due in let r = o.unlocked in let s = o.unleased until e in ground arith
  ]

  -- One event is not later than another, in the order of the times that they are due and, where
  -- these agree, of the times that they occurred.
  abbrev pub IsNotLater : Delivery A → Delivery A → Type 0
  IsNotLater d e =
      (d.next_attempt_at < e.next_attempt_at)
      ⊎ ((d.next_attempt_at ≡ e.next_attempt_at) × (d.event.occurred_at ≤ e.event.occurred_at))

  not_later : (d e : Delivery A) → comes_before e d ≡ false → IsNotLater d e
  unfolding comes_before
  not_later d e h = ground arith

  -- The event is one of the rows.
  unfoldable pub IsRow : Delivery A → List (Delivery A) → Type 0
  IsRow d [] = ⊥
  IsRow d (e ∷ es) = (d ≡ e) ⊎ IsRow d es

  before_rows :
      (at : ℕ) (locked : ℕ → Bool) (d e : Delivery A) (rows : List (Delivery A))
      → NoneBefore at locked d rows
      → IsRow e rows
      → IsOpen at locked e
      → IsNotLater d e
  unfolding NoneBefore IsRow
  before_rows at locked d e [] k r o = absurd r
  before_rows at locked d e (x ∷ xs) (first, rest) (inl same) o = not_later d e (
      subst (λ z. comes_before z d ≡ false) (sym same)
        (first (subst (λ z. is_free at locked z ≡ true) same (IsOpen-is_free at locked e o))))
  before_rows at locked d e (x ∷ xs) (first, rest) (inr r) o = before_rows at locked d e xs rest r o

  candidate-IsRow :
      (at : ℕ) (locked : ℕ → Bool) (rows : List (Delivery A)) (d : Delivery A)
      → candidate at locked rows ≡ some d
      → IsRow d rows
  unfolding candidate IsRow first_of
  candidate-IsRow at locked [] d h = absurd (ground arith)
  candidate-IsRow at locked (x ∷ xs) d h = elim (Option-cases (candidate at locked xs)) [
    | inl e ↦ inl (ground arith)
    | inr (y, e) ↦
        let below = candidate-IsRow at locked xs y e in
        elim (Bool-cases (is_free at locked x && not (comes_before y x))) [
          | inl own ↦ inl (ground arith)
          | inr other ↦ inr (let same : y ≡ d = ground arith in subst (λ z. IsRow z xs) same below)
        ]
  ]

  -- The candidate of `ClaimPending` is one of the rows, not published, due, under no lease that
  -- runs and not locked; and it is not later than any other such row, in the order of the times
  -- that they are due and, where these agree, of the times that they occurred.
  pub candidate_first :
      (at : ℕ) (locked : ℕ → Bool) (rows : List (Delivery A)) (d : Delivery A)
      → candidate at locked rows ≡ some d
      → IsRow d rows
        × IsOpen at locked d
        × ((e : Delivery A) → IsRow e rows → IsOpen at locked e → IsNotLater d e)
  candidate_first at locked rows d h =
      let (free, first) = candidate-NoneBefore at locked rows d h in
      (
        candidate-IsRow at locked rows d h,
        is_free-IsOpen at locked d free,
        (λ e r o. before_rows at locked d e rows first r o),
      )
