-- ===== src/Worker/Delays.antt =====
-- internal/worker/loop.go: the pauses of a worker.
use native.Mathlib.Nat.{pow-suc}
use junglegaming_test.Base.{
  ℕ, zero, suc, ◌+◌, ◌*◌, ◌^◌, ◌≤◌, ◌≡◌, refl, ◌∙◌, ap, sym, Bool, true, false, List, [], ◌∷◌,
  arith, min, inl, inr, Bool-cases,
}
use junglegaming_test.Base.Int.{mul64}
use junglegaming_test.Backoff.{min64}
use junglegaming_test.Backoff.Laws.{half_range}
use junglegaming_test.Worker.{
  Options, Outcome, failed, found, idle, Turn, sleep_after, next_error_delay, slept, run_from, run,
}

-- Options that make sense: the delays are ordered and far from the greatest duration.
pub record IsSound (o : Options) : Type 0 where
  pub ordered : o.min_error_delay ≤ o.max_error_delay
  pub bounded : o.max_error_delay + 1 ≤ half_range

next_error_delay_bounds :
    (o : Options) (d : ℕ) (x : Outcome)
    → IsSound o
    → o.min_error_delay ≤ d
    → d ≤ o.max_error_delay
    → (o.min_error_delay ≤ next_error_delay o d x) × (next_error_delay o d x ≤ o.max_error_delay)
unfolding next_error_delay min64
next_error_delay_bounds o d failed v low high =
    let (a, b) : (o.min_error_delay ≤ o.max_error_delay) × (o.max_error_delay + 1 ≤ half_range) =
      (v.ordered, v.bounded) in
    (ground arith, ground arith)
next_error_delay_bounds o d found v low high = (ground arith, v.ordered)
next_error_delay_bounds o d idle v low high = (ground arith, v.ordered)

-- Each pause is the idle one, or one within the bounds of the options.
unfoldable pub AllBounded : Options → List ℕ → Type 0
AllBounded o [] = Unit
AllBounded o (d ∷ ds) =
    (((d ≡ o.idle_delay) → ⊥) → (o.min_error_delay ≤ d) × (d ≤ o.max_error_delay)) × AllBounded o ds

sleep_after-AllBounded :
    (o : Options) (d : ℕ) (x : Outcome) (woken : Bool) (rest : List ℕ)
    → o.min_error_delay ≤ d
    → d ≤ o.max_error_delay
    → AllBounded o rest
    → AllBounded o (slept (sleep_after o d x) woken rest)
unfolding AllBounded slept sleep_after
sleep_after-AllBounded o d failed true rest low high k = ((λ _. (low, high)), tt)
sleep_after-AllBounded o d failed false rest low high k = ((λ _. (low, high)), k)
sleep_after-AllBounded o d found woken rest low high k = k
sleep_after-AllBounded o d idle true rest low high k = ((λ h. absurd (h refl)), tt)
sleep_after-AllBounded o d idle false rest low high k = ((λ h. absurd (h refl)), k)

run_from-AllBounded :
    (o : Options) (d : ℕ) (ts : List Turn)
    → IsSound o
    → o.min_error_delay ≤ d
    → d ≤ o.max_error_delay
    → AllBounded o (run_from o d ts)
unfolding run_from AllBounded
run_from-AllBounded o d [] v low high = tt
run_from-AllBounded o d (t ∷ ts) v low high =
    let (l, h) = next_error_delay_bounds o d t.outcome v low high in
    let rest = run_from-AllBounded o (next_error_delay o d t.outcome) ts v l h in
    elim (Bool-cases t.stopped) [
      | inl stopped ↦ rw stopped tt
      | inr goes ↦ rw goes (sleep_after-AllBounded o d t.outcome t.woken _ low high rest)
    ]

-- With options whose delays are in order and below half the greatest duration, each pause of the
-- loop is the idle delay, or lies between the least and the greatest error delay.
pub run-AllBounded : (o : Options) (ts : List Turn) → IsSound o → AllBounded o (run o ts)
unfolding run
run-AllBounded o ts v = run_from-AllBounded o o.min_error_delay ts v (ground arith) v.ordered

-- Turns that all fail.
unfoldable pub failures : ℕ → List Turn
failures zero = []
failures (suc n) = record { outcome = failed; stopped = false; woken = false } ∷ failures n

-- The pauses of an exponential schedule: doubled each time, up to a limit.
unfoldable pub doubled_pauses : ℕ → ℕ → ℕ → ℕ → List ℕ
doubled_pauses zero k d max = []
doubled_pauses (suc n) k d max = min (d * 2 ^ k) max ∷ doubled_pauses n (suc k) d max

cut_double : (a max : ℕ) → max + 1 ≤ half_range → min64 (mul64 (min a max) 2) max ≡ min (a * 2) max
unfolding min64
cut_double a max h = ground arith

run_from-failures :
    (o : Options) (n k : ℕ)
    → IsSound o
    → run_from o (min (o.min_error_delay * 2 ^ k) o.max_error_delay) (failures n)
      ≡ doubled_pauses n k o.min_error_delay o.max_error_delay
unfolding run_from failures doubled_pauses sleep_after next_error_delay slept
run_from-failures o zero k v = refl
run_from-failures o (suc n) k v =
    let pow : o.min_error_delay * 2 ^ k * 2 ≡ o.min_error_delay * 2 ^ suc k =
      rw (pow-suc 2 k) (grind arith) in
    let next =
      cut_double (o.min_error_delay * 2 ^ k) o.max_error_delay v.bounded
      ∙ ap (λ x. min x o.max_error_delay) pow in
    ap (λ l. min (o.min_error_delay * 2 ^ k) o.max_error_delay ∷ l)
      (ap (λ d. run_from o d (failures n)) next ∙ run_from-failures o n (suc k) v)

-- With such options a worker that only fails pauses for the least error delay, then for twice as
-- long each time, up to the greatest.
pub run-failures :
    (o : Options) (n : ℕ)
    → IsSound o
    → run o (failures n) ≡ doubled_pauses n 0 o.min_error_delay o.max_error_delay
unfolding run
run-failures o n v =
    let start : min (o.min_error_delay * 2 ^ 0) o.max_error_delay ≡ o.min_error_delay =
      (let h = v.ordered in ground arith) in
    ap (λ d. run_from o d (failures n)) (sym start) ∙ run_from-failures o n 0 v
