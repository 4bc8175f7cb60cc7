-- ===== src/Worker.antt =====
-- internal/worker/loop.go: `run`, over the turns that the world gives it. A duration is an int64 of
-- nanoseconds. The goroutine of `Start` and the wait of `Stop` are not modelled.
pub mod Delays
use junglegaming_test.Base.{
  ℕ, ◌*◌, ◌≤◌, Bool, true, false, not, ◌||◌, Option, none, some, List, [], ◌∷◌, if◌then◌else◌,
}
use junglegaming_test.Base.Int.{mul64}
use junglegaming_test.Backoff.{second, min64}

-- `Options`
pub record Options : Type 0 where
  pub idle_delay : ℕ
  pub min_error_delay : ℕ
  pub max_error_delay : ℕ

-- `pollingOptions` of internal/worker/module.go.
abbrev pub polling_options : Options
polling_options = record {
  idle_delay = second;
  min_error_delay = second;
  max_error_delay = 30 * second;
}

-- What `Step` returns: an error, or whether it found work.
pub data Outcome : Type 0 where
  failed found idle : Outcome

-- A turn of the loop: the outcome of the step, and whether the loop is stopped during it or during
-- the sleep that follows.
pub record Turn : Type 0 where
  pub outcome : Outcome
  pub stopped : Bool
  pub woken : Bool

-- The `switch`: the sleep that follows, if any, from the error delay so far.
unfoldable pub sleep_after : Options → ℕ → Outcome → Option ℕ
sleep_after o delay failed = some delay
sleep_after o delay found = none
sleep_after o delay idle = some o.idle_delay

-- The error delay after the `switch`.
unfoldable pub next_error_delay : Options → ℕ → Outcome → ℕ
unfolding min64
next_error_delay o delay failed = min64 (mul64 delay 2) o.max_error_delay
next_error_delay o delay found = o.min_error_delay
next_error_delay o delay idle = o.min_error_delay

-- The sleeps after a turn: none without one, and none after it where it is interrupted.
unfoldable pub slept : Option ℕ → Bool → List ℕ → List ℕ
slept none woken rest = rest
slept (some d) true rest = d ∷ []
slept (some d) false rest = d ∷ rest

-- The sleeps of the loop, from an error delay on.
unfoldable pub run_from : Options → ℕ → List Turn → List ℕ
unfolding sleep_after next_error_delay slept
run_from o delay [] = []
run_from o delay (t ∷ ts) =
    let rest = run_from o (next_error_delay o delay t.outcome) ts in
    if t.stopped then [] else slept (sleep_after o delay t.outcome) t.woken rest

-- `run`
unfoldable pub run : Options → List Turn → List ℕ
unfolding run_from
run o ts = run_from o o.min_error_delay ts
