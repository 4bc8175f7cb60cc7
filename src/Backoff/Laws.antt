-- ===== src/Backoff/Laws.antt =====
-- The waits in closed form: they double from the first one up to the limit.
use native.Mathlib.Nat.{pow-suc}
use junglegaming_test.Base.{
  ℕ, zero, suc, ◌+◌, ◌-◌, ◌*◌, ◌^◌, ◌≡◌, refl, arith, min, Option, some, Bool-cases, inl, inr, leb,
  ◌∙◌, ap, true, false, ◌≤◌,
}
use junglegaming_test.Base.Int.{ltb64, mul64, max_int64}
use junglegaming_test.Backoff.{
  ReferenceRetryPolicy, default_reference_retry_policy, second, min64, doubling, delay,
  next_attempt_at, outbox_doubling, outbox_retry_delay, receive_count, retry_delay,
}

-- Half the greatest duration: twice a wait below it does not overflow.
abbrev pub half_range : ℕ
half_range = 4611686018427387904

pow2_pos : (n : ℕ) → 1 ≤ 2 ^ n
pow2_pos zero = omega arith
pow2_pos (suc n) = rw (pow-suc 2 n) (omega (arith, pow2_pos n))

at_least : (d p : ℕ) → 1 ≤ p → d ≤ d * p
at_least d p h = grind arith

double_step : (d p : ℕ) → d * 2 * p ≡ d * (p * 2)
double_step d p = grind arith

doubled :
    (d p max : ℕ)
    → max ≤ half_range
    → d ≤ max_int64
    → ltb64 d max ≡ true
    → mul64 d 2 * p ≡ d * (p * 2)
doubled d p max bound h below =
    let exact : mul64 d 2 ≡ d * 2 = ground arith in rw exact (double_step d p)

at_limit :
    (d p max : ℕ)
    → max ≤ half_range
    → d ≤ max_int64
    → ltb64 d max ≡ false
    → 1 ≤ p
    → min64 d max ≡ min (d * (p * 2)) max
unfolding min64
at_limit d p max bound h above one = ground (arith, at_least d (p * 2))

-- The loop, cut at the limit.
doubling_lem :
    (n max d : ℕ)
    → max ≤ half_range
    → d ≤ max_int64
    → min64 (doubling n max d) max ≡ min (d * 2 ^ n) max
unfolding doubling min64
doubling_lem zero max d bound h = ground arith
doubling_lem (suc n) max d bound h = elim (Bool-cases (ltb64 d max)) [
  | inl below ↦
      rw (below, pow-suc 2 n)
        (doubling_lem n max (mul64 d 2) bound (ground arith)
          ∙ ap (λ x. min x max) (doubled d (2 ^ n) max bound h below))
  | inr above ↦ rw (above, pow-suc 2 n) (at_limit d (2 ^ n) max bound h above (pow2_pos n))
]

-- Where the limit is at most half the greatest duration and the first wait is a duration, the wait
-- before an attempt is the first one doubled for each attempt before it, up to the limit.
pub delay_lem :
    (p : ReferenceRetryPolicy) (attempt : ℕ)
    → p.max_delay ≤ half_range
    → p.initial_delay ≤ max_int64
    → delay p attempt ≡ min (p.initial_delay * 2 ^ (attempt - 1)) p.max_delay
unfolding delay
delay_lem p attempt bound h = doubling_lem (attempt - 1) p.max_delay p.initial_delay bound h

-- Where both waits of the policy are positive durations, the limit at most half the greatest one,
-- and now is before the expiration, the next attempt is after now, not past the expiration and at
-- most the limit away.
pub next_attempt_at_bounds :
    (p : ReferenceRetryPolicy) (now expires_at attempt : ℕ)
    → p.max_delay ≤ half_range
    → p.initial_delay ≤ max_int64
    → 1 ≤ p.initial_delay
    → 1 ≤ p.max_delay
    → now + 1 ≤ expires_at
    → (now + 1 ≤ next_attempt_at p now expires_at attempt)
      × (next_attempt_at p now expires_at attempt ≤ expires_at)
      × (next_attempt_at p now expires_at attempt ≤ now + p.max_delay)
unfolding next_attempt_at
next_attempt_at_bounds p now expires_at attempt bound h one one' open_until = ground (
  arith,
  delay_lem p attempt bound h,
  at_least p.initial_delay (2 ^ (attempt - 1)) (pow2_pos (attempt - 1)),
)

past_half :
    (d p : ℕ)
    → ltb64 d (150 * second) ≡ false
    → 1 ≤ p
    → 300 * second ≡ min (d * (p * 2)) (300 * second)
past_half d p above one = ground (arith, at_least d p, double_step d p)

first_wait :
    (attempts : ℕ)
    → leb attempts 1 ≡ true
    → 5 * second ≡ min (5 * second * 2 ^ (attempts - 1)) (300 * second)
first_wait zero h = refl
first_wait (suc zero) h = refl
first_wait (suc (suc n)) h = ground arith

outbox_doubling_lem :
    (n d : ℕ) → d ≤ 300 * second → outbox_doubling n d ≡ min (d * 2 ^ n) (300 * second)
unfolding outbox_doubling
outbox_doubling_lem zero d h = ground arith
outbox_doubling_lem (suc n) d h = elim (Bool-cases (ltb64 d (150 * second))) [
  | inl below ↦
      rw (below, pow-suc 2 n)
        (outbox_doubling_lem n (mul64 d 2) (ground arith)
          ∙ ap (λ x. min x (300 * second))
              (doubled d (2 ^ n) (150 * second) (omega arith) (omega arith) below))
  | inr above ↦ rw (above, pow-suc 2 n) (past_half d (2 ^ n) above (pow2_pos n))
]

-- The wait before a publication is tried again: 5 seconds doubled for each attempt, up to 300.
pub outbox_retry_delay_lem :
    (attempts : ℕ)
    → outbox_retry_delay attempts ≡ min (5 * second * 2 ^ (attempts - 1)) (300 * second)
unfolding outbox_retry_delay
outbox_retry_delay_lem attempts = elim (Bool-cases (leb attempts 1)) [
  | inl first ↦ rw first (first_wait attempts first)
  | inr later ↦ rw later (outbox_doubling_lem (attempts - 1) (5 * second) (omega arith))
]

-- The visibility delay of a message, by its count of deliveries.
pub retry_delay_lem :
    (attribute : Option ℕ)
    → retry_delay attribute ≡ min (5 * second * 2 ^ (receive_count attribute - 1)) (300 * second)
unfolding retry_delay
retry_delay_lem attribute =
    doubling_lem (receive_count attribute - 1) (300 * second) (5 * second) (omega arith)
      (omega arith)

-- The three schedules are one: a publication, a message and a pending reference under the default
-- policy wait as long before the same attempt, 5 seconds doubled for each earlier one, up to 300.
pub schedules_agree :
    (n : ℕ)
    → let wait = min (5 * second * 2 ^ n) (300 * second) in
      (outbox_retry_delay (n + 1) ≡ wait)
      × (retry_delay (some (n + 1)) ≡ wait)
      × (delay default_reference_retry_policy (n + 1) ≡ wait)
unfolding receive_count
schedules_agree n =
    let e : n + 1 - 1 ≡ n = omega arith in
    let c : receive_count (some (n + 1)) ≡ n + 1 = ground arith in
    (
      outbox_retry_delay_lem (n + 1) ∙ ap (λ k. min (5 * second * 2 ^ k) (300 * second)) e,
      retry_delay_lem (some (n + 1))
          ∙ ap (λ k. min (5 * second * 2 ^ (k - 1)) (300 * second)) c
          ∙ ap (λ k. min (5 * second * 2 ^ k) (300 * second)) e,
      delay_lem default_reference_retry_policy (n + 1) (omega arith) (omega arith)
          ∙ ap (λ k. min (5 * second * 2 ^ k) (300 * second)) e,
    )
