-- ===== src/Tests/Backoff.antt =====
-- The waits before another attempt.
use junglegaming_test.Base.{◌+◌, ◌*◌, ◌≡◌, ◌≤◌, refl, some, none, arith, min, ◌^◌}
use junglegaming_test.Backoff.{
  second, delay, next_attempt_at, outbox_retry_delay, retry_delay, default_reference_retry_policy,
  doubling, outbox_doubling,
}
use junglegaming_test.Backoff.Laws.{delay_lem, next_attempt_at_bounds, schedules_agree}

retry_delay-runs :
    (retry_delay none ≡ 5 * second)
    × (retry_delay (some 6) ≡ 160 * second)
    × (retry_delay (some 7) ≡ 300 * second)
    × (outbox_retry_delay 0 ≡ 5 * second)
    × (outbox_retry_delay 60 ≡ 300 * second)
unfolding retry_delay doubling outbox_retry_delay outbox_doubling
retry_delay-runs = (refl, refl, refl, refl, refl)

delay_lem_example : delay default_reference_retry_policy 4 ≡ min (5 * second * 2 ^ 3) (300 * second)
delay_lem_example = delay_lem default_reference_retry_policy 4 (omega arith) (omega arith)

schedules_agree_example :
    let wait = min (5 * second * 2 ^ 4) (300 * second) in
    (outbox_retry_delay (4 + 1) ≡ wait)
    × (retry_delay (some (4 + 1)) ≡ wait)
    × (delay default_reference_retry_policy (4 + 1) ≡ wait)
schedules_agree_example = schedules_agree 4

-- One second before the expiration the next attempt is at the expiration.
next_attempt_at_bounds_example :
    let next = next_attempt_at default_reference_retry_policy (9 * second) (10 * second) 3 in
    (9 * second + 1 ≤ next) × (next ≤ 10 * second) × (next ≤ 9 * second + 300 * second)
next_attempt_at_bounds_example =
    next_attempt_at_bounds default_reference_retry_policy (9 * second) (10 * second) 3 (omega arith)
      (omega arith) (omega arith) (omega arith) (omega arith)
