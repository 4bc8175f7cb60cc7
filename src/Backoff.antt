-- ===== src/Backoff.antt =====
-- The waits before another attempt: internal/application/wager_reference.go (pending references),
-- internal/application/outbox_dispatcher_service.go (publications) and
-- internal/infrastructure/sqs/consumer.go (messages). A duration is an int64 of nanoseconds, a
-- count of attempts an int from 0 on; an instant is a number of nanoseconds.
pub mod Laws
use junglegaming_test.Base.{
  ℕ, zero, suc, ◌+◌, ◌-◌, ◌*◌, ◌≤◌, Bool, Option, none, some, ltb, leb, if◌then◌else◌,
}
use junglegaming_test.Base.Int.{ltb64, mul64}

-- `time.Second`
abbrev pub second : ℕ
second = 1000000000

-- `min` on durations.
unfoldable pub min64 : ℕ → ℕ → ℕ
min64 a b = if ltb64 b a then b else a

-- `for i := 1; i < attempt && delay < max; i++ { delay *= 2 }` with `attempt - 1` rounds left.
unfoldable pub doubling : ℕ → ℕ → ℕ → ℕ
doubling zero max delay = delay
doubling (suc n) max delay =
    let rest = doubling n max (mul64 delay 2) in if ltb64 delay max then rest else delay

-- `ReferenceRetryPolicy`
pub record ReferenceRetryPolicy : Type 0 where
  pub initial_delay : ℕ
  pub max_delay : ℕ
  pub ttl : ℕ

abbrev pub default_reference_retry_policy : ReferenceRetryPolicy
default_reference_retry_policy = record {
  initial_delay = 5 * second;
  max_delay = 300 * second;
  ttl = 86400 * second;
}

unfoldable pub delay : ReferenceRetryPolicy → ℕ → ℕ
unfolding min64
delay p attempt = min64 (doubling (attempt - 1) p.max_delay p.initial_delay) p.max_delay

unfoldable pub next_attempt_at : ReferenceRetryPolicy → ℕ → ℕ → ℕ → ℕ
next_attempt_at p now expires_at attempt =
    let next = now + delay p attempt in if ltb expires_at next then expires_at else next

abbrev pub outbox_lease_duration : ℕ
outbox_lease_duration = 30 * second

abbrev pub initial_outbox_retry_delay : ℕ
initial_outbox_retry_delay = 5 * second

abbrev pub max_outbox_retry_delay : ℕ
max_outbox_retry_delay = 300 * second

-- The loop of `outboxRetryDelay`, with the rounds left; half the limit is 150 seconds.
unfoldable pub outbox_doubling : ℕ → ℕ → ℕ
outbox_doubling zero delay = delay
outbox_doubling (suc n) delay =
    let rest = outbox_doubling n (mul64 delay 2) in
    if ltb64 delay (150 * second) then rest else max_outbox_retry_delay

unfoldable pub outbox_retry_delay : ℕ → ℕ
outbox_retry_delay attempts =
    if leb attempts 1
    then initial_outbox_retry_delay
    else outbox_doubling (attempts - 1) initial_outbox_retry_delay

abbrev pub retry_base_delay : ℕ
retry_base_delay = 5 * second

abbrev pub retry_max_delay : ℕ
retry_max_delay = 300 * second

-- `receiveCount`: the parsed attribute, or nothing where `strconv.Atoi` fails.
unfoldable pub receive_count : Option ℕ → ℕ
receive_count none = 1
receive_count (some count) = if ltb count 1 then 1 else count

-- `retryDelay`
unfoldable pub retry_delay : Option ℕ → ℕ
unfolding min64 receive_count
retry_delay attribute =
    min64 (doubling (receive_count attribute - 1) retry_max_delay retry_base_delay) retry_max_delay
