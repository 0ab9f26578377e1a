-- ===== src/Webhooks/Bounds.antt =====
-- packages/webhooks/src/delivery.ts: when the next attempt is due.
use cell_flow.Prelude.{
  zero, suc, refl, ℕ, ◌+◌, ◌≤◌, ◌<◌, ◌≡◌, Option, some, none, String, arith, min, ◌^◌,
}
use cell_flow.Webhooks.{
  Attempting, most_attempts, next_webhook_attempt, retry_after_ms, webhook_backoff_ms, read_delay,
  date_delay, Reading, or_backoff,
}

date_delay_bounded :
    (now : ℕ) (date : Option ℕ) (ms : ℕ) → date_delay now date ≡ some ms → ms ≤ 3600000
unfolding date_delay
date_delay_bounded now date ms h = ground arith

read_delay_bounded :
    (reading : Reading) (value : String) (now : ℕ) (parsed : Option ℕ) (ms : ℕ)
    → read_delay reading value now parsed ≡ some ms
    → ms ≤ 3600000
unfolding read_delay
read_delay_bounded reading value now none ms h = date_delay_bounded now (reading.date value) ms h
read_delay_bounded reading value now (some parsed) ms h = ground arith

retry_after_bounded :
    (reading : Reading) (value : Option String) (now ms : ℕ)
    → retry_after_ms reading value now ≡ some ms
    → ms ≤ 3600000
unfolding retry_after_ms
retry_after_bounded reading none now ms h = ground arith
retry_after_bounded reading (some value) now ms h =
    ground (arith, read_delay_bounded reading value now (reading.milliseconds value) ms)

power_upto : (n : ℕ) → n ≤ 8 → 2 ^ n ≤ 256
power_upto zero h = omega arith
power_upto (suc zero) h = omega arith
power_upto (suc (suc zero)) h = omega arith
power_upto (suc (suc (suc zero))) h = omega arith
power_upto (suc (suc (suc (suc zero)))) h = omega arith
power_upto (suc (suc (suc (suc (suc zero))))) h = omega arith
power_upto (suc (suc (suc (suc (suc (suc zero)))))) h = omega arith
power_upto (suc (suc (suc (suc (suc (suc (suc zero))))))) h = omega arith
power_upto (suc (suc (suc (suc (suc (suc (suc (suc zero)))))))) h = omega arith
power_upto (suc (suc (suc (suc (suc (suc (suc (suc (suc n))))))))) h = omega (arith, h)

power_bounded : (n : ℕ) → 2 ^ min n 8 ≤ 256
power_bounded n = power_upto (min n 8) (omega arith)

webhook_backoff_bounded :
    (draw attempt : ℕ) → draw < 1000 → webhook_backoff_ms draw attempt ≤ 3600000
unfolding webhook_backoff_ms
webhook_backoff_bounded draw attempt h = omega (arith, power_bounded attempt, h)

or_backoff_bounded :
    (draw attempt : ℕ) (delay : Option ℕ)
    → draw < 1000
    → ((ms : ℕ) → delay ≡ some ms → ms ≤ 3600000)
    → or_backoff draw attempt delay ≤ 3600000
or_backoff_bounded draw attempt none low h = webhook_backoff_bounded draw attempt low
or_backoff_bounded draw attempt (some ms) low h = h ms refl

-- Where a next attempt is made, the attempts stay below the maximum, which is at most 20, and it is
-- due within an hour of the clock, whatever the server asks for.
pub next_webhook_attempt_bounded :
    (p : Attempting) (attempt_count : ℕ) (retry_after : Option String) (at : ℕ)
    → p.draw < 1000
    → next_webhook_attempt p attempt_count retry_after ≡ some at
    → (attempt_count + 1 < most_attempts p)
      × (most_attempts p ≤ 20)
      × (p.now ≤ at)
      × (at ≤ p.now + 3600000)
unfolding next_webhook_attempt
next_webhook_attempt_bounded p attempt_count retry_after at low h =
    let delay = retry_after_ms p.reading retry_after p.now in
    ground (
      arith,
      or_backoff_bounded p.draw (attempt_count + 1) delay low
          (retry_after_bounded p.reading retry_after p.now),
    )
