-- ===== src/Protocol/Scheduler/Backoff.antt =====
-- The delay before a retry in packages/protocol/src/scheduler.ts.
use native.Mathlib.Nat.{pow-suc}
use evidra_protocol.Base.{ℕ, zero, suc, ◌+◌, ◌/◌, ◌^◌, ◌≤◌, ◌<◌, max, or_default, arith}
use evidra_protocol.Protocol.Errors.{NormalizedError}
use evidra_protocol.Protocol.Scheduler.{jitter, exponential, backoff}
use evidra_protocol.Protocol.Scheduler.Limits.{Options, Config, configure}

pow_pos : (n : ℕ) → 1 ≤ 2 ^ n
pow_pos zero = omega arith
pow_pos (suc n) = rw pow-suc (omega (arith, pow_pos n))

jitter-lt : (num den e : ℕ) → num < den → jitter num den e < max 1 (e / 4)
unfolding jitter
jitter-lt num den e h = grind arith

exponential_bounds :
    (c : Config) (attempt : ℕ)
    → c.base_delay ≤ c.max_delay
    → (c.base_delay ≤ exponential c attempt) × (exponential c attempt ≤ c.max_delay)
unfolding exponential
exponential_bounds c attempt h = (grind (arith, pow_pos attempt), omega arith)

-- The delay before a retry is at least the base delay and at least the delay that the server asked
-- for; above that request it stays below the maximal delay and its quarter. This holds for every
-- random number below one (`num / den`), every attempt and all options.
pub backoff_bounds :
    (o : Options) (attempt num den : ℕ) (n : NormalizedError)
    → num < den
    → ((configure o).base_delay ≤ backoff (configure o) attempt n num den)
      × (or_default n.retry_after_ms 0 ≤ backoff (configure o) attempt n num den)
      × (backoff (configure o) attempt n num den
          < max
              (suc (or_default n.retry_after_ms 0))
              ((configure o).max_delay + (configure o).max_delay / 4))
unfolding backoff
backoff_bounds o attempt num den n h =
    let c = configure o in
    let b : c.base_delay ≤ c.max_delay = unfold configure in omega arith in
    let big : 25 ≤ c.base_delay = unfold configure in omega arith in
    let e = exponential_bounds c attempt b in
    let j = jitter-lt num den (exponential c attempt) h in
    (omega (arith, e.0, e.1), omega arith, omega (arith, e.0, e.1, j, big))
