-- ===== src/Protocol/Scheduler/Limits.antt =====
-- The options of packages/protocol/src/scheduler.ts and the limits that its constructor sets.
use evidra_protocol.Base.{ℕ, min, max, Option, or_default}

-- `SchedulerOptions`
pub record Options : Type 0 where
  pub concurrency : Option ℕ
  pub min_interval_ms : Option ℕ
  pub max_retries : Option ℕ
  pub base_delay_ms : Option ℕ
  pub max_delay_ms : Option ℕ
  pub hard_quota_cooldown_ms : Option ℕ

-- The private limits of `RpcScheduler`.
pub record Config : Type 0 where
  pub concurrency : ℕ
  pub min_interval : ℕ
  pub max_retries : ℕ
  pub base_delay : ℕ
  pub max_delay : ℕ
  pub cooldown : ℕ

unfoldable pub configure : Options → Config
configure o =
    let base = max 25 (or_default o.base_delay_ms 500) in
    record {
      concurrency = max 1 (min (or_default o.concurrency 1) 2);
      min_interval = max 0 (or_default o.min_interval_ms 2400);
      max_retries = max 0 (min (or_default o.max_retries 3) 5);
      base_delay = base;
      max_delay = max base (or_default o.max_delay_ms 15000);
      cooldown = max 60000 (or_default o.hard_quota_cooldown_ms 3600000);
    }
