-- ===== src/Protocol/Scheduler/Tests.antt =====
-- Runs of packages/protocol/src/scheduler.ts at concrete options and histories.
use evidra_protocol.Base.{
  ℕ, suc, ◌+◌, ◌/◌, ◌≤◌, ◌<◌, ◌≡◌, ◌⊎◌, max, refl, true, some, List, [], ◌∷◌, lit, length, sum_by,
  or_default, arith,
}
use evidra_protocol.Protocol.Regex.{test}
use evidra_protocol.Protocol.Errors.{Thrown, plain_error, no_attrs, is_hard_quota_error}
use evidra_protocol.Protocol.Scheduler.Counters.{Meta, read, retries}
use evidra_protocol.Protocol.Scheduler.Limits.{Options, configure}
use evidra_protocol.Protocol.Scheduler.Slots.{active-le-concurrency, starts_spaced}
use evidra_protocol.Protocol.Scheduler.Awake.{queue-served}
use evidra_protocol.Protocol.Scheduler.Jobs.{calls, is_job, is_live, is_settled, calls-accounted}
use evidra_protocol.Protocol.Scheduler.Attempts.{attempt-le-max_retries}
use evidra_protocol.Protocol.Scheduler.Accounts.{sum_of, totals-sum}
use evidra_protocol.Protocol.Scheduler.Balance.{
  is_resolved, is_rejected, is_calling, totals-settled,
}
use evidra_protocol.Protocol.Scheduler.Quota.{
  no_start_while_cooling, schedule-restore_cooldown, step-hard_quota,
}
use evidra_protocol.Protocol.Scheduler.Backoff.{backoff_bounds}
use evidra_protocol.Protocol.Scheduler.{
  Job, rejected, returned, threw, Run, calling, delayed, Scheduler, Event, called, pump_timer,
  replied, finally_, new_scheduler, schedule, step, run_events, reached, backoff, restore_cooldown,
  cooldown_error, on_pump_timer, pump, start, count_for,
}

abbrev options : Options
options = record {
  concurrency = some 2;
  min_interval_ms = some 100;
  max_retries = some 2;
  base_delay_ms = some 50;
  max_delay_ms = some 400;
  hard_quota_cooldown_ms = some 90000;
}

abbrev head_read : Meta
head_read = record { subsystem = some (lit "indexer"); method = some (lit "get_fact") }

abbrev first_job : Job
first_job = record { id = 1; meta = head_read }

abbrev second_job : Job
second_job = record { id = 2; meta = head_read }

-- Two calls, and the first of them is started.
abbrev started : List (ℕ × Event)
started = (1000, called first_job) ∷ (1000, called second_job) ∷ (1000, pump_timer) ∷ []

-- The first call returns and ends, and the second is started.
abbrev ended : List (ℕ × Event)
ended =
    (1000, called first_job)
    ∷ (1000, pump_timer)
    ∷ (1200, replied 0 0 1 (returned 7))
    ∷ (1200, finally_ 0)
    ∷ []

abbrev quota_error : Thrown
quota_error = plain_error (lit "Rate limit exceeded: 5000 requests per day") no_attrs

abbrev running : Run
running = record { job = first_job; attempt = 0; phase = calling }

abbrev busy : Scheduler
busy = record (new_scheduler (configure options)) {
  queue = second_job ∷ [];
  active = 1;
  runs = running ∷ [];
}

abbrev cooling : Scheduler
cooling = record busy { cooldown_until = some 61000 }

active-le-concurrency_example :
    (length (reached options started).runs ≡ (reached options started).active)
    × ((reached options started).active ≤ (configure options).concurrency)
    × (1 ≤ (configure options).concurrency)
    × ((configure options).concurrency ≤ 2)
active-le-concurrency_example = active-le-concurrency options started

starts_spaced_example :
    (((step 1050 pump_timer (reached options started)).last_started_at
        ≡ (reached options started).last_started_at)
      × ((step 1050 pump_timer (reached options started)).active
          ≤ (reached options started).active))
    ⊎ (((step 1050 pump_timer (reached options started)).last_started_at ≡ 1050)
        × ((reached options started).last_started_at + (configure options).min_interval ≤ 1050)
        × ((step 1050 pump_timer (reached options started)).active
            ≤ (reached options started).active + 1))
starts_spaced_example = starts_spaced options started 1050 pump_timer

queue-served_example :
    ((reached options started).pump_scheduled ≡ true) ⊎ (0 < (reached options started).active)
unfolding run_events new_scheduler configure step schedule on_pump_timer pump start count_for
queue-served_example = queue-served options started (λ e. absurd (cc))

calls-accounted_example :
    sum_by (is_job 2) (reached options started).queue
      + sum_by (is_live 2) (reached options started).runs
      + sum_by (is_settled 2) (reached options started).settled
    ≡ calls 2 started
calls-accounted_example = calls-accounted options started 2

attempt-le-max_retries_example :
    (running.attempt ≤ (configure options).max_retries)
    × ((configure options).max_retries ≤ 5)
    × ((due : ℕ) → running.phase ≡ delayed due → running.attempt < (configure options).max_retries)
unfolding run_events new_scheduler configure step schedule on_pump_timer pump start count_for
attempt-le-max_retries_example = attempt-le-max_retries options started 0 running refl

totals-sum_example :
    (sum_of retries (reached options ended).metrics.by_subsystem
      ≡ read retries (reached options ended).metrics.totals)
    × (sum_of retries (reached options ended).metrics.by_method
        ≡ read retries (reached options ended).metrics.totals)
totals-sum_example = totals-sum options ended retries

totals-settled_example :
    ((reached options ended).metrics.totals.success
      ≡ sum_by is_resolved (reached options ended).settled)
    × ((reached options ended).metrics.totals.total
          + (reached options ended).metrics.totals.suppressed
        ≡ (reached options ended).metrics.totals.success
          + (reached options ended).metrics.totals.retries
          + sum_by is_rejected (reached options ended).settled
          + sum_by is_calling (reached options ended).runs)
totals-settled_example = totals-settled options ended

no_start_while_cooling_example :
    ((run_events ((2000, pump_timer) ∷ (2000, called first_job) ∷ []) cooling).last_started_at
      ≡ cooling.last_started_at)
    × ((run_events ((2000, pump_timer) ∷ (2000, called first_job) ∷ []) cooling).active
        ≤ cooling.active)
    × (61000
        ≤ or_default
            (run_events ((2000, pump_timer) ∷ (2000, called first_job) ∷ []) cooling).cooldown_until
            0)
unfolding configure new_scheduler
no_start_while_cooling_example =
    no_start_while_cooling 61000 ((2000, pump_timer) ∷ (2000, called first_job) ∷ []) cooling refl
      ((omega arith, omega arith), ((omega arith, omega arith), tt))

schedule-restore_cooldown_example :
    ((run_events ((2000, pump_timer) ∷ []) (restore_cooldown 1500 61000 busy)).last_started_at
      ≡ busy.last_started_at)
    × ((run_events ((2000, pump_timer) ∷ []) (restore_cooldown 1500 61000 busy)).active
        ≤ busy.active)
    × ((schedule 3000 first_job
          (run_events ((2000, pump_timer) ∷ []) (restore_cooldown 1500 61000 busy))).settled
        ≡ (1, rejected cooldown_error)
          ∷ (run_events ((2000, pump_timer) ∷ []) (restore_cooldown 1500 61000 busy)).settled)
    × ((schedule 3000 first_job
          (run_events ((2000, pump_timer) ∷ []) (restore_cooldown 1500 61000 busy))).queue
        ≡ (run_events ((2000, pump_timer) ∷ []) (restore_cooldown 1500 61000 busy)).queue)
unfolding configure new_scheduler
schedule-restore_cooldown_example =
    schedule-restore_cooldown 1500 61000 3000 first_job ((2000, pump_timer) ∷ []) busy (omega arith)
      (omega arith) ((omega arith, omega arith), tt)

-- The running job is refused, and a job is called while the cooldown lasts.
abbrev refusal : Scheduler
refusal = step 2000 (replied 0 0 1 (threw quota_error)) busy

step-hard_quota_example :
    ((run_events ((5000, called first_job) ∷ (6000, finally_ 0) ∷ []) refusal).last_started_at
      ≡ busy.last_started_at)
    × ((run_events ((5000, called first_job) ∷ (6000, finally_ 0) ∷ []) refusal).active
        ≤ busy.active)
    × ((run_events ((5000, called first_job) ∷ (6000, finally_ 0) ∷ []) refusal).queue ≡ [])
unfolding configure new_scheduler is_hard_quota_error test
step-hard_quota_example =
    step-hard_quota 2000 0 0 1 running quota_error
      ((5000, called first_job) ∷ (6000, finally_ 0) ∷ []) busy refl refl refl
      ((omega arith, omega arith), ((omega arith, omega arith), tt))

backoff_bounds_example :
    ((configure options).base_delay ≤ backoff (configure options) 3 cooldown_error 3 4)
    × (or_default cooldown_error.retry_after_ms 0
        ≤ backoff (configure options) 3 cooldown_error 3 4)
    × (backoff (configure options) 3 cooldown_error 3 4
        < max
            (suc (or_default cooldown_error.retry_after_ms 0))
            ((configure options).max_delay + (configure options).max_delay / 4))
backoff_bounds_example = backoff_bounds options 3 3 4 cooldown_error (omega arith)
