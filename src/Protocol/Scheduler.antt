-- ===== src/Protocol/Scheduler.antt =====
-- packages/protocol/src/scheduler.ts: the queue of RPC jobs, its timer, the runs in progress, the
-- hard-quota cooldown and the counters. An asynchronous `execute` is a `Run` with the phase that it
-- waits in; `step` is what the event loop can do next. Times are milliseconds.
pub mod Counters
pub mod Limits
pub mod Frame
pub mod Rules
pub mod Slots
pub mod Awake
pub mod Jobs
pub mod Attempts
pub mod Accounts
pub mod Balance
pub mod Quota
pub mod Backoff
mod Tests
use evidra_protocol.Base.{
  ℕ, zero, ◌+◌, ◌-◌, ◌*◌, ◌/◌, ◌^◌, min, max, Bool, true, false, not, ◌&&◌, ◌||◌, Option, none,
  some, List, [], ◌∷◌, ◌++◌, Text, lit, to_lower, includes, length, get_elem?, set, erase_idx, ltb,
  leb, is_some, or_default, if◌then◌else◌,
}
use evidra_protocol.Protocol.Errors.{
  Thrown, plain_error, no_attrs, NormalizedError, normalize_error, is_hard_quota_error, is_status,
}
use Counters.{
  Meta, Metric, total, success, rate_limited, server_errors, retries, suppressed, hard_quota,
  Metrics, no_metrics, count_metric,
}
use Limits.{Options, Config, configure}

pub record Job : Type 0 where
  pub id : ℕ
  pub meta : Meta

-- How the promise of a job was settled. A value is a token, since it is only passed on.
pub data Settlement : Type 0 where
  resolved : ℕ → Settlement
  rejected : NormalizedError → Settlement

-- What the promise of `job.run()` comes to.
pub data Reply : Type 0 where
  returned : ℕ → Reply
  threw : Thrown → Reply

-- Where an `execute` waits: for the reply of its attempt, or for the end of its delay. `finished`
-- is an `execute` that has returned and whose `finally` is still to run.
pub data Phase : Type 0 where
  calling : Phase
  delayed : ℕ → Phase
  finished : Phase

pub record Run : Type 0 where
  pub job : Job
  pub attempt : ℕ
  pub phase : Phase

-- The object's fields, the time at which the pump's timer is due, the runs, and the promises that
-- were settled, the last one first.
pub record Scheduler : Type 0 where
  pub config : Config
  pub queue : List Job
  pub metrics : Metrics
  pub active : ℕ
  pub last_started_at : ℕ
  pub pump_scheduled : Bool
  pub pump_due : ℕ
  pub cooldown_until : Option ℕ
  pub runs : List Run
  pub settled : List (ℕ × Settlement)

unfoldable pub new_scheduler : Config → Scheduler
new_scheduler c = record {
  config = c;
  queue = [];
  metrics = no_metrics;
  active = 0;
  last_started_at = 0;
  pump_scheduled = false;
  pump_due = 0;
  cooldown_until = none;
  runs = [];
  settled = [];
}

abbrev pub expired : ℕ → Option ℕ → Bool
expired now none = false
expired now (some t) = leb t now

-- `isHardQuotaCoolingDown` forgets a cooldown that has run out, and tells if one is left.
pub check_cooldown : ℕ → Scheduler → Scheduler
check_cooldown now s =
    if expired now s.cooldown_until then record s { cooldown_until = none } else s

unfoldable pub is_cooling_down : ℕ → Scheduler → Bool
unfolding check_cooldown
is_cooling_down now s = is_some (check_cooldown now s).cooldown_until

-- `restoreHardQuotaCooldown`
unfoldable pub restore_cooldown : ℕ → ℕ → Scheduler → Scheduler
restore_cooldown now until s =
    if ltb now until
    then record s { cooldown_until = some (max (or_default s.cooldown_until 0) until) }
    else s

-- `cooldownError`
pub cooldown_error : NormalizedError
cooldown_error = normalize_error (plain_error (lit "RPC quota cooldown active") no_attrs)

unfoldable pub count_for : Meta → Metric → Scheduler → Scheduler
count_for m field s = record s { metrics = count_metric m field s.metrics }

unfoldable pub settle : Job → Settlement → Scheduler → Scheduler
settle job how s = record s { settled = (job.id, how) ∷ s.settled }

-- A job that the cooldown turns away.
unfoldable pub suppress : NormalizedError → Job → Scheduler → Scheduler
unfolding count_for settle
suppress failure job s = settle job (rejected failure) (count_for job.meta suppressed s)

abbrev pub no_jobs : List Job → Bool
no_jobs [] = true
no_jobs (j ∷ js) = false

-- `pump`: at most one timer at a time, and only below the limit. The wait is
-- max(0, minInterval - (now - lastStartedAt)).
unfoldable pub pump : ℕ → Scheduler → Scheduler
pump now s =
    if s.pump_scheduled || leb s.config.concurrency s.active || no_jobs s.queue
    then s
    else record s {
      pump_scheduled = true;
      pump_due = now + ((s.config.min_interval + s.last_started_at) - now);
    }

abbrev pub enqueue : Job → Scheduler → Scheduler
enqueue job s = record s { queue = s.queue ++ (job ∷ []) }

-- `schedule`
unfoldable pub schedule : ℕ → Job → Scheduler → Scheduler
unfolding check_cooldown suppress pump
schedule now job s =
    let s' = check_cooldown now s in
    if is_some s'.cooldown_until then suppress cooldown_error job s' else pump now (enqueue job s')

-- The start of `execute`: its first attempt is counted and called.
unfoldable pub start : ℕ → Job → Scheduler → Scheduler
unfolding count_for
start now job s = count_for job.meta total (record s {
  active = s.active + 1;
  last_started_at = now;
  runs = (record { job = job; attempt = 0; phase = calling }) ∷ s.runs;
})

abbrev pub take_job : ℕ → List Job → Scheduler → Scheduler
take_job now [] s = s
take_job now (job ∷ jobs) s =
    let s' = check_cooldown now (record s { queue = jobs }) in
    if is_some s'.cooldown_until
    then pump now (suppress cooldown_error job s')
    else start now job s'

-- The callback of the pump's timer.
unfoldable pub on_pump_timer : ℕ → Scheduler → Scheduler
unfolding check_cooldown suppress pump start
on_pump_timer now s = take_job now s.queue (record s { pump_scheduled = false })

unfoldable pub set_run : ℕ → Run → Scheduler → Scheduler
set_run i r s = record s { runs = set s.runs i r }

-- `for (const queued of this.queue.splice(0))`
unfoldable pub reject_all : NormalizedError → List Job → Scheduler → Scheduler
unfolding suppress
reject_all failure [] s = s
reject_all failure (job ∷ jobs) s = reject_all failure jobs (suppress failure job s)

abbrev pub flush_queue : NormalizedError → Scheduler → Scheduler
flush_queue failure s = reject_all failure s.queue (record s { queue = [] })

abbrev pub count_if : Bool → Meta → Metric → Scheduler → Scheduler
count_if b m field s = if b then count_for m field s else s

abbrev pub has_rate_limit : NormalizedError → Bool
has_rate_limit n = is_status 429 n.status_code || includes (to_lower n.detail) (lit "rate limit")

abbrev pub has_server_error : NormalizedError → Bool
has_server_error n =
    is_status 500 n.status_code
    || is_status 502 n.status_code
    || is_status 503 n.status_code
    || is_status 504 n.status_code

-- Math.floor(Math.random() * Math.max(1, Math.floor(exponential / 4))), for a random number num / den.
pub jitter : (num den exponential : ℕ) → ℕ
jitter num den exponential = num * max 1 (exponential / 4) / den

pub exponential : Config → ℕ → ℕ
exponential c attempt = min c.max_delay (c.base_delay * 2 ^ attempt)

-- The delay before the next attempt.
unfoldable pub backoff : Config → ℕ → NormalizedError → (num den : ℕ) → ℕ
unfolding jitter exponential
backoff c attempt n num den =
    max (or_default n.retry_after_ms 0)
      (exponential c attempt + jitter num den (exponential c attempt))

unfoldable pub finish_run : ℕ → Run → Scheduler → Scheduler
unfolding set_run
finish_run i r s = set_run i (record r { phase = finished }) s

-- The provider's quota is used up: the cooldown begins, and the queue is turned away with the job.
unfoldable pub on_hard_quota : (now i : ℕ) → Run → NormalizedError → Scheduler → Scheduler
unfolding count_for settle finish_run
on_hard_quota now i r n s = finish_run i r (
    flush_queue n (
      settle r.job (rejected n) (
        count_for r.job.meta hard_quota
          (record s { cooldown_until = some (now + s.config.cooldown) }))))

unfoldable pub on_retry : (now num den i : ℕ) → Run → NormalizedError → Scheduler → Scheduler
unfolding count_for set_run
on_retry now num den i r n s =
    set_run i (record r { phase = delayed (now + backoff s.config r.attempt n num den) })
      (count_for r.job.meta retries s)

-- The counters of an error.
unfoldable pub count_error : Meta → NormalizedError → Scheduler → Scheduler
unfolding count_for
count_error m n s =
    count_if (has_server_error n) m server_errors (count_if (has_rate_limit n) m rate_limited s)

-- The `catch` of an attempt.
unfoldable pub on_error : (now num den i : ℕ) → Run → Thrown → Scheduler → Scheduler
on_error now num den i r e s =
    let n = normalize_error e in
    let s' = count_error r.job.meta n s in
    if is_hard_quota_error e
    then on_hard_quota now i r n s'
    else if not n.retryable || leb s.config.max_retries r.attempt
    then finish_run i r (settle r.job (rejected n) s')
    else on_retry now num den i r n s'

unfoldable pub on_value : ℕ → Run → ℕ → Scheduler → Scheduler
unfolding count_for settle finish_run
on_value i r v s = finish_run i r (count_for r.job.meta success (settle r.job (resolved v) s))

unfoldable pub on_reply : (now num den i : ℕ) → Run → Reply → Scheduler → Scheduler
on_reply now num den i r (returned v) s = on_value i r v s
on_reply now num den i r (threw e) s = on_error now num den i r e s

-- The delay is over: the next attempt.
unfoldable pub on_delay_over : ℕ → Run → Scheduler → Scheduler
unfolding count_for set_run
on_delay_over i r s =
    count_for r.job.meta total (set_run i (record r { attempt = r.attempt + 1; phase = calling }) s)

-- The `finally` of the pump.
unfoldable pub on_finally : ℕ → ℕ → Scheduler → Scheduler
unfolding pump
on_finally now i s = pump now (record s { active = s.active - 1; runs = erase_idx s.runs i })

-- What the event loop does next, at the time of the clock. A run is named by its place.
pub data Event : Type 0 where
  called : Job → Event
  pump_timer : Event
  restored : (until : ℕ) → Event
  replied : (i num den : ℕ) → Reply → Event
  delay_over finally_ : ℕ → Event

abbrev pub run_step : ℕ → Event → Phase → Run → Scheduler → Scheduler
run_step now (replied i num den reply) calling r s = on_reply now num den i r reply s
run_step now (delay_over i) (delayed due) r s = if leb due now then on_delay_over i r s else s
run_step now (finally_ i) finished r s = on_finally now i s
run_step now _ _ r s = s

abbrev pub at_run : ℕ → Event → Option Run → Scheduler → Scheduler
at_run now e none s = s
at_run now e (some r) s = run_step now e r.phase r s

-- An event that cannot happen in the state changes nothing.
unfoldable pub step : ℕ → Event → Scheduler → Scheduler
step now (called job) s = schedule now job s
step now (restored until) s = restore_cooldown now until s
step now pump_timer s = if s.pump_scheduled && leb s.pump_due now then on_pump_timer now s else s
step now (replied i num den reply) s = at_run now (replied i num den reply) (get_elem? s.runs i) s
step now (delay_over i) s = at_run now (delay_over i) (get_elem? s.runs i) s
step now (finally_ i) s = at_run now (finally_ i) (get_elem? s.runs i) s

-- A history: timed events, the first one first.
unfoldable pub run_events : List (ℕ × Event) → Scheduler → Scheduler
run_events [] s = s
run_events ((now, e) ∷ es) s = run_events es (step now e s)

-- The scheduler that the constructor makes from its options, after a history.
abbrev pub reached : Options → List (ℕ × Event) → Scheduler
reached o es = run_events es (new_scheduler (configure o))
