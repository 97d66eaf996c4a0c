-- ===== src/Protocol/Scheduler/Slots.antt =====
-- The limit on concurrent runs and the spacing of starts in packages/protocol/src/scheduler.ts.
use evidra_protocol.Base.{
  ℕ, ◌+◌, ◌≤◌, ◌<◌, ◌≡◌, ◌⊎◌, inl, refl, sym, subst, true, some, List, arith, get_elem?, length,
  length-set, length-erase_idx,
}
use evidra_protocol.Protocol.Errors.{NormalizedError}
use evidra_protocol.Protocol.Scheduler.{
  Scheduler, Event, Job, Run, calling, delayed, finished, new_scheduler, reached, step, run_events,
  pump, schedule, on_pump_timer, on_value, on_delay_over, on_finally, set_run, on_hard_quota,
  count_error, on_retry, finish_run, settle, rejected, backoff,
}
use evidra_protocol.Protocol.Scheduler.Limits.{Config, Options, configure}
use evidra_protocol.Protocol.Scheduler.Rules.{Keeps, step_keeps, history_keeps}
use evidra_protocol.Protocol.Scheduler.Frame.{on_hard_quota_lem, count_error_lem}

pub record IsSlotted (s : Scheduler) : Type 0 where
  pub positive : 0 < s.config.concurrency
  pub slots : s.active ≡ length s.runs
  pub bound : s.active ≤ s.config.concurrency
  pub room : s.pump_scheduled ≡ true → s.active < s.config.concurrency
  pub due : s.pump_scheduled ≡ true → s.last_started_at + s.config.min_interval ≤ s.pump_due

pump-IsSlotted : (now : ℕ) {s : Scheduler} → IsSlotted s → IsSlotted (pump now s)
unfolding pump
pump-IsSlotted now v = ground arith

schedule-IsSlotted :
    (now : ℕ) (job : Job) {s : Scheduler} → IsSlotted s → IsSlotted (schedule now job s)
unfolding schedule
schedule-IsSlotted now job v = ground arith

on_pump_timer-IsSlotted :
    (now : ℕ) {s : Scheduler}
    → s.pump_scheduled ≡ true
    → IsSlotted s
    → IsSlotted (on_pump_timer now s)
unfolding on_pump_timer
on_pump_timer-IsSlotted now h v = ground arith

-- A run that is replaced, with whatever else the change leaves the limits alone.
set_run-IsSlotted : (i : ℕ) (r : Run) {s : Scheduler} → IsSlotted s → IsSlotted (set_run i r s)
unfolding set_run
set_run-IsSlotted i r {s} v = ground (arith, length-set s.runs i r)

on_value-IsSlotted :
    (i : ℕ) (r : Run) (x : ℕ) {s : Scheduler} → IsSlotted s → IsSlotted (on_value i r x s)
unfolding on_value
on_value-IsSlotted i r x {s} v = ground (arith, length-set s.runs i (record r { phase = finished }))

count_error-IsSlotted :
    (r : Run) (n : NormalizedError) {s : Scheduler}
    → IsSlotted s
    → IsSlotted (count_error r.job.meta n s)
count_error-IsSlotted r n {s} v = rw (count_error_lem n r s) (ground arith)

on_hard_quota-IsSlotted :
    (now i : ℕ) (r : Run) (n : NormalizedError) {s : Scheduler}
    → IsSlotted s
    → IsSlotted (on_hard_quota now i r n s)
on_hard_quota-IsSlotted now i r n {s} v =
    rw on_hard_quota_lem (ground (arith, length-set s.runs i (record r { phase = finished })))

failure-IsSlotted :
    (i : ℕ) (r : Run) (n : NormalizedError) {s : Scheduler}
    → IsSlotted s
    → IsSlotted (finish_run i r (settle r.job (rejected n) s))
unfolding settle finish_run
failure-IsSlotted i r n {s} v = ground (arith, length-set s.runs i (record r { phase = finished }))

on_retry-IsSlotted :
    (now num den i : ℕ) (r : Run) (n : NormalizedError) {s : Scheduler}
    → IsSlotted s
    → IsSlotted (on_retry now num den i r n s)
unfolding on_retry
on_retry-IsSlotted now num den i r n {s} v =
    let r' : Run = record r { phase = delayed (now + backoff s.config r.attempt n num den) } in
    ground (arith, length-set s.runs i r')

on_delay_over-IsSlotted :
    (i : ℕ) (r : Run) {s : Scheduler} → IsSlotted s → IsSlotted (on_delay_over i r s)
unfolding on_delay_over
on_delay_over-IsSlotted i r {s} v =
    ground (arith, length-set s.runs i (record r { attempt = r.attempt + 1; phase = calling }))

on_finally-IsSlotted :
    (now i : ℕ) (r : Run) {s : Scheduler}
    → get_elem? s.runs i ≡ some r
    → IsSlotted s
    → IsSlotted (on_finally now i s)
unfolding on_finally
on_finally-IsSlotted now i r {s} h v = ground (arith, length-erase_idx s.runs i h)

Keeps-IsSlotted : (now : ℕ) → Keeps now IsSlotted
Keeps-IsSlotted now = record {
  value = λ i x r s h v. on_value-IsSlotted i r x v;
  quota = λ i r n s h v. on_hard_quota-IsSlotted now i r n (count_error-IsSlotted r n v);
  failure = λ i r n s h v. failure-IsSlotted i r n (count_error-IsSlotted r n v);
  retry =
      λ num den i r n s h m v. on_retry-IsSlotted now num den i r n (count_error-IsSlotted r n v);
  delay = λ i due r s h v. on_delay_over-IsSlotted i r v;
  last = λ i r s h v. on_finally-IsSlotted now i r h.found v;
  restore = λ u s g v. ground arith;
}

pub run_events-IsSlotted :
    (es : List (ℕ × Event)) (s : Scheduler) → IsSlotted s → IsSlotted (run_events es s)
run_events-IsSlotted =
    history_keeps Keeps-IsSlotted (λ now job s v. schedule-IsSlotted now job v)
      (λ now s h d v. on_pump_timer-IsSlotted now h v)

new_scheduler-IsSlotted : (c : Config) → 0 < c.concurrency → IsSlotted (new_scheduler c)
unfolding new_scheduler
new_scheduler-IsSlotted c h = ground arith

pub reached-IsSlotted :
    (o : Options) (es : List (ℕ × Event)) → IsSlotted (run_events es (new_scheduler (configure o)))
reached-IsSlotted o es =
    run_events-IsSlotted es _
      (new_scheduler-IsSlotted (configure o) (unfold configure in omega arith))

-- The limits are those of the constructor for ever.
same_config : (c : Config) (now : ℕ) → Keeps now (λ s. s.config ≡ c)
unfolding on_value finish_run settle on_retry on_delay_over on_finally
same_config c now = record {
  value = λ i x r s h v. v;
  quota = λ i r n s h v. rw (on_hard_quota_lem, count_error_lem n r s) v;
  failure = λ i r n s h v. rw (count_error_lem n r s) v;
  retry = λ num den i r n s h m v. rw (count_error_lem n r s) v;
  delay = λ i due r s h v. v;
  last = λ i r s h v. ground arith;
  restore = λ u s g v. v;
}

pub config-run_events :
    (c : Config) (es : List (ℕ × Event)) → (run_events es (new_scheduler c)).config ≡ c
unfolding new_scheduler
config-run_events c es =
    history_keeps (same_config c) (λ now job s v. unfold schedule in ground arith)
      (λ now s h d v. unfold on_pump_timer in ground arith) es (new_scheduler c) refl

-- Whatever the options and whatever happens, the number of runs in progress is the `active` counter,
-- it never passes the configured concurrency, and that is one or two.
pub active-le-concurrency :
    (o : Options) (es : List (ℕ × Event))
    → (length (reached o es).runs ≡ (reached o es).active)
      × ((reached o es).active ≤ (configure o).concurrency)
      × (1 ≤ (configure o).concurrency)
      × ((configure o).concurrency ≤ 2)
active-le-concurrency o es =
    let v = reached-IsSlotted o es in
    (
      sym v.slots,
      subst (λ (c : Config). (reached o es).active ≤ c.concurrency) (config-run_events _ es)
          v.bound,
      unfold configure in omega arith,
      unfold configure in omega arith,
    )

-- What one event can do to the start time: nothing, or a start at `now`.
StartsBy : (interval now : ℕ) → Scheduler → Scheduler → Type 0
StartsBy interval now s t =
    ((t.last_started_at ≡ s.last_started_at) × (t.active ≤ s.active))
    ⊎ ((t.last_started_at ≡ now) × (s.last_started_at + interval ≤ now) × (t.active ≤ s.active + 1))

Keeps-StartsBy : (interval now : ℕ) (s : Scheduler) → Keeps now (StartsBy interval now s)
unfolding on_value finish_run settle on_retry on_delay_over on_finally StartsBy
Keeps-StartsBy interval now s = record {
  value = λ i x r t h v. v;
  quota = λ i r n t h v. rw (on_hard_quota_lem, count_error_lem n r t) v;
  failure = λ i r n t h v. rw (count_error_lem n r t) v;
  retry = λ num den i r n t h m v. rw (count_error_lem n r t) v;
  delay = λ i due r t h v. v;
  last = λ i r t h v. ground arith;
  restore = λ u t g v. v;
}

timer-StartsBy :
    (now : ℕ) (s : Scheduler)
    → IsSlotted s
    → s.pump_scheduled ≡ true
    → s.pump_due ≤ now
    → StartsBy s.config.min_interval now s (on_pump_timer now s)
unfolding on_pump_timer StartsBy
timer-StartsBy now s v h d = ground arith

schedule-StartsBy :
    (interval now : ℕ) (job : Job) (s : Scheduler) → StartsBy interval now s (schedule now job s)
unfolding schedule StartsBy
schedule-StartsBy interval now job s = ground arith

-- Starts are spaced: an event after any history makes no job start and leaves the time of the last
-- start, or it starts one job at the time of the event, which is at least the minimal interval after
-- the last start.
pub starts_spaced :
    (o : Options) (es : List (ℕ × Event)) (now : ℕ) (e : Event)
    → (((step now e (reached o es)).last_started_at ≡ (reached o es).last_started_at)
        × ((step now e (reached o es)).active ≤ (reached o es).active))
      ⊎ (((step now e (reached o es)).last_started_at ≡ now)
          × ((reached o es).last_started_at + (configure o).min_interval ≤ now)
          × ((step now e (reached o es)).active ≤ (reached o es).active + 1))
unfolding StartsBy
starts_spaced o es now e =
    let s = reached o es in
    let interval = s.config.min_interval in
    let spaced : StartsBy interval now s (step now e s) =
      step_keeps now (Keeps-StartsBy interval now s) e s
        (λ job h. schedule-StartsBy interval now job s)
        (λ h d. timer-StartsBy now s (reached-IsSlotted o es) h d) (inl (refl, omega arith)) in
    subst (λ (c : Config). StartsBy c.min_interval now s (step now e s)) (config-run_events _ es)
      spaced
