-- ===== src/Protocol/Scheduler/Frame.antt =====
-- What the flush of the queue in packages/protocol/src/scheduler.ts leaves alone.
use evidra_protocol.Base.{
  ℕ, ◌+◌, ◌≡◌, refl, arith, ◌⊎◌, inl, inr, Bool-cases, false, is_some, some, set, List, [], ◌∷◌,
}
use evidra_protocol.Protocol.Errors.{NormalizedError}
use evidra_protocol.Protocol.Scheduler.{
  Scheduler, Job, Settlement, rejected, reject_all, Run, finished, calling, pump, schedule,
  on_pump_timer, take_job, expired, check_cooldown, on_hard_quota, count_error,
}
use evidra_protocol.Protocol.Scheduler.Counters.{
  Metrics, count_metric, Meta, Metric, suppressed, hard_quota, total,
}

unfoldable pub turn_away :
    NormalizedError → List Job → List (ℕ × Settlement) → List (ℕ × Settlement)
turn_away failure [] log = log
turn_away failure (job ∷ jobs) log = turn_away failure jobs ((job.id, rejected failure) ∷ log)

unfoldable pub count_suppressed : List Job → Metrics → Metrics
count_suppressed [] x = x
count_suppressed (job ∷ jobs) x = count_suppressed jobs (count_metric job.meta suppressed x)

pub reject_all_lem :
    (failure : NormalizedError) (jobs : List Job) (s : Scheduler)
    → reject_all failure jobs s ≡ record s {
      metrics = count_suppressed jobs s.metrics;
      settled = turn_away failure jobs s.settled;
    }
unfolding reject_all turn_away count_suppressed
reject_all_lem failure [] s = refl
reject_all_lem failure (job ∷ jobs) s = reject_all_lem failure jobs (record s {
  metrics = count_metric job.meta suppressed s.metrics;
  settled = (job.id, rejected failure) ∷ s.settled;
})

pub on_hard_quota_lem :
    (now i : ℕ) (r : Run) (n : NormalizedError) (s : Scheduler)
    → on_hard_quota now i r n s ≡ record s {
      queue = [];
      cooldown_until = some (now + s.config.cooldown);
      runs = set s.runs i (record r { phase = finished });
      metrics = count_suppressed s.queue (count_metric r.job.meta hard_quota s.metrics);
      settled = turn_away n s.queue ((r.job.id, rejected n) ∷ s.settled);
    }
unfolding on_hard_quota
on_hard_quota_lem now i r n s = rw reject_all_lem

-- Only the counters differ.
pub count_error_lem :
    (n : NormalizedError) (r : Run) (s : Scheduler)
    → count_error r.job.meta n s ≡ record s { metrics = (count_error r.job.meta n s).metrics }
unfolding count_error
count_error_lem n r s = ground arith

pub pump_lem :
    (now : ℕ) (s : Scheduler)
    → pump now s
      ≡ record s { pump_scheduled = (pump now s).pump_scheduled; pump_due = (pump now s).pump_due }
unfolding pump
pump_lem now s = ground arith

pub runs-schedule : (now : ℕ) (job : Job) (s : Scheduler) → (schedule now job s).runs ≡ s.runs
unfolding schedule
runs-schedule now job s = ground arith

pub config-schedule : (now : ℕ) (job : Job) (s : Scheduler) → (schedule now job s).config ≡ s.config
unfolding schedule
config-schedule now job s = ground arith

pub config-on_pump_timer : (now : ℕ) (s : Scheduler) → (on_pump_timer now s).config ≡ s.config
unfolding on_pump_timer
config-on_pump_timer now s = ground arith

-- The timer starts a job, or no run is added.
pub runs-on_pump_timer :
    (now : ℕ) (s : Scheduler)
    → ((on_pump_timer now s).runs ≡ s.runs)
      ⊎ ((job : Job) × ((on_pump_timer now s).runs
            ≡ (record { job = job; attempt = 0; phase = calling }) ∷ s.runs))
unfolding on_pump_timer
runs-on_pump_timer now s = go s.queue
  where
    go :
        (q : List Job)
        → ((take_job now q (record s { pump_scheduled = false })).runs ≡ s.runs)
          ⊎ ((job : Job) × ((take_job now q (record s { pump_scheduled = false })).runs
                ≡ (record { job = job; attempt = 0; phase = calling }) ∷ s.runs))
    go [] = inl refl
    go (job ∷ jobs) = elim (Bool-cases (expired now s.cooldown_until)) [
      | inl over ↦ inr (job, ground arith)
      | inr early ↦ elim (Bool-cases (is_some s.cooldown_until)) [
        | inl cooling ↦ inl (ground arith)
        | inr free ↦ inr (job, ground arith)
      ]
    ]

pub metrics-schedule :
    (now : ℕ) (job : Job) (s : Scheduler)
    → ((schedule now job s).metrics ≡ s.metrics)
      ⊎ ((schedule now job s).metrics ≡ count_metric job.meta suppressed s.metrics)
unfolding schedule
metrics-schedule now job s = ground arith

pub metrics-on_pump_timer :
    (now : ℕ) (s : Scheduler)
    → ((on_pump_timer now s).metrics ≡ s.metrics)
      ⊎ ((m : Meta) × (f : Metric) × ((on_pump_timer now s).metrics ≡ count_metric m f s.metrics))
unfolding on_pump_timer
metrics-on_pump_timer now s = go s.queue
  where
    go :
        (q : List Job)
        → ((take_job now q (record s { pump_scheduled = false })).metrics ≡ s.metrics)
          ⊎ ((m : Meta) × (f : Metric) × ((take_job now q
                  (record s { pump_scheduled = false })).metrics
                ≡ count_metric m f s.metrics))
    go [] = inl refl
    go (job ∷ jobs) = elim (Bool-cases (is_some (check_cooldown now s).cooldown_until)) [
      | inl cooling ↦ inr (job.meta, suppressed, ground arith)
      | inr free ↦ inr (job.meta, total, ground arith)
    ]
