-- ===== src/Protocol/Scheduler/Accounts.antt =====
-- The counters of packages/protocol/src/scheduler.ts agree with one another and with the promises.
use evidra_protocol.Base.{
  ℕ, ◌+◌, ◌≡◌, refl, inl, inr, Bool, true, false, List, [], ◌∷◌, arith, Text, same, or_default, lit,
  sum_by, Bool-cases,
}
use evidra_protocol.Protocol.Errors.{NormalizedError}
use evidra_protocol.Protocol.Scheduler.{
  Scheduler, Event, Job, reached, new_scheduler, on_value, on_retry, on_delay_over, on_finally,
  finish_run, settle, count_error, count_if, count_for, has_server_error, has_rate_limit,
  run_events,
}
use evidra_protocol.Protocol.Scheduler.Counters.{
  Meta, Metric, Bucket, BucketMap, Metrics, total, success, rate_limited, server_errors, retries,
  suppressed, hard_quota, read, bump, bump_key, count_metric, empty_bucket,
}
use evidra_protocol.Protocol.Scheduler.Limits.{Options, configure}
use evidra_protocol.Protocol.Scheduler.Rules.{Keeps, history_keeps}
use evidra_protocol.Protocol.Scheduler.Frame.{
  on_hard_quota_lem, count_suppressed, pump_lem, metrics-schedule, metrics-on_pump_timer,
}

-- What one count adds to a counter.
abbrev hit : Metric → Metric → ℕ
hit f g = read g (bump f empty_bucket)

read-bump : (f g : Metric) (b : Bucket) → read g (bump f b) ≡ read g b + hit f g
read-bump total g b = ground arith
read-bump success g b = ground arith
read-bump rate_limited g b = ground arith
read-bump server_errors g b = ground arith
read-bump retries g b = ground arith
read-bump suppressed g b = ground arith
read-bump hard_quota g b = ground arith

-- A counter, added up over the keys of a map.
abbrev pub sum_of : Metric → BucketMap → ℕ
sum_of g m = sum_by (λ (p : Text × Bucket). read g p.1) m

sum_of-bump_key :
    (f g : Metric) (k : Text) (m : BucketMap) → sum_of g (bump_key f k m) ≡ sum_of g m + hit f g
unfolding bump_key
sum_of-bump_key f g k [] = omega arith
sum_of-bump_key f g k ((j, b) ∷ m) = elim (Bool-cases (same j k)) [
  | inl e ↦ rw e (omega (arith, read-bump f g b))
  | inr e ↦ rw e (omega (arith, sum_of-bump_key f g k m))
]

-- Each counter has the same sum in both maps as in the totals.
IsBalanced : Metric → Metrics → Type 0
IsBalanced g x =
    (sum_of g x.by_subsystem ≡ read g x.totals) × (sum_of g x.by_method ≡ read g x.totals)

count_metric-IsBalanced :
    (g : Metric) (m : Meta) (f : Metric) (x : Metrics)
    → IsBalanced g x
    → IsBalanced g (count_metric m f x)
unfolding IsBalanced count_metric
count_metric-IsBalanced g m f x v = (
  omega (
    arith,
    v.0,
    read-bump f g x.totals,
    sum_of-bump_key f g (or_default m.subsystem (lit "unspecified")) x.by_subsystem,
  ),
  omega (
    arith,
    v.1,
    read-bump f g x.totals,
    sum_of-bump_key f g (or_default m.method (lit "unknown")) x.by_method,
  ),
)

module _ (P : Metrics → Type 0)
    (keep : (m : Meta) (f : Metric) (x : Metrics) → P x → P (count_metric m f x)) where
  count_suppressed_keeps : (jobs : List Job) (x : Metrics) → P x → P (count_suppressed jobs x)
  unfolding count_suppressed
  count_suppressed_keeps [] x v = v
  count_suppressed_keeps (j ∷ js) x v = count_suppressed_keeps js _ (keep j.meta suppressed x v)

  count_if_keeps :
      (b : Bool) (m : Meta) (f : Metric) (s : Scheduler)
      → P s.metrics
      → P (count_if b m f s).metrics
  unfolding count_for
  count_if_keeps true m f s v = keep m f s.metrics v
  count_if_keeps false m f s v = v

  count_error_keeps :
      (m : Meta) (n : NormalizedError) (s : Scheduler) → P s.metrics → P (count_error m n s).metrics
  unfolding count_error
  count_error_keeps m n s v =
      count_if_keeps (has_server_error n) m server_errors _
        (count_if_keeps (has_rate_limit n) m rate_limited s v)

  Keeps-metrics : (now : ℕ) → Keeps now (λ s. P s.metrics)
  unfolding on_value finish_run settle on_retry on_delay_over
  Keeps-metrics now = record {
    value = λ i x r s h v. keep r.job.meta success s.metrics v;
    quota = λ i r n s h v. rw on_hard_quota_lem (
        count_suppressed_keeps _ _
          (keep r.job.meta hard_quota _ (count_error_keeps r.job.meta n s v)));
    failure = λ i r n s h v. count_error_keeps r.job.meta n s v;
    retry = λ num den i r n s h m v. keep r.job.meta retries _ (count_error_keeps r.job.meta n s v);
    delay = λ i due r s h v. keep r.job.meta total s.metrics v;
    last = λ i r s h v. unfold on_finally in rw pump_lem v;
    restore = λ u s g v. v;
  }

  metrics_keep : (es : List (ℕ × Event)) (s : Scheduler) → P s.metrics → P (run_events es s).metrics
  metrics_keep =
      history_keeps Keeps-metrics
        (λ now job s v. elim (metrics-schedule now job s) [
          | inl e ↦ rw e v
          | inr e ↦ rw e (keep job.meta suppressed s.metrics v)
        ])
        (λ now s p d v. elim (metrics-on_pump_timer now s) [
          | inl e ↦ rw e v
          | inr (m, f, e) ↦ rw e (keep m f s.metrics v)
        ])

zeros : (g : Metric) → ◌≡◌ {A = ℕ} 0 (read g empty_bucket)
zeros total = refl
zeros success = refl
zeros rate_limited = refl
zeros server_errors = refl
zeros retries = refl
zeros suppressed = refl
zeros hard_quota = refl

-- After any history each counter of the totals is the sum of that counter over the subsystems, and the
-- sum over the methods.
pub totals-sum :
    (o : Options) (es : List (ℕ × Event)) (g : Metric)
    → (sum_of g (reached o es).metrics.by_subsystem ≡ read g (reached o es).metrics.totals)
      × (sum_of g (reached o es).metrics.by_method ≡ read g (reached o es).metrics.totals)
unfolding IsBalanced new_scheduler
totals-sum o es g =
    metrics_keep (IsBalanced g) (count_metric-IsBalanced g) es (new_scheduler (configure o))
      (zeros g, zeros g)
