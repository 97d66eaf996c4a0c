-- ===== src/Protocol/Scheduler/Balance.antt =====
-- The counters of packages/protocol/src/scheduler.ts against the runs and the settled promises.
use evidra_protocol.Base.{
  ℕ, ◌+◌, ◌≡◌, refl, some, List, [], ◌∷◌, arith, set, length, sum_by, sum_by-set, sum_by-erase_idx,
  get_elem?,
}
use evidra_protocol.Protocol.Errors.{NormalizedError}
use evidra_protocol.Protocol.Scheduler.{
  Scheduler, Event, Job, Run, calling, delayed, finished, Settlement, resolved, rejected, reached,
  new_scheduler, schedule, on_pump_timer, on_value, on_retry, on_hard_quota, on_delay_over,
  on_finally, finish_run, settle, backoff, count_error,
}
use evidra_protocol.Protocol.Scheduler.Counters
use evidra_protocol.Protocol.Scheduler.Counters.{Metrics, count_metric}
use evidra_protocol.Protocol.Scheduler.Limits.{Options, configure}
use evidra_protocol.Protocol.Scheduler.Rules.{Keeps, history_keeps}
use evidra_protocol.Protocol.Scheduler.Frame.{
  on_hard_quota_lem, count_error_lem, turn_away, count_suppressed, pump_lem,
}

abbrev pub is_resolved : ℕ × Settlement → ℕ
is_resolved p = elim p.1 [ resolved v ↦ 1 | rejected n ↦ 0 ]

abbrev pub is_rejected : ℕ × Settlement → ℕ
is_rejected p = elim p.1 [ resolved v ↦ 0 | rejected n ↦ 1 ]

abbrev pub is_calling : Run → ℕ
is_calling r = elim r.phase [ calling ↦ 1 | delayed due ↦ 0 | finished ↦ 0 ]

turn_away-rejected :
    (n : NormalizedError) (jobs : List Job) (log : List (ℕ × Settlement))
    → (sum_by is_rejected (turn_away n jobs log) ≡ length jobs + sum_by is_rejected log)
      × (sum_by is_resolved (turn_away n jobs log) ≡ sum_by is_resolved log)
unfolding turn_away
turn_away-rejected n [] log = (omega arith, refl)
turn_away-rejected n (j ∷ js) log =
    let h = turn_away-rejected n js ((j.id, rejected n) ∷ log) in
    (omega (arith, h.0), omega (arith, h.1))

-- The counters that the accounts speak of.
record SameAccounts (x y : Metrics) : Type 0 where
  calls : y.totals.total ≡ x.totals.total
  values : y.totals.success ≡ x.totals.success
  again : y.totals.retries ≡ x.totals.retries

count_suppressed-accounts :
    (jobs : List Job) (x : Metrics)
    → SameAccounts x (count_suppressed jobs x)
      × ((count_suppressed jobs x).totals.suppressed ≡ x.totals.suppressed + length jobs)
unfolding count_suppressed count_metric
count_suppressed-accounts [] x = (record { calls = refl; values = refl; again = refl }, omega arith)
count_suppressed-accounts (j ∷ js) x =
    let h = count_suppressed-accounts js (count_metric j.meta Counters.suppressed x) in
    (record { calls = h.0.calls; values = h.0.values; again = h.0.again }, omega (arith, h.1))

count_error-accounts :
    (r : Run) (n : NormalizedError) (s : Scheduler)
    → SameAccounts s.metrics (count_error r.job.meta n s).metrics
      × ((count_error r.job.meta n s).metrics.totals.suppressed ≡ s.metrics.totals.suppressed)
unfolding count_error count_metric
count_error-accounts r n s = (ground arith, ground arith)

-- Every attempt that was counted ended in a value, in a retry or in a rejection, or is still under
-- way; a rejection that no attempt led to was counted as suppressed.
record IsAccounted (s : Scheduler) : Type 0 where
  attempts :
      s.metrics.totals.total + s.metrics.totals.suppressed
      ≡ s.metrics.totals.success
        + s.metrics.totals.retries
        + sum_by is_rejected s.settled
        + sum_by is_calling s.runs
  values : s.metrics.totals.success ≡ sum_by is_resolved s.settled

swapped :
    (i : ℕ) (r r' : Run) (s : Scheduler)
    → get_elem? s.runs i ≡ some r
    → sum_by is_calling (set s.runs i r') + is_calling r ≡ sum_by is_calling s.runs + is_calling r'
swapped i r r' s h = sum_by-set is_calling s.runs i r' r h

schedule-IsAccounted :
    (now : ℕ) (job : Job) (s : Scheduler) → IsAccounted s → IsAccounted (schedule now job s)
unfolding schedule count_metric
schedule-IsAccounted now job s v = ground arith

on_pump_timer-IsAccounted :
    (now : ℕ) (s : Scheduler) → IsAccounted s → IsAccounted (on_pump_timer now s)
unfolding on_pump_timer count_metric
on_pump_timer-IsAccounted now s v = ground arith

count_error-IsAccounted :
    (r : Run) (n : NormalizedError) (s : Scheduler)
    → IsAccounted s
    → IsAccounted (count_error r.job.meta n s)
count_error-IsAccounted r n s v =
    rw (count_error_lem n r s) (ground (arith, count_error-accounts r n s))

quota-IsAccounted :
    (now i : ℕ) (r : Run) (n : NormalizedError) (s : Scheduler)
    → get_elem? s.runs i ≡ some r
    → r.phase ≡ calling
    → IsAccounted s
    → IsAccounted (on_hard_quota now i r n s)
unfolding count_metric
quota-IsAccounted now i r n s f w v = rw on_hard_quota_lem (
    ground (
      arith,
      swapped i r (record r { phase = finished }) s f,
      turn_away-rejected n s.queue ((r.job.id, rejected n) ∷ s.settled),
      count_suppressed-accounts s.queue (count_metric r.job.meta Counters.hard_quota s.metrics),
    ))

failure-IsAccounted :
    (i : ℕ) (r : Run) (n : NormalizedError) (s : Scheduler)
    → get_elem? s.runs i ≡ some r
    → r.phase ≡ calling
    → IsAccounted s
    → IsAccounted (finish_run i r (settle r.job (rejected n) s))
unfolding finish_run settle
failure-IsAccounted i r n s f w v = ground (arith, swapped i r (record r { phase = finished }) s f)

retry-IsAccounted :
    (now num den i : ℕ) (r : Run) (n : NormalizedError) (s : Scheduler)
    → get_elem? s.runs i ≡ some r
    → r.phase ≡ calling
    → IsAccounted s
    → IsAccounted (on_retry now num den i r n s)
unfolding on_retry count_metric
retry-IsAccounted now num den i r n s f w v =
    let r' : Run = record r { phase = delayed (now + backoff s.config r.attempt n num den) } in
    ground (arith, swapped i r r' s f)

Keeps-IsAccounted : (now : ℕ) → Keeps now IsAccounted
unfolding on_value on_delay_over count_metric
Keeps-IsAccounted now = record {
  value =
      λ i x r s h v. ground (arith, h.waits, swapped i r (record r { phase = finished }) s h.found);
  quota = λ i r n s h v.
      quota-IsAccounted now i r n (count_error r.job.meta n s) (rw (count_error_lem n r s) h.found)
        h.waits (count_error-IsAccounted r n s v);
  failure = λ i r n s h v.
      failure-IsAccounted i r n (count_error r.job.meta n s) (rw (count_error_lem n r s) h.found)
        h.waits (count_error-IsAccounted r n s v);
  retry = λ num den i r n s h m v.
      retry-IsAccounted now num den i r n (count_error r.job.meta n s)
        (rw (count_error_lem n r s) h.found) h.waits (count_error-IsAccounted r n s v);
  delay = λ i due r s h v. ground (
    arith,
    h.waits,
    swapped i r (record r { attempt = r.attempt + 1; phase = calling }) s h.found,
  );
  last = λ i r s h v.
      unfold on_finally in
      rw pump_lem (ground (arith, h.waits, sum_by-erase_idx is_calling s.runs i r h.found));
  restore = λ u s g v. record { attempts = v.attempts; values = v.values };
}

-- After any history the counters account for every attempt and promise: `success` is the number of
-- promises resolved, and the attempts and suppressed jobs together are the successes, the retries, the
-- promises rejected and the attempts still under way.
pub totals-settled :
    (o : Options) (es : List (ℕ × Event))
    → ((reached o es).metrics.totals.success ≡ sum_by is_resolved (reached o es).settled)
      × ((reached o es).metrics.totals.total + (reached o es).metrics.totals.suppressed
          ≡ (reached o es).metrics.totals.success
            + (reached o es).metrics.totals.retries
            + sum_by is_rejected (reached o es).settled
            + sum_by is_calling (reached o es).runs)
totals-settled o es =
    let v : IsAccounted (reached o es) =
      history_keeps Keeps-IsAccounted schedule-IsAccounted
        (λ now s p d w. on_pump_timer-IsAccounted now s w) es (new_scheduler (configure o))
        (unfold new_scheduler in record { attempts = omega arith; values = refl }) in
    (v.values, v.attempts)
