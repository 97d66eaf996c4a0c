-- ===== src/Protocol/Scheduler/Jobs.antt =====
-- Every promise that packages/protocol/src/scheduler.ts hands out is settled once: a job is in the
-- queue, in a run that has not finished, or in the list of settled promises.
use evidra_protocol.Base.{
  ℕ, ◌+◌, ◌≡◌, refl, subst, Bool, true, false, some, List, [], ◌∷◌, arith, ◌==◌, set, sum_by,
  sum_by-append, sum_by-set, sum_by-erase_idx, get_elem?, if◌then◌else◌,
}
use evidra_protocol.Protocol.Errors.{NormalizedError}
use evidra_protocol.Protocol.Scheduler.{
  Scheduler, Event, called, restored, pump_timer, replied, delay_over, finally_, Job, Run, Phase,
  calling, delayed, finished, Settlement, rejected, reached, new_scheduler, run_events, step, pump,
  schedule, on_pump_timer, on_value, on_retry, on_delay_over, on_finally, finish_run, settle,
  backoff,
}
use evidra_protocol.Protocol.Scheduler.Limits.{Options, configure}
use evidra_protocol.Protocol.Scheduler.Rules.{Keeps, step_keeps}
use evidra_protocol.Protocol.Scheduler.Frame.{on_hard_quota_lem, count_error_lem, turn_away}

abbrev one_if : Bool → ℕ
one_if true = 1
one_if false = 0

abbrev pub is_job : ℕ → Job → ℕ
is_job id j = one_if (j.id == id)

abbrev is_open : Phase → Bool
is_open calling = true
is_open (delayed due) = true
is_open finished = false

abbrev pub is_live : ℕ → Run → ℕ
is_live id r = if is_open r.phase then is_job id r.job else 0

abbrev pub is_settled : ℕ → ℕ × Settlement → ℕ
is_settled id p = one_if (p.0 == id)

-- How many promises with this id wait, run and are settled.
abbrev pub tally : ℕ → Scheduler → ℕ
tally id s =
    sum_by (is_job id) s.queue + sum_by (is_live id) s.runs + sum_by (is_settled id) s.settled

abbrev pub is_call : ℕ → Event → ℕ
is_call id (called job) = is_job id job
is_call id _ = 0

abbrev pub calls : ℕ → List (ℕ × Event) → ℕ
calls id es = sum_by (λ (p : ℕ × Event). is_call id p.1) es

turn_away-settled :
    (id : ℕ) (n : NormalizedError) (jobs : List Job) (log : List (ℕ × Settlement))
    → sum_by (is_settled id) (turn_away n jobs log)
      ≡ sum_by (is_job id) jobs + sum_by (is_settled id) log
unfolding turn_away
turn_away-settled id n [] log = omega arith
turn_away-settled id n (j ∷ js) log =
    omega (arith, turn_away-settled id n js ((j.id, rejected n) ∷ log))

pump-tally : (id now : ℕ) (s : Scheduler) → tally id (pump now s) ≡ tally id s
unfolding pump
pump-tally id now s = ground arith

schedule-tally :
    (id now : ℕ) (job : Job) (s : Scheduler)
    → tally id (schedule now job s) ≡ tally id s + is_job id job
unfolding schedule
schedule-tally id now job s = ground (arith, sum_by-append (is_job id) s.queue (job ∷ []))

on_pump_timer-tally : (id now : ℕ) (s : Scheduler) → tally id (on_pump_timer now s) ≡ tally id s
unfolding on_pump_timer
on_pump_timer-tally id now s = ground arith

-- The weights before and after a run is replaced.
replaced :
    (id i : ℕ) (r r' : Run) (s : Scheduler)
    → get_elem? s.runs i ≡ some r
    → sum_by (is_live id) (set s.runs i r') + is_live id r
      ≡ sum_by (is_live id) s.runs + is_live id r'
replaced id i r r' s h = sum_by-set (is_live id) s.runs i r' r h

module _ (id k : ℕ) where
  HasTally : Scheduler → Type 0
  HasTally s = tally id s ≡ k

  Keeps-HasTally : (now : ℕ) → Keeps now HasTally
  unfolding HasTally on_value finish_run settle on_retry on_delay_over
  Keeps-HasTally now = record {
    value = λ i x r s h v.
        ground (arith, h.waits, replaced id i r (record r { phase = finished }) s h.found);
    quota = λ i r n s h v.
        rw (on_hard_quota_lem, count_error_lem n r s)
          (ground (
            arith,
            h.waits,
            replaced id i r (record r { phase = finished }) s h.found,
            turn_away-settled id n s.queue ((r.job.id, rejected n) ∷ s.settled),
          ));
    failure = λ i r n s h v.
        rw (count_error_lem n r s)
          (ground (arith, h.waits, replaced id i r (record r { phase = finished }) s h.found));
    retry = λ num den i r n s h m v.
        let r' : Run = record r { phase = delayed (now + backoff s.config r.attempt n num den) } in
        rw (count_error_lem n r s) (ground (arith, h.waits, replaced id i r r' s h.found));
    delay = λ i due r s h v. ground (
      arith,
      h.waits,
      replaced id i r (record r { attempt = r.attempt + 1; phase = calling }) s h.found,
    );
    last = λ i r s h v.
        unfold on_finally in
        ground (arith, h.waits, sum_by-erase_idx (is_live id) s.runs i r h.found);
    restore = λ u s g v. v;
  }

moved :
    (id now : ℕ) (e : Event) (s : Scheduler)
    → is_call id e ≡ 0
    → tally id (step now e s) ≡ tally id s
unfolding HasTally
moved id now e s c =
    step_keeps now (Keeps-HasTally id (tally id s) now) e s
      (λ job h.
        omega (arith, schedule-tally id now job s, subst (λ (x : Event). is_call id x ≡ 0) h c))
      (λ h d. on_pump_timer-tally id now s) refl

tally-step :
    (id now : ℕ) (e : Event) (s : Scheduler) → tally id (step now e s) ≡ tally id s + is_call id e
unfolding HasTally
tally-step id now (called job) s = unfold step in schedule-tally id now job s
tally-step id now (restored until) s = omega (arith, moved id now (restored until) s)
tally-step id now pump_timer s = omega (arith, moved id now pump_timer s)
tally-step id now (replied i num den reply) s =
    omega (arith, moved id now (replied i num den reply) s)
tally-step id now (delay_over i) s = omega (arith, moved id now (delay_over i) s)
tally-step id now (finally_ i) s = omega (arith, moved id now (finally_ i) s)

tally-run_events :
    (id : ℕ) (es : List (ℕ × Event)) (s : Scheduler)
    → tally id (run_events es s) ≡ tally id s + calls id es
unfolding run_events
tally-run_events id [] s = omega arith
tally-run_events id ((now, e) ∷ es) s =
    omega (arith, tally-run_events id es (step now e s), tally-step id now e s)

-- For every id and every history, the promises handed out under that id are as many as those that
-- wait in the queue, run, or have been settled: none is lost and none is settled twice. What is
-- thrown has a text here: `undefined`, a function or a symbol is left out.
pub calls-accounted :
    (o : Options) (es : List (ℕ × Event)) (id : ℕ)
    → sum_by (is_job id) (reached o es).queue
        + sum_by (is_live id) (reached o es).runs
        + sum_by (is_settled id) (reached o es).settled
      ≡ calls id es
unfolding new_scheduler
calls-accounted o es id = omega (arith, tally-run_events id es (new_scheduler (configure o)))
