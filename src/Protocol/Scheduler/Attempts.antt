-- ===== src/Protocol/Scheduler/Attempts.antt =====
-- The retry limit of packages/protocol/src/scheduler.ts.
use evidra_protocol.Base.{
  ℕ, ◌+◌, ◌≤◌, ◌<◌, ◌≡◌, sym, subst, inl, inr, false, some, List, ◌∷◌, arith, leb, set, All,
  All-get_elem?, All-set, All-erase_idx, get_elem?,
}
use evidra_protocol.Protocol.Scheduler.{
  Scheduler, Event, Job, Run, calling, delayed, finished, reached, new_scheduler, schedule,
  on_pump_timer, on_value, on_retry, on_delay_over, on_finally, finish_run, settle,
}
use evidra_protocol.Protocol.Scheduler.Limits.{Options, Config, configure}
use evidra_protocol.Protocol.Scheduler.Rules.{Keeps, history_keeps}
use evidra_protocol.Protocol.Scheduler.Frame.{
  on_hard_quota_lem, count_error_lem, pump_lem, runs-schedule, config-schedule, runs-on_pump_timer,
  config-on_pump_timer,
}
use evidra_protocol.Protocol.Scheduler.Slots.{config-run_events}

-- A run has made at most `limit` retries, and fewer while it waits for the next one.
pub IsWithin : ℕ → Run → Type 0
IsWithin limit r = (r.attempt ≤ limit) × ((due : ℕ) → r.phase ≡ delayed due → r.attempt < limit)

IsBudgeted : Scheduler → Type 0
IsBudgeted s = All (IsWithin s.config.max_retries) s.runs

finished-IsWithin :
    (limit : ℕ) (r : Run) → IsWithin limit r → IsWithin limit (record r { phase = finished })
unfolding IsWithin
finished-IsWithin limit r h = (h.0, λ due e. absurd (cc))

finished-IsBudgeted :
    (i : ℕ) (r : Run) (s : Scheduler)
    → get_elem? s.runs i ≡ some r
    → IsBudgeted s
    → All (IsWithin s.config.max_retries) (set s.runs i (record r { phase = finished }))
unfolding IsBudgeted
finished-IsBudgeted i r s f v =
    All-set _ s.runs i _ v (finished-IsWithin _ r (All-get_elem? _ s.runs i v f))

again :
    (limit : ℕ) (r : Run) (due : ℕ)
    → leb limit r.attempt ≡ false
    → IsWithin limit (record r { phase = delayed due })
unfolding IsWithin
again limit r due m = (ground arith, λ d e. ground arith)

next :
    (limit : ℕ) (r : Run) (due : ℕ)
    → r.phase ≡ delayed due
    → IsWithin limit r
    → IsWithin limit (record r { attempt = r.attempt + 1; phase = calling })
unfolding IsWithin
next limit r due w h = (omega (arith, h.1 due w), λ d e. absurd (cc))

Keeps-IsBudgeted : (now : ℕ) → Keeps now IsBudgeted
unfolding on_value finish_run settle on_retry on_delay_over IsBudgeted
Keeps-IsBudgeted now = record {
  value = λ i x r s h v. finished-IsBudgeted i r s h.found v;
  quota = λ i r n s h v.
      rw (on_hard_quota_lem, count_error_lem n r s) (finished-IsBudgeted i r s h.found v);
  failure = λ i r n s h v. rw (count_error_lem n r s) (finished-IsBudgeted i r s h.found v);
  retry =
      λ num den i r n s h m v. rw (count_error_lem n r s) (All-set _ s.runs i _ v (again _ r _ m));
  delay = λ i due r s h v.
      All-set _ s.runs i _ v (next _ r due h.waits (All-get_elem? _ s.runs i v h.found));
  last = λ i r s h v. unfold on_finally in rw pump_lem (All-erase_idx _ s.runs i v);
  restore = λ u s g v. v;
}

schedule-IsBudgeted :
    (now : ℕ) (job : Job) (s : Scheduler) → IsBudgeted s → IsBudgeted (schedule now job s)
unfolding IsBudgeted
schedule-IsBudgeted now job s v = rw (runs-schedule, config-schedule) v

on_pump_timer-IsBudgeted :
    (now : ℕ) (s : Scheduler) → IsBudgeted s → IsBudgeted (on_pump_timer now s)
unfolding IsBudgeted IsWithin
on_pump_timer-IsBudgeted now s v = elim (runs-on_pump_timer now s) [
  | inl e ↦ rw e (
      subst (λ (c : Config). All (IsWithin c.max_retries) s.runs) (sym (config-on_pump_timer now s))
        v)
  | inr (job, e) ↦ rw e (
      subst
        (λ (c : Config).
          All (IsWithin c.max_retries)
            (record { job = job; attempt = 0; phase = calling } ∷ s.runs))
        (sym (config-on_pump_timer now s)) ((omega arith, λ due p. absurd (cc)), v))
]

-- After any history, every run in progress is in its first attempt or in one of the retries that the
-- options allow, of which there are at most five, and a run that waits has a retry left.
pub attempt-le-max_retries :
    (o : Options) (es : List (ℕ × Event)) (i : ℕ) (r : Run)
    → get_elem? (reached o es).runs i ≡ some r
    → (r.attempt ≤ (configure o).max_retries)
      × ((configure o).max_retries ≤ 5)
      × ((due : ℕ) → r.phase ≡ delayed due → r.attempt < (configure o).max_retries)
unfolding IsBudgeted IsWithin
attempt-le-max_retries o es i r h =
    let v : IsBudgeted (reached o es) =
      history_keeps Keeps-IsBudgeted schedule-IsBudgeted
        (λ now s p d w. on_pump_timer-IsBudgeted now s w) es (new_scheduler (configure o))
        (unfold new_scheduler in tt) in
    let w = All-get_elem? (IsWithin (reached o es).config.max_retries) (reached o es).runs i v h in
    let w' : IsWithin (configure o).max_retries r =
      subst (λ (c : Config). IsWithin c.max_retries r) (config-run_events (configure o) es) w in
    (w'.0, unfold configure in omega arith, w'.1)
