-- ===== src/Protocol/Scheduler/Rules.antt =====
-- One rule for what every step of packages/protocol/src/scheduler.ts keeps: a case for each operation,
-- with the run that it works on.
use evidra_protocol.Base.{
  ℕ, ◌≤◌, ◌≡◌, refl, inl, inr, Bool, true, false, not, ◌&&◌, ◌||◌, Option, none, some, List, [],
  ◌∷◌, arith, get_elem?, leb, ltb, max, or_default, leb→le, Bool-cases, if◌then◌else◌,
}
use evidra_protocol.Protocol.Errors.{Thrown, NormalizedError, normalize_error, is_hard_quota_error}
use evidra_protocol.Protocol.Scheduler.{
  Scheduler, Event, called, restored, restore_cooldown, pump_timer, replied, delay_over, finally_,
  Job, Run, Reply, Phase, calling, delayed, finished, returned, threw, rejected, step, run_events,
  schedule, on_pump_timer, on_value, on_error, on_delay_over, on_finally, on_hard_quota, on_retry,
  on_reply, finish_run, settle, count_error, at_run, run_step,
}

-- The run at place `i` is `r`, in the given phase.
pub record At (s : Scheduler) (i : ℕ) (r : Run) (p : Phase) : Type 0 where
  pub found : get_elem? s.runs i ≡ some r
  pub waits : r.phase ≡ p

-- What one step at time `now` keeps, operation by operation.
pub record Keeps (now : ℕ) (P : Scheduler → Type 0) : Type 0 where
  pub value : (i v : ℕ) (r : Run) (s : Scheduler) → At s i r calling → P s → P (on_value i r v s)
  pub quota :
      (i : ℕ) (r : Run) (n : NormalizedError) (s : Scheduler)
      → At s i r calling
      → P s
      → P (on_hard_quota now i r n (count_error r.job.meta n s))
  pub failure :
      (i : ℕ) (r : Run) (n : NormalizedError) (s : Scheduler)
      → At s i r calling
      → P s
      → P (finish_run i r (settle r.job (rejected n) (count_error r.job.meta n s)))
  pub retry :
      (num den i : ℕ) (r : Run) (n : NormalizedError) (s : Scheduler)
      → At s i r calling
      → leb s.config.max_retries r.attempt ≡ false
      → P s
      → P (on_retry now num den i r n (count_error r.job.meta n s))
  pub delay :
      (i due : ℕ) (r : Run) (s : Scheduler) → At s i r (delayed due) → P s → P (on_delay_over i r s)
  pub last : (i : ℕ) (r : Run) (s : Scheduler) → At s i r finished → P s → P (on_finally now i s)
  pub restore :
      (until : ℕ) (s : Scheduler)
      → or_default s.cooldown_until 0 ≤ until
      → P s
      → P (record s { cooldown_until = some until })

right_false : (a b : Bool) → (a || b) ≡ false → b ≡ false
right_false a b h = ground arith

module _ {P : Scheduler → Type 0} (now : ℕ) (k : Keeps now P) where
  error_keeps :
      (num den i : ℕ) (r : Run) (e : Thrown) (s : Scheduler)
      → At s i r calling
      → P s
      → P (on_error now num den i r e s)
  unfolding on_error
  error_keeps num den i r e s h p = elim (Bool-cases (is_hard_quota_error e)) [
    | inl hard ↦ rw hard (k.quota i r (normalize_error e) s h p)
    | inr soft ↦
        rw soft
          (elim (Bool-cases
            (not (normalize_error e).retryable || leb s.config.max_retries r.attempt)) [
              | inl over ↦ rw over (k.failure i r (normalize_error e) s h p)
              | inr again ↦
                  rw again (k.retry num den i r (normalize_error e) s h (right_false _ _ again) p)
            ])
  ]

  reply_keeps :
      (num den i : ℕ) (reply : Reply) (p : Phase) (r : Run) (s : Scheduler)
      → At s i r p
      → P s
      → P (run_step now (replied i num den reply) p r s)
  unfolding on_reply
  reply_keeps num den i (returned v) calling r s h q = k.value i v r s h q
  reply_keeps num den i (threw e) calling r s h q = error_keeps num den i r e s h q
  reply_keeps num den i reply (delayed due) r s h q = q
  reply_keeps num den i reply finished r s h q = q

  delay_keeps :
      (i : ℕ) (p : Phase) (r : Run) (s : Scheduler)
      → At s i r p
      → P s
      → P (run_step now (delay_over i) p r s)
  delay_keeps i calling r s h q = q
  delay_keeps i (delayed due) r s h q = elim (Bool-cases (leb due now)) [
    | inl over ↦ rw over (k.delay i due r s h q)
    | inr early ↦ rw early q
  ]
  delay_keeps i finished r s h q = q

  finally_keeps :
      (i : ℕ) (p : Phase) (r : Run) (s : Scheduler)
      → At s i r p
      → P s
      → P (run_step now (finally_ i) p r s)
  finally_keeps i calling r s h q = q
  finally_keeps i (delayed due) r s h q = q
  finally_keeps i finished r s h q = k.last i r s h q

  at_keeps :
      (i : ℕ) (e : Event) (s : Scheduler)
      → ((r : Run) → At s i r r.phase → P (run_step now e r.phase r s))
      → P s
      → (o : Option Run) → get_elem? s.runs i ≡ o
      → P (at_run now e o s)
  at_keeps i e s f q none h = q
  at_keeps i e s f q (some r) h = f r (record { found = h; waits = refl })

  timer_keeps :
      (s : Scheduler) (scheduled due : Bool)
      → s.pump_scheduled ≡ scheduled
      → leb s.pump_due now ≡ due
      → (s.pump_scheduled ≡ true → s.pump_due ≤ now → P (on_pump_timer now s))
      → P s
      → P (if scheduled && due then on_pump_timer now s else s)
  timer_keeps s true true h d f q = f h (leb→le _ _ d)
  timer_keeps s true false h d f q = q
  timer_keeps s false due h d f q = q

  restore_keeps : (until : ℕ) (s : Scheduler) → P s → P (restore_cooldown now until s)
  unfolding restore_cooldown
  restore_keeps until s q = elim (Bool-cases (ltb now until)) [
    | inl later ↦ rw later (k.restore (max (or_default s.cooldown_until 0) until) s (omega arith) q)
    | inr over ↦ rw over q
  ]

  -- The two events that start something have a case of their own; any other keeps the predicate.
  pub step_keeps :
      (e : Event) (s : Scheduler)
      → ((job : Job) → e ≡ called job → P (schedule now job s))
      → (s.pump_scheduled ≡ true → s.pump_due ≤ now → P (on_pump_timer now s))
      → P s
      → P (step now e s)
  unfolding step
  step_keeps (called job) s c f q = c job refl
  step_keeps (restored until) s c f q = restore_keeps until s q
  step_keeps pump_timer s c f q = timer_keeps s s.pump_scheduled (leb s.pump_due now) refl refl f q
  step_keeps (replied i num den reply) s c f q =
      at_keeps i (replied i num den reply) s (λ r h. reply_keeps num den i reply r.phase r s h q) q
        (get_elem? s.runs i) refl
  step_keeps (delay_over i) s c f q =
      at_keeps i (delay_over i) s (λ r h. delay_keeps i r.phase r s h q) q (get_elem? s.runs i) refl
  step_keeps (finally_ i) s c f q =
      at_keeps i (finally_ i) s (λ r h. finally_keeps i r.phase r s h q) q (get_elem? s.runs i) refl

module _ {P : Scheduler → Type 0} (k : (now : ℕ) → Keeps now P) where
  -- A predicate that those two keep as well holds after every history.
  pub history_keeps :
      ((now : ℕ) (job : Job) (s : Scheduler) → P s → P (schedule now job s))
      → ((now : ℕ) (s : Scheduler)
          → s.pump_scheduled ≡ true
          → s.pump_due ≤ now
          → P s
          → P (on_pump_timer now s))
      → (es : List (ℕ × Event)) (s : Scheduler) → P s
      → P (run_events es s)
  unfolding run_events
  history_keeps c f [] s q = q
  history_keeps c f ((now, e) ∷ es) s q =
      history_keeps c f es (step now e s)
        (step_keeps now (k now) e s (λ job h. c now job s q) (λ h d. f now s h d q) q)
