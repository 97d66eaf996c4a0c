-- ===== src/Protocol/Scheduler/Quota.antt =====
-- The hard-quota cooldown of packages/protocol/src/scheduler.ts.
use evidra_protocol.Base.{
  ℕ, ◌+◌, ◌≤◌, ◌<◌, ◌≡◌, refl, true, some, List, [], ◌∷◌, arith, or_default, get_elem?, All, ◌∙◌,
}
use evidra_protocol.Protocol.Errors.{Thrown, normalize_error, is_hard_quota_error}
use evidra_protocol.Protocol.Scheduler.{
  Scheduler, Event, Job, Run, threw, calling, rejected, step, replied, on_error, on_reply,
  run_events, schedule, on_pump_timer, on_value, on_retry, on_delay_over, on_finally, finish_run,
  settle, cooldown_error, restore_cooldown,
}
use evidra_protocol.Protocol.Scheduler.Rules.{Keeps, step_keeps}
use evidra_protocol.Protocol.Scheduler.Frame.{on_hard_quota_lem, count_error_lem}

-- A cooldown that lasts until a time, with the time of the last start and a bound on the runs.
CoolsUntil : (until span started active : ℕ) → Scheduler → Type 0
CoolsUntil until span started active s =
    (until ≤ or_default s.cooldown_until 0)
    × (s.config.cooldown ≡ span)
    × (s.last_started_at ≡ started)
    × (s.active ≤ active)

module _ (until span started active : ℕ) where
  schedule-CoolsUntil :
      (now : ℕ) (job : Job) (s : Scheduler)
      → now < until
      → CoolsUntil until span started active s
      → CoolsUntil until span started active (schedule now job s)
  unfolding schedule CoolsUntil
  schedule-CoolsUntil now job s h v = ground arith

  timer-CoolsUntil :
      (now : ℕ) (s : Scheduler)
      → now < until
      → CoolsUntil until span started active s
      → CoolsUntil until span started active (on_pump_timer now s)
  unfolding on_pump_timer CoolsUntil
  timer-CoolsUntil now s h v = ground arith

  Keeps-CoolsUntil :
      (now : ℕ) → until ≤ now + span → Keeps now (CoolsUntil until span started active)
  unfolding CoolsUntil on_value finish_run settle on_retry on_delay_over on_finally
  Keeps-CoolsUntil now l = record {
    value = λ i x r s h v. v;
    quota = λ i r n s h v. rw (on_hard_quota_lem, count_error_lem n r s) (ground arith);
    failure = λ i r n s h v. rw (count_error_lem n r s) v;
    retry = λ num den i r n s h m v. rw (count_error_lem n r s) v;
    delay = λ i due r s h v. v;
    last = λ i r s h v. ground arith;
    restore = λ u s g v. ground (arith, g);
  }

step-CoolsUntil :
    (until span started active now : ℕ) (e : Event) (s : Scheduler)
    → now < until
    → until ≤ now + span
    → CoolsUntil until span started active s
    → CoolsUntil until span started active (step now e s)
step-CoolsUntil until span started active now e s h l v =
    step_keeps now (Keeps-CoolsUntil until span started active now l) e s
      (λ job c. schedule-CoolsUntil until span started active now job s h v)
      (λ p d. timer-CoolsUntil until span started active now s h v) v

-- The times of a history lie before the end of the cooldown, and no more than its length before.
abbrev pub Within : (until span : ℕ) → List (ℕ × Event) → Type 0
Within until span es = All (λ (p : ℕ × Event). (p.0 < until) × (until ≤ p.0 + span)) es

history-CoolsUntil :
    (until span started active : ℕ) (es : List (ℕ × Event)) (s : Scheduler)
    → Within until span es
    → CoolsUntil until span started active s
    → CoolsUntil until span started active (run_events es s)
unfolding run_events
history-CoolsUntil until span started active [] s w v = v
history-CoolsUntil until span started active ((now, e) ∷ es) s w v =
    history-CoolsUntil until span started active es (step now e s) w.1
      (step-CoolsUntil until span started active now e s w.0.0 w.0.1 v)

-- While a cooldown lasts, whatever happens, no job is started: the time of the last start stays, the
-- number of runs does not grow, and the cooldown still lasts at the end. Condition: the times of the
-- history lie before its end, and at most one configured length of a cooldown before it.
pub no_start_while_cooling :
    (until : ℕ) (es : List (ℕ × Event)) (s : Scheduler)
    → s.cooldown_until ≡ some until
    → Within until s.config.cooldown es
    → ((run_events es s).last_started_at ≡ s.last_started_at)
      × ((run_events es s).active ≤ s.active)
      × (until ≤ or_default (run_events es s).cooldown_until 0)
unfolding CoolsUntil
no_start_while_cooling until es s c w =
    let v =
      history-CoolsUntil until s.config.cooldown s.last_started_at s.active es s w
        (ground arith, refl, refl, omega arith) in
    (v.2, v.3, v.0)

restored-CoolsUntil :
    (now until : ℕ) (s : Scheduler)
    → now < until
    → CoolsUntil until s.config.cooldown s.last_started_at s.active (restore_cooldown now until s)
unfolding CoolsUntil restore_cooldown
restored-CoolsUntil now until s h = ground (arith, h)

schedule-cooling :
    (now until : ℕ) (job : Job) (s : Scheduler)
    → now < until
    → until ≤ or_default s.cooldown_until 0
    → ((schedule now job s).settled ≡ (job.id, rejected cooldown_error) ∷ s.settled)
      × ((schedule now job s).queue ≡ s.queue)
unfolding schedule
schedule-cooling now until job s h l = (ground arith, ground arith)

-- A cooldown that was restored holds: after `restoreHardQuotaCooldown` with a later time, in any history
-- before that time, no job starts, and a call of `schedule` is rejected at once with the cooldown error
-- and leaves the queue alone. Condition: the times of the history lie at most the configured cooldown
-- before the restored time.
pub schedule-restore_cooldown :
    (now until later : ℕ) (job : Job) (es : List (ℕ × Event)) (s : Scheduler)
    → now < until
    → later < until
    → Within until s.config.cooldown es
    → ((run_events es (restore_cooldown now until s)).last_started_at ≡ s.last_started_at)
      × ((run_events es (restore_cooldown now until s)).active ≤ s.active)
      × ((schedule later job (run_events es (restore_cooldown now until s))).settled
          ≡ (job.id, rejected cooldown_error)
            ∷ (run_events es (restore_cooldown now until s)).settled)
      × ((schedule later job (run_events es (restore_cooldown now until s))).queue
          ≡ (run_events es (restore_cooldown now until s)).queue)
unfolding CoolsUntil
schedule-restore_cooldown now until later job es s h l w =
    let v =
      history-CoolsUntil until s.config.cooldown s.last_started_at s.active es
        (restore_cooldown now until s) w (restored-CoolsUntil now until s h) in
    let (turned_away, kept) = schedule-cooling later until job _ l v.0 in
    (v.2, v.3, turned_away, kept)

timer-empty : (now : ℕ) (s : Scheduler) → s.queue ≡ [] → (on_pump_timer now s).queue ≡ []
unfolding on_pump_timer
timer-empty now s h = rw h refl

module _ (until span started active : ℕ) where
  abbrev IsHeld : Scheduler → Type 0
  IsHeld s = CoolsUntil until span started active s × (s.queue ≡ [])

  Keeps-IsHeld : (now : ℕ) → until ≤ now + span → Keeps now IsHeld
  unfolding CoolsUntil on_value finish_run settle on_retry on_delay_over on_finally
  Keeps-IsHeld now l = record {
    value = λ i x r s h v. v;
    quota = λ i r n s h v.
        (rw (on_hard_quota_lem, count_error_lem n r s) (ground arith), rw on_hard_quota_lem refl);
    failure = λ i r n s h v. rw (count_error_lem n r s) v;
    retry = λ num den i r n s h m v. rw (count_error_lem n r s) v;
    delay = λ i due r s h v. v;
    last = λ i r s h v. (ground arith, ground (arith, v.1));
    restore = λ u s g v. (ground (arith, g), v.1);
  }

  step-IsHeld :
      (now : ℕ) (e : Event) (s : Scheduler)
      → now < until
      → until ≤ now + span
      → IsHeld s
      → IsHeld (step now e s)
  unfolding CoolsUntil
  step-IsHeld now e s h l v =
      step_keeps now (Keeps-IsHeld now l) e s
        (λ job c. (
          schedule-CoolsUntil until span started active now job s h v.0,
          (schedule-cooling now until job s h v.0.0).1 ∙ v.1,
        ))
        (λ p d. (timer-CoolsUntil until span started active now s h v.0, timer-empty now s v.1)) v

  history-IsHeld :
      (es : List (ℕ × Event)) (s : Scheduler)
      → Within until span es
      → IsHeld s
      → IsHeld (run_events es s)
  unfolding run_events
  history-IsHeld [] s w v = v
  history-IsHeld ((now, e) ∷ es) s w v =
      history-IsHeld es (step now e s) w.1 (step-IsHeld now e s w.0.0 w.0.1 v)

-- After an attempt fails with a hard-quota error, whatever happens until the cooldown that it starts is
-- over, no job starts and none waits in the queue.
-- Condition: the failure is a reply to an attempt under way.
pub step-hard_quota :
    (now i num den : ℕ) (r : Run) (e : Thrown) (es : List (ℕ × Event)) (s : Scheduler)
    → get_elem? s.runs i ≡ some r
    → r.phase ≡ calling
    → is_hard_quota_error e ≡ true
    → Within (now + s.config.cooldown) s.config.cooldown es
    → ((run_events es (step now (replied i num den (threw e)) s)).last_started_at
        ≡ s.last_started_at)
      × ((run_events es (step now (replied i num den (threw e)) s)).active ≤ s.active)
      × ((run_events es (step now (replied i num den (threw e)) s)).queue ≡ [])
unfolding step on_reply on_error CoolsUntil
step-hard_quota now i num den r e es s f w h l =
    let held : IsHeld (now + s.config.cooldown) s.config.cooldown s.last_started_at s.active
        (step now (replied i num den (threw e)) s) =
      rw (f, w, h, on_hard_quota_lem, count_error_lem (normalize_error e) r s)
        ((omega arith, refl, refl, omega arith), refl) in
    let v = history-IsHeld _ _ _ _ es _ l held in (v.0.2, v.0.3, v.1)
