-- ===== src/Protocol/Scheduler/Awake.antt =====
-- packages/protocol/src/scheduler.ts does not stall: a job that waits has a timer or a run ahead of it.
use evidra_protocol.Base.{ℕ, ◌<◌, ◌≡◌, ◌≢◌, ◌⊎◌, refl, true, false, List, [], arith}
use evidra_protocol.Protocol.Scheduler.{
  Scheduler, Event, Job, reached, new_scheduler, pump, schedule, on_pump_timer, on_value, on_retry,
  on_delay_over, on_finally, finish_run, settle,
}
use evidra_protocol.Protocol.Scheduler.Limits.{Options, configure}
use evidra_protocol.Protocol.Scheduler.Rules.{Keeps, history_keeps}
use evidra_protocol.Protocol.Scheduler.Frame.{on_hard_quota_lem, count_error_lem}

record IsAwake (s : Scheduler) : Type 0 where
  positive : 0 < s.config.concurrency
  served : s.pump_scheduled ≡ false → s.active ≡ 0 → s.queue ≡ []

pump-IsAwake : (now : ℕ) (s : Scheduler) → 0 < s.config.concurrency → IsAwake (pump now s)
unfolding pump
pump-IsAwake now s h = ground arith

schedule-IsAwake : (now : ℕ) (job : Job) (s : Scheduler) → IsAwake s → IsAwake (schedule now job s)
unfolding schedule
schedule-IsAwake now job s v = ground arith

on_pump_timer-IsAwake : (now : ℕ) (s : Scheduler) → IsAwake s → IsAwake (on_pump_timer now s)
unfolding on_pump_timer
on_pump_timer-IsAwake now s v = ground arith

finally-IsAwake : (now i : ℕ) (s : Scheduler) → IsAwake s → IsAwake (on_finally now i s)
unfolding on_finally
finally-IsAwake now i s v = pump-IsAwake now _ v.positive

Keeps-IsAwake : (now : ℕ) → Keeps now IsAwake
unfolding on_value finish_run settle on_retry on_delay_over
Keeps-IsAwake now = record {
  value = λ i x r s h v. record { positive = v.positive; served = v.served };
  quota = λ i r n s h v.
      rw (on_hard_quota_lem, count_error_lem n r s)
        (record { positive = v.positive; served = λ p q. refl });
  failure = λ i r n s h v.
      rw (count_error_lem n r s) (record { positive = v.positive; served = v.served });
  retry = λ num den i r n s h m v.
      rw (count_error_lem n r s) (record { positive = v.positive; served = v.served });
  delay = λ i due r s h v. record { positive = v.positive; served = v.served };
  last = λ i r s h v. finally-IsAwake now i s v;
  restore = λ u s g v. record { positive = v.positive; served = v.served };
}

-- After any history, if a job waits in the queue then the timer of the pump is set or a run is in
-- progress, whose end will set it.
pub queue-served :
    (o : Options) (es : List (ℕ × Event))
    → (reached o es).queue ≢ []
    → ((reached o es).pump_scheduled ≡ true) ⊎ (0 < (reached o es).active)
queue-served o es h =
    let v : IsAwake (reached o es) =
      history_keeps Keeps-IsAwake schedule-IsAwake (λ now s p d v. on_pump_timer-IsAwake now s v) es
        (new_scheduler (configure o))
        (unfold new_scheduler configure in
          record { positive = omega arith; served = λ p q. refl }) in
    ground (arith, v.served)
