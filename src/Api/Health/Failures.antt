-- ===== src/Api/Health/Failures.antt =====
-- Whether the last run of apps/api/src/health.ts that came to an end failed, and what the state then is.
use evidra_protocol.Base.{
  ℕ, ◌≡◌, refl, ap, ◌∙◌, Bool, true, false, ◌&&◌, ◌||◌, not, List, [], ◌∷◌, arith, if◌then◌else◌,
}
use evidra_protocol.Protocol.Errors.{Thrown}
use evidra_protocol.Api.Health.{
  quota_error, is_healthy, age_at_least, Options, Monitor, Snapshot, Event, step, run_events,
  record_failure, run_full, run_light, tick, end_full, end_light, when_full, when_light, Flight,
  idle, full, light, started, ticked, full_ended, light_ended, verified, failed, running,
}

-- The event ends a run that is under way in failure, or is a full run that the cooldown refuses.
abbrev pub fails : Options → ℕ → Event → Monitor → Bool
fails o now (started cooling) m = not (running m) && cooling
fails o now (ticked cooling) m =
    not (running m)
    && cooling
    && age_at_least now o.full_interval_ms m.snapshot.last_contract_verification_at
fails o now (full_ended (verified c k)) m = false
fails o now (full_ended (failed c e)) m = elim m.flight [
  | idle ↦ false
  | full ↦ true
  | light ↦ false
]
fails o now (light_ended (verified c k)) m = false
fails o now (light_ended (failed c e)) m = elim m.flight [
  | idle ↦ false
  | full ↦ false
  | light ↦ true
]

-- The event ends a run that is under way with an answer.
abbrev pub succeeds : Event → Monitor → Bool
succeeds (full_ended (verified c k)) m = elim m.flight [
  | idle ↦ false
  | full ↦ true
  | light ↦ false
]
succeeds (light_ended (verified c k)) m = elim m.flight [
  | idle ↦ false
  | full ↦ false
  | light ↦ true
]
succeeds _ m = false

-- The last run that came to an end before or in the history failed.
abbrev pub has_failed_last : Options → List (ℕ × Event) → Bool → Monitor → Bool
has_failed_last o [] was m = was
has_failed_last o ((now, e) ∷ es) was m =
    has_failed_last o es (fails o now e m || (was && not (succeeds e m))) (step o now e m)

-- A failure shows in the state for as long as it is the last.
abbrev pub Shows : Bool → Monitor → Type 0
Shows b m = b ≡ true → is_healthy m.snapshot.state ≡ false

failure-Shows :
    (c : Bool) (e : Thrown) (s : Snapshot) → is_healthy (record_failure c e s).state ≡ false
unfolding record_failure
failure-Shows c e s = ground arith

kept-Shows :
    (a was : Bool) (m n : Monitor)
    → n.snapshot.state ≡ m.snapshot.state
    → (a ≡ true → was ≡ true)
    → Shows was m
    → Shows a n
kept-Shows a was m n e f v h = ap is_healthy e ∙ v (f h)

run_full-Shows :
    (c was : Bool) (m : Monitor)
    → Shows was m
    → Shows ((not (running m) && c) || (was && true)) (run_full c m)
unfolding run_full
run_full-Shows c was m v = cases (running m) c
  where
    cases :
        (b d : Bool)
        → Shows ((not b && d) || (was && true)) (
            if b
            then m
            else if d
            then record m { snapshot = record_failure c quota_error m.snapshot }
            else record m { flight = full })
    cases true d = kept-Shows _ was m m refl (λ h. ground (arith, h)) v
    cases false true = λ h. failure-Shows c quota_error m.snapshot
    cases false false =
        kept-Shows _ was m (record m { flight = full }) refl (λ h. ground (arith, h)) v

tick-Shows :
    (now : ℕ) (o : Options) (c was : Bool) (m : Monitor)
    → Shows was m
    → Shows (fails o now (ticked c) m || (was && true)) (tick now o c m)
unfolding tick run_light
tick-Shows now o c was m v =
    cases (running m) (age_at_least now o.full_interval_ms m.snapshot.last_contract_verification_at)
      refl
  where
    light_case :
        (d a : Bool)
        → (a ≡ true → was ≡ true)
        → Shows a (if d then m else record m { flight = light })
    light_case true a f = kept-Shows a was m m refl f v
    light_case false a f = kept-Shows a was m (record m { flight = light }) refl f v

    cases :
        (b a : Bool)
        → running m ≡ b
        → Shows ((not b && c && a) || (was && true)) (
            if b
            then m
            else if a
            then run_full c m
            else if running m || c
            then m
            else record m { flight = light })
    cases true a e = kept-Shows _ was m m refl (λ h. ground (arith, h)) v
    cases false true e = λ h. run_full-Shows c was m v (ground (arith, h, e))
    cases false false e = light_case (running m || c) _ (λ h. ground (arith, h))

step-Shows :
    (o : Options) (now : ℕ) (e : Event) (was : Bool) (m : Monitor)
    → Shows was m
    → Shows (fails o now e m || (was && not (succeeds e m))) (step o now e m)
unfolding step end_full end_light
step-Shows o now (started c) was m v = run_full-Shows c was m v
step-Shows o now (ticked c) was m v = tick-Shows now o c was m v
step-Shows o now (full_ended (verified c k)) was m v = cases m.flight
  where
    cases :
        (f : Flight)
        → Shows
            (false || (was && not (elim f [ idle ↦ false | full ↦ true | light ↦ false ])))
            (when_full f m (end_full now (verified c k) m))
    cases idle = kept-Shows _ was m m refl (λ h. ground (arith, h)) v
    cases full = λ h. absurd (ground (arith, h))
    cases light = kept-Shows _ was m m refl (λ h. ground (arith, h)) v
step-Shows o now (full_ended (failed c e)) was m v = cases m.flight
  where
    cases :
        (f : Flight)
        → Shows
            (elim f [ idle ↦ false | full ↦ true | light ↦ false ] || (was && true))
            (when_full f m (end_full now (failed c e) m))
    cases idle = kept-Shows _ was m m refl (λ h. ground (arith, h)) v
    cases full = λ h. failure-Shows c e m.snapshot
    cases light = kept-Shows _ was m m refl (λ h. ground (arith, h)) v
step-Shows o now (light_ended (verified c k)) was m v = cases m.flight
  where
    cases :
        (f : Flight)
        → Shows
            (false || (was && not (elim f [ idle ↦ false | full ↦ false | light ↦ true ])))
            (when_light f m (end_light now (verified c k) m))
    cases idle = kept-Shows _ was m m refl (λ h. ground (arith, h)) v
    cases full = kept-Shows _ was m m refl (λ h. ground (arith, h)) v
    cases light = λ h. absurd (ground (arith, h))
step-Shows o now (light_ended (failed c e)) was m v = cases m.flight
  where
    cases :
        (f : Flight)
        → Shows
            (elim f [ idle ↦ false | full ↦ false | light ↦ true ] || (was && true))
            (when_light f m (end_light now (failed c e) m))
    cases idle = kept-Shows _ was m m refl (λ h. ground (arith, h)) v
    cases full = kept-Shows _ was m m refl (λ h. ground (arith, h)) v
    cases light = λ h. failure-Shows c e m.snapshot

pub history-Shows :
    (o : Options) (es : List (ℕ × Event)) (was : Bool) (m : Monitor)
    → Shows was m
    → Shows (has_failed_last o es was m) (run_events o es m)
unfolding run_events
history-Shows o [] was m v = v
history-Shows o ((now, e) ∷ es) was m v =
    history-Shows o es _ (step o now e m) (step-Shows o now e was m v)
