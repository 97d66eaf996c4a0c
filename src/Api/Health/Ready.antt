-- ===== src/Api/Health/Ready.antt =====
-- What `isReady` of apps/api/src/health.ts tells of the history of the monitor.
use evidra_protocol.Base.{
  ℕ, ◌-◌, ==_self, ◌≤◌, ◌≡◌, refl, Bool, true, false, ◌&&◌, ◌||◌, not, Option, none, some, List, [],
  ◌∷◌, any, arith, ◌==◌, if◌then◌else◌,
}
use evidra_protocol.Protocol.Errors.{Thrown}
use evidra_protocol.Api.Indexer.Effects.{IndexerStatus}
use evidra_protocol.Api.Health.Failures.{Shows, has_failed_last, history-Shows}
use evidra_protocol.Api.Health.{
  quota_error, is_healthy, is_none, unknown, degraded, rate_limited, age_at_least, Options, Monitor,
  Snapshot, Event, ReadMode, step, run_events, reached, is_ready, record_failure, run_full,
  run_light, tick, end_full, end_light, when_full, when_light, Flight, idle, full, light, started,
  ticked, full_ended, light_ended, verified, failed, State, healthy, age_at_most, running,
  initial_snapshot,
}

-- The event is the end of a full run that verified the deployment at this time.
abbrev pub verifies : ℕ → ℕ × Event → Bool
verifies t (now, full_ended (verified c m)) = now == t
verifies t (now, _) = false

-- The event is the end of a run of either kind that was answered at this time.
abbrev pub answers : ℕ → ℕ × Event → Bool
answers t (now, full_ended (verified c m)) = now == t
answers t (now, light_ended (verified c m)) = now == t
answers t (now, _) = false

-- Each time that the snapshot reports is that of an event, and a healthy state has no error.
record IsEarned (rpcs contracts : ℕ → Bool) (s : Snapshot) : Type 0 where
  pub rpc : (t : ℕ) → s.last_rpc_success_at ≡ some t → rpcs t ≡ true
  pub contract : (t : ℕ) → s.last_contract_verification_at ≡ some t → contracts t ≡ true
  pub clean : s.state ≡ healthy → s.last_error ≡ none

module _ (rpcs contracts : ℕ → Bool) where
  failure-IsEarned :
      (c : Bool) (e : Thrown) (s : Snapshot)
      → IsEarned rpcs contracts s
      → IsEarned rpcs contracts (record_failure c e s)
  unfolding record_failure
  failure-IsEarned c e s v = record {
    rpc = v.rpc;
    contract = v.contract;
    clean = λ h. absurd (ground (arith, h));
  }

  if_IsEarned :
      (b : Bool) (p q : Monitor)
      → IsEarned rpcs contracts p.snapshot
      → IsEarned rpcs contracts q.snapshot
      → IsEarned rpcs contracts (if b then p else q).snapshot
  if_IsEarned true p q x y = x
  if_IsEarned false p q x y = y

  run_full-IsEarned :
      (c : Bool) (m : Monitor)
      → IsEarned rpcs contracts m.snapshot
      → IsEarned rpcs contracts (run_full c m).snapshot
  unfolding run_full
  run_full-IsEarned c m v =
      if_IsEarned (running m) m _ v
        (if_IsEarned c _ _ (failure-IsEarned c quota_error m.snapshot v) v)

  tick-IsEarned :
      (now : ℕ) (o : Options) (c : Bool) (m : Monitor)
      → IsEarned rpcs contracts m.snapshot
      → IsEarned rpcs contracts (tick now o c m).snapshot
  unfolding tick run_light
  tick-IsEarned now o c m v = if_IsEarned (running m) m _ v (
      if_IsEarned (age_at_least now o.full_interval_ms m.snapshot.last_contract_verification_at) _ _
        (run_full-IsEarned c m v) (if_IsEarned (running m || c) _ _ v v))

-- More events earn as much.
wider :
    (p q p' q' : ℕ → Bool) (s : Snapshot)
    → ((t : ℕ) → p t ≡ true → p' t ≡ true)
    → ((t : ℕ) → q t ≡ true → q' t ≡ true)
    → IsEarned p q s
    → IsEarned p' q' s
wider p q p' q' s f g v = record {
  rpc = λ t h. f t (v.rpc t h);
  contract = λ t h. g t (v.contract t h);
  clean = v.clean;
}

module _ (now : ℕ) (rpcs contracts : ℕ → Bool) where
  abbrev or_at : (ℕ → Bool) → ℕ → Bool
  or_at p t = (now == t) || p t

  earlier : (p : ℕ → Bool) (t : ℕ) → p t ≡ true → or_at p t ≡ true
  earlier p t h = ground (arith, h)

  at_now : (p : ℕ → Bool) (t : ℕ) → ◌≡◌ {A = Option ℕ} (some now) (some t) → or_at p t ≡ true
  at_now p t h = let e : now ≡ t = cc in rw (← e, ==_self now)

  end_full-IsEarned :
      (c : ℕ) (k : ReadMode) (m : Monitor)
      → IsEarned (or_at rpcs) (or_at contracts) (end_full now (verified c k) m).snapshot
  unfolding end_full
  end_full-IsEarned c k m = record {
    rpc = λ t h. at_now rpcs t h;
    contract = λ t h. at_now contracts t h;
    clean = λ h. refl;
  }

  end_light-IsEarned :
      (c : ℕ) (k : ReadMode) (m : Monitor)
      → IsEarned rpcs contracts m.snapshot
      → IsEarned (or_at rpcs) contracts (end_light now (verified c k) m).snapshot
  unfolding end_light
  end_light-IsEarned c k m v = record {
    rpc = λ t h. at_now rpcs t h;
    contract = v.contract;
    clean = λ h. refl;
  }

when_full_lem :
    (P : Monitor → Type 0) (f : Flight) (m n : Monitor) → P m → P n → P (when_full f m n)
when_full_lem P idle m n x y = x
when_full_lem P full m n x y = y
when_full_lem P light m n x y = x

when_light_lem :
    (P : Monitor → Type 0) (f : Flight) (m n : Monitor) → P m → P n → P (when_light f m n)
when_light_lem P idle m n x y = x
when_light_lem P full m n x y = x
when_light_lem P light m n x y = y

step-IsEarned :
    (o : Options) (now : ℕ) (e : Event) (rpcs contracts : ℕ → Bool) (m : Monitor)
    → IsEarned rpcs contracts m.snapshot
    → IsEarned
        (λ t. answers t (now, e) || rpcs t)
        (λ t. verifies t (now, e) || contracts t)
        (step o now e m).snapshot
unfolding step end_full end_light
step-IsEarned o now (started c) p q m v = run_full-IsEarned p q c m v
step-IsEarned o now (ticked c) p q m v = tick-IsEarned p q now o c m v
step-IsEarned o now (full_ended (verified c k)) p q m v =
    when_full_lem (λ n. IsEarned (or_at now p q p) (or_at now p q q) n.snapshot) m.flight m _
      (wider _ _ _ _ m.snapshot (earlier now p q p) (earlier now p q q) v)
      (end_full-IsEarned now p q c k m)
step-IsEarned o now (full_ended (failed c e)) p q m v =
    when_full_lem (λ n. IsEarned p q n.snapshot) m.flight m _ v
      (failure-IsEarned p q c e m.snapshot v)
step-IsEarned o now (light_ended (verified c k)) p q m v =
    when_light_lem (λ n. IsEarned (or_at now p q p) q n.snapshot) m.flight m _
      (wider _ _ _ _ m.snapshot (earlier now p q p) (λ t h. h) v)
      (end_light-IsEarned now p q c k m v)
step-IsEarned o now (light_ended (failed c e)) p q m v =
    when_light_lem (λ n. IsEarned p q n.snapshot) m.flight m _ v
      (failure-IsEarned p q c e m.snapshot v)

history-IsEarned :
    (o : Options) (es : List (ℕ × Event)) (rpcs contracts : ℕ → Bool) (m : Monitor)
    → IsEarned rpcs contracts m.snapshot
    → IsEarned
        (λ t. any es (answers t) || rpcs t)
        (λ t. any es (verifies t) || contracts t)
        (run_events o es m).snapshot
unfolding run_events
history-IsEarned o [] p q m v = v
history-IsEarned o ((now, e) ∷ es) p q m v =
    wider _ _ _ _ (run_events o es (step o now e m)).snapshot
      (λ t h. turn (any es (answers t)) (answers t (now, e)) (p t) h)
      (λ t h. turn (any es (verifies t)) (verifies t (now, e)) (q t) h)
      (history-IsEarned o es _ _ (step o now e m) (step-IsEarned o now e p q m v))
  where
    turn : (a b c : Bool) → (a || (b || c)) ≡ true → ((b || a) || c) ≡ true
    turn a b c h = ground (arith, h)

-- Such an event is in the history, at most `limit` before `now`.
abbrev pub Recent : (now limit : ℕ) → (ℕ → Bool) → Type 0
Recent now limit earned = (t : ℕ) × (earned t ≡ true) × (now - t ≤ limit)

recent :
    (now limit : ℕ) (p : ℕ → Bool) (at : Option ℕ)
    → ((t : ℕ) → at ≡ some t → (p t || false) ≡ true)
    → age_at_most now limit at ≡ true
    → Recent now limit p
recent now limit p none k h = absurd (cc)
recent now limit p (some t) k h = (t, ground (arith, k t refl), ground (arith, h))

-- When the monitor is ready after a history, a full run verified the deployment at most the maximal
-- contract age ago, some run was answered at most the maximal age ago, the last run that came to an end
-- did not fail and the snapshot has no error, and an enabled indexer has no error.
pub is_ready-Recent :
    (o : Options) (es : List (ℕ × Event)) (now : ℕ) (i : IndexerStatus)
    → is_ready now o i (reached o es) ≡ true
    → Recent now o.contract_max_age_ms (λ t. any es (verifies t))
      × Recent now o.max_age_ms (λ t. any es (answers t))
      × (has_failed_last o es false (record { snapshot = initial_snapshot; flight = idle }) ≡ false)
      × ((reached o es).snapshot.last_error ≡ none)
      × (((not i.enabled) || is_none i.last_error) ≡ true)
unfolding is_ready
is_ready-Recent o es now i h =
    let m = reached o es in
    let v =
      history-IsEarned o es (λ t. false) (λ t. false)
        (record { snapshot = initial_snapshot; flight = idle })
        (record {
          rpc = λ t e. absurd (cc);
          contract = λ t e. absurd (cc);
          clean = λ e. absurd (cc);
        }) in
    let (a, b, c, d) =
      parts (is_healthy m.snapshot.state)
        (age_at_most now o.max_age_ms m.snapshot.last_rpc_success_at)
        (age_at_most now o.contract_max_age_ms m.snapshot.last_contract_verification_at)
        (not i.enabled) (is_none i.last_error) _ h in
    (
      recent now _ _ m.snapshot.last_contract_verification_at v.contract c,
      recent now _ _ m.snapshot.last_rpc_success_at v.rpc b,
      not_last (has_failed_last o es false (record { snapshot = initial_snapshot; flight = idle }))
          (history-Shows o es false (record { snapshot = initial_snapshot; flight = idle })
            (λ h. absurd (cc)))
          a,
      v.clean (is_healthy→eq m.snapshot.state a),
      d,
    )
  where
    parts :
        (a b c d e f : Bool)
        → (a && b && c && (d || (e && f))) ≡ true
        → (a ≡ true) × (b ≡ true) × (c ≡ true) × ((d || e) ≡ true)
    parts a b c d e f x =
        (ground (arith, x), ground (arith, x), ground (arith, x), ground (arith, x))

    not_last :
        (b : Bool)
        → Shows b (reached o es)
        → is_healthy (reached o es).snapshot.state ≡ true
        → b ≡ false
    not_last true v a = absurd (let k = v refl in ground (arith, a, k))
    not_last false v a = refl

    is_healthy→eq : (s : State) → is_healthy s ≡ true → s ≡ healthy
    is_healthy→eq unknown x = absurd (cc)
    is_healthy→eq healthy x = refl
    is_healthy→eq degraded x = absurd (cc)
    is_healthy→eq rate_limited x = absurd (cc)
