-- ===== src/Api/Health.antt =====
-- apps/api/src/health.ts: the snapshot of the RPC's health and the runs that renew it. An asynchronous
-- run has a start and an end, and `step` is what the event loop can do next. Times are milliseconds.
pub mod Failures
pub mod Ready
mod Tests
use evidra_protocol.Base.{
  ℕ, ◌-◌, ◌≤◌, Bool, true, false, not, ◌&&◌, ◌||◌, Option, none, some, List, [], ◌∷◌, Text, lit,
  ltb, leb, if◌then◌else◌,
}
use evidra_protocol.Protocol.Errors.{
  Thrown, plain_error, no_attrs, error_detail, is_hard_quota_error,
}
use evidra_protocol.Api.Indexer.Effects.{IndexerStatus}

-- `HealthSnapshot.state`
pub data State : Type 0 where
  unknown healthy degraded rate_limited : State

-- `ReadMode`
pub data ReadMode : Type 0 where
  latest_final latest_nonfinal : ReadMode

-- `HealthSnapshot` without the indexer's time, which `getSnapshot` adds.
pub record Snapshot : Type 0 where
  pub state : State
  pub chain_id : Option ℕ
  pub read_mode : Option ReadMode
  pub last_rpc_success_at : Option ℕ
  pub last_chain_verification_at : Option ℕ
  pub last_contract_verification_at : Option ℕ
  pub last_error : Option Text

-- `HealthMonitorOptions` without the interval of the timer.
pub record Options : Type 0 where
  pub full_interval_ms : ℕ
  pub max_age_ms : ℕ
  pub contract_max_age_ms : ℕ

abbrev pub initial_snapshot : Snapshot
initial_snapshot = record {
  state = unknown;
  chain_id = none;
  read_mode = none;
  last_rpc_success_at = none;
  last_chain_verification_at = none;
  last_contract_verification_at = none;
  last_error = none;
}

-- The run that waits for its reads.
pub data Flight : Type 0 where
  idle full light : Flight

-- `running` is a flight that is not idle.
pub record Monitor : Type 0 where
  pub snapshot : Snapshot
  pub flight : Flight

abbrev pub running : Monitor → Bool
running m = elim m.flight [ idle ↦ false | full ↦ true | light ↦ true ]

-- `age(value) <= limit`; the age of no time is infinite.
abbrev pub age_at_most : (now limit : ℕ) → Option ℕ → Bool
age_at_most now limit none = false
age_at_most now limit (some t) = leb (now - t) limit

abbrev pub is_none : Option Text → Bool
is_none none = true
is_none (some t) = false

abbrev pub is_healthy : State → Bool
is_healthy healthy = true
is_healthy _ = false

-- `isReady`
unfoldable pub is_ready : (now : ℕ) → Options → IndexerStatus → Monitor → Bool
is_ready now o i m =
    is_healthy m.snapshot.state
    && age_at_most now o.max_age_ms m.snapshot.last_rpc_success_at
    && age_at_most now o.contract_max_age_ms m.snapshot.last_contract_verification_at
    && (not i.enabled || (is_none i.last_error && age_at_most now o.max_age_ms i.last_success_at))

-- `recordFailure`; `cooling` is `isHardQuotaCoolingDown` at that moment.
unfoldable pub record_failure : (cooling : Bool) → Thrown → Snapshot → Snapshot
record_failure cooling e s = record s {
  state = if cooling || is_hard_quota_error e then rate_limited else degraded;
  last_error = some (error_detail e);
}

pub quota_error : Thrown
quota_error = plain_error (lit "RPC quota cooldown active") no_attrs

-- `runFull` up to its first await.
unfoldable pub run_full : (cooling : Bool) → Monitor → Monitor
run_full cooling m =
    if running m
    then m
    else if cooling
    then record m { snapshot = record_failure cooling quota_error m.snapshot }
    else record m { flight = full }

-- `runLight` up to its first await.
unfoldable pub run_light : (cooling : Bool) → Monitor → Monitor
run_light cooling m = if running m || cooling then m else record m { flight = light }

-- `age(value) >= limit`
abbrev pub age_at_least : (now limit : ℕ) → Option ℕ → Bool
age_at_least now limit none = true
age_at_least now limit (some t) = leb limit (now - t)

-- `tick`
unfoldable pub tick : (now : ℕ) → Options → (cooling : Bool) → Monitor → Monitor
tick now o cooling m =
    if running m
    then m
    else if age_at_least now o.full_interval_ms m.snapshot.last_contract_verification_at
    then run_full cooling m
    else run_light cooling m

-- What the reads of a run come to: `verifyDeployment` or `assertNetwork` with `getRegistryVersion`.
pub data Outcome : Type 0 where
  verified : (chain_id : ℕ) → ReadMode → Outcome
  failed : (cooling : Bool) → Thrown → Outcome

-- The rest of `runFull`.
unfoldable pub end_full : (now : ℕ) → Outcome → Monitor → Monitor
end_full now (verified chain_id mode) m = record m {
  flight = idle;
  snapshot = record m.snapshot {
    state = healthy;
    chain_id = some chain_id;
    read_mode = some mode;
    last_rpc_success_at = some now;
    last_chain_verification_at = some now;
    last_contract_verification_at = some now;
    last_error = none;
  };
}
end_full now (failed cooling e) m = record m {
  flight = idle;
  snapshot = record_failure cooling e m.snapshot;
}

-- The rest of `runLight`, which does not report a mode.
unfoldable pub end_light : (now : ℕ) → Outcome → Monitor → Monitor
end_light now (verified chain_id mode) m = record m {
  flight = idle;
  snapshot = record m.snapshot {
    state = healthy;
    chain_id = some chain_id;
    last_rpc_success_at = some now;
    last_chain_verification_at = some now;
    last_error = none;
  };
}
end_light now (failed cooling e) m = record m {
  flight = idle;
  snapshot = record_failure cooling e m.snapshot;
}

abbrev pub when_full : Flight → Monitor → Monitor → Monitor
when_full full m n = n
when_full _ m n = m

abbrev pub when_light : Flight → Monitor → Monitor → Monitor
when_light light m n = n
when_light _ m n = m

-- `start` runs in full, the timer ticks, and a run ends.
pub data Event : Type 0 where
  started ticked : (cooling : Bool) → Event
  full_ended light_ended : Outcome → Event

-- The end of a run that is not under way changes nothing.
unfoldable pub step : Options → ℕ → Event → Monitor → Monitor
step o now (started cooling) m = run_full cooling m
step o now (ticked cooling) m = tick now o cooling m
step o now (full_ended r) m = when_full m.flight m (end_full now r m)
step o now (light_ended r) m = when_light m.flight m (end_light now r m)

unfoldable pub run_events : Options → List (ℕ × Event) → Monitor → Monitor
run_events o [] m = m
run_events o ((now, e) ∷ es) m = run_events o es (step o now e m)

-- The monitor after a history.
abbrev pub reached : Options → List (ℕ × Event) → Monitor
reached o es = run_events o es (record { snapshot = initial_snapshot; flight = idle })
