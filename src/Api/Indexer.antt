-- ===== src/Api/Indexer.antt =====
-- apps/api/src/indexer.ts: one pass of the incremental sync, as an action over the indexer's fields
-- and the database, which can fail at every chain read and at every database call.
pub mod Effects
pub mod Keeps
pub mod Paging
pub mod Ids
pub mod Untouched
pub mod Checkpoint
pub mod Progress
mod Tests
use evidra_protocol.Base.{
  ℕ, zero, suc, ◌+◌, ◌-◌, ◌/◌, min, Bool, true, false, not, ◌&&◌, ◌||◌, Option, none, some, List,
  [], ◌∷◌, ◌++◌, map, Text, lit, same, Result, ok, err, ltb, leb, ◌==◌, length, take, keep_if,
  last?, or_default, any, if◌then◌else◌,
}
use evidra_protocol.Protocol.Types.{
  FactRecord, RequestRecord, ResolutionRecord, SourcePolicyRecord, TemplateRecord, ProtocolConfig,
  ProtocolStats, ProtocolEvent, EventPage, ResolverInfo, EvidenceManifest,
}
use evidra_protocol.Db.{
  Database, SyncState, SyncPatch, Counts, ProtocolState, upsert_protocol_state, upsert_policy,
  upsert_template, upsert_request, upsert_resolution, upsert_fact, set_resolution_flags,
  list_mutable_request_ids, refresh_fact_freshness, replace_evidence, set_sync_status,
  get_sync_status, fresh_at,
}
use Effects.{
  World, Indexer, IndexerStatus, Projection, Action, pure, lift, store, try_store, query, attempt,
  when, update_indexer, ◌>>=◌, ◌>>◌,
}

-- `IndexerOptions` that the pass reads
pub record Options : Type 0 where
  pub max_records : ℕ
  pub max_mutable_requests : ℕ
  pub config_refresh_ms : ℕ

-- What is read from the payload of an event: `String(payload.policy_id ?? '')`,
-- `String(payload.template_id ?? '')` and `Number(payload.version ?? 0)`, with 0 for no number.
pub record Payload : Type 0 where
  pub policy_id : Text
  pub template_id : Text
  pub version : ℕ

-- The `ProtocolClient` of the indexer: the answer of each read in this pass, and whether the quota
-- cooldown is active when the pass begins and when it fails. `payload` is `parseEventPayload`.
pub record Chain : Type 0 where
  pub cooling_at_start : Bool
  pub cooling_at_failure : Bool
  pub get_protocol_stats : Result Text ProtocolStats
  pub get_policy_event_count : Result Text ℕ
  pub get_policy_events : ℕ → ℕ → Result Text EventPage
  pub get_registry_events : ℕ → ℕ → Result Text EventPage
  pub get_protocol_config : Result Text ProtocolConfig
  pub get_resolver_version : Result Text Text
  pub get_resolver : Result Text ResolverInfo
  pub get_registry_version : Result Text Text
  pub get_policy_registry_version : Result Text Text
  pub get_source_policy : Text → ℕ → Result Text SourcePolicyRecord
  pub get_template : Text → ℕ → Result Text TemplateRecord
  pub get_request : ℕ → Result Text RequestRecord
  pub get_resolution : ℕ → Result Text ResolutionRecord
  pub get_fact : Text → Result Text FactRecord
  pub get_evidence_manifest : ℕ → Result Text EvidenceManifest
  pub payload : ProtocolEvent → Payload

-- The readings of the clock in one pass.
pub record Clock : Type 0 where
  pub started : ℕ
  pub config_at : ℕ
  pub refresh_at : ℕ
  pub fact_at : Text → ℕ
  pub finished : ℕ

-- `EventDelta`
pub record EventDelta : Type 0 where
  pub events : List ProtocolEvent
  pub next_offset : ℕ

abbrev no_items : List ProtocolEvent → Bool
no_items [] = true
no_items (e ∷ es) = false

abbrev pub then_page :
    (EventPage → Result Text EventDelta) → Result Text EventPage → Result Text EventDelta
then_page f (ok page) = f page
then_page f (err e) = err e

-- The loop of `readEventDelta`, on fuel.
unfoldable pub delta_loop :
    (fuel max_records current : ℕ)
    → (ℕ → ℕ → Result Text EventPage)
    → (offset : ℕ) → List ProtocolEvent
    → Result Text EventDelta
delta_loop zero max_records current get offset output =
    ok (record { events = output; next_offset = offset })
delta_loop (suc fuel) max_records current get offset output =
    elim (ltb offset current && ltb (length output) max_records) [
      | false ↦ ok (record { events = output; next_offset = offset })
      | true ↦
          then_page
            (λ page.
              let output' = output ++ take (max_records - length output) page.items in
              elim (no_items page.items) [
                | true ↦ ok (record { events = output'; next_offset = offset })
                | false ↦
                    delta_loop fuel max_records current get (offset + length page.items) output'
              ])
            (get offset (min 50 (max_records - length output)))
    ]

-- `readEventDelta`; a round moves the offset by one at least.
unfoldable pub read_event_delta :
    (max_records : ℕ)
    → (ℕ → ℕ → Result Text EventPage)
    → (previous current : ℕ) → Result Text EventDelta
unfolding delta_loop
read_event_delta max_records get previous current =
    if leb current previous
    then ok (record { events = []; next_offset = previous })
    else delta_loop (current - previous) max_records current get previous []

-- `range`: the rounds left are the records that the output can still take.
unfoldable pub range : (max_records start end_ : ℕ) → List ℕ
range zero start end_ = []
range (suc room) start end_ = elim (leb start end_) [
  | true ↦ start ∷ range room (start + 1) end_
  | false ↦ []
]

-- `[...new Set(list)]`
unfoldable pub unique_by {ℓ} : {A : Type ℓ} → (A → A → Bool) → List A → List A → List A
unique_by eq seen [] = []
unique_by eq seen (x ∷ xs) =
    if any seen (eq x) then unique_by eq seen xs else x ∷ unique_by eq (x ∷ seen) xs

module _ (chain : Chain) (o : Options) (clock : Clock) where
  read_projection : Action Projection
  read_projection = do
    config ← lift chain.get_protocol_config
    resolver_version ← lift chain.get_resolver_version
    resolver_info ← lift chain.get_resolver
    registry_version ← lift chain.get_registry_version
    policy_registry_version ← lift chain.get_policy_registry_version
    let p : Projection = record {
      config = config;
      registry_version = registry_version;
      resolver_version = resolver_version;
      policy_registry_version = policy_registry_version;
      resolver_info = resolver_info;
      checked_at = clock.config_at;
    }
    update_indexer (λ i. record i { projection = some p })
    pure p

  -- Either test of `getProtocolProjection` on a projection that is kept in memory.
  abbrev is_recent : SyncState → Projection → Bool
  is_recent checkpoint p =
      ltb clock.config_at (p.checked_at + o.config_refresh_ms)
      || (ltb 0 (or_default checkpoint.last_config_check_at 0)
          && ltb clock.config_at
              (or_default checkpoint.last_config_check_at 0 + o.config_refresh_ms))

  projection_or : SyncState → Option Projection → Action Projection
  projection_or checkpoint none = read_projection
  projection_or checkpoint (some p) = if is_recent checkpoint p then pure p else read_projection

  -- `getProtocolProjection`
  get_protocol_projection : SyncState → Action Projection
  get_protocol_projection checkpoint w = projection_or checkpoint w.indexer.projection w

  sync_policy : Payload → Action (Unit {0})
  sync_policy p =
      when (not (same p.policy_id []) && ltb 0 p.version) do
        policy ← lift (chain.get_source_policy p.policy_id p.version)
        store (upsert_policy policy)

  sync_template : Payload → Action (Unit {0})
  sync_template p = when (not (same p.template_id []) && ltb 0 p.version) do
    template ← lift (chain.get_template p.template_id p.version)
    store (upsert_template template)

  sync_event : ProtocolEvent → Action (Unit {0})
  sync_event e = do
    when (same e.topic (lit "PolicyPublished") || same e.topic (lit "PolicyDeprecated"))
        (sync_policy (chain.payload e))
    when (same e.topic (lit "TemplatePublished") || same e.topic (lit "TemplateDeprecated"))
        (sync_template (chain.payload e))

  -- `syncPoliciesAndTemplates`
  sync_policies_and_templates : List ProtocolEvent → Action (Unit {0})
  sync_policies_and_templates [] = pure tt
  sync_policies_and_templates (e ∷ es) = do sync_event e; sync_policies_and_templates es

  -- `syncRequests`
  sync_requests : List ℕ → Action (List RequestRecord)
  sync_requests [] = pure []
  sync_requests (id ∷ ids) = do
    request ← lift (chain.get_request id)
    when request.exists (store (upsert_request request))
    rest ← sync_requests ids
    pure (if request.exists then request ∷ rest else rest)

  -- `syncResolutions`
  sync_resolutions : List ℕ → Action (List ResolutionRecord)
  sync_resolutions [] = pure []
  sync_resolutions (id ∷ ids) = do
    resolution ← lift (chain.get_resolution id)
    rest ← sync_resolutions ids
    pure (if resolution.exists then resolution ∷ rest else rest)

  sync_affected : FactRecord → ℕ → List ResolutionRecord → Action (Unit {0})
  sync_affected fact latest_id [] = pure tt
  sync_affected fact latest_id (r ∷ rs) = do
    store (
        upsert_resolution r (r.resolution_id == fact.current_resolution_id)
          (r.resolution_id == latest_id))
    manifest ← lift (chain.get_evidence_manifest r.resolution_id)
    when manifest.exists (try_store (replace_evidence manifest))
    sync_affected fact latest_id rs

  abbrev latest_id_of : FactRecord → ℕ
  latest_id_of fact =
      if fact.latest_resolution_id == 0
      then fact.current_resolution_id
      else fact.latest_resolution_id

  sync_existing_fact : FactRecord → List ResolutionRecord → Action (Unit {0})
  sync_existing_fact fact resolutions = do
    sync_affected fact (latest_id_of fact)
        (keep_if (λ r. same r.fact_key fact.fact_key) resolutions)
    store (set_resolution_flags fact.fact_key fact.current_resolution_id (latest_id_of fact))
    store (upsert_fact clock.finished fact (fresh_at (clock.fact_at fact.fact_key / 1000) fact))

  sync_keys : List Text → List ResolutionRecord → Action (Unit {0})
  sync_keys [] resolutions = pure tt
  sync_keys (key ∷ keys) resolutions = do
    fact ← lift (chain.get_fact key)
    when fact.exists (sync_existing_fact fact resolutions)
    sync_keys keys resolutions

  -- `syncFacts`
  sync_facts : List RequestRecord → List ResolutionRecord → Action (Unit {0})
  sync_facts requests resolutions =
      sync_keys
        (unique_by same [] (map (λ r. r.fact_key) requests ++ map (λ r. r.fact_key) resolutions))
        resolutions

  abbrev state_of : ProtocolStats → Projection → ProtocolState
  state_of stats p = record {
    registry_version = p.registry_version;
    resolver_version = p.resolver_version;
    policy_registry_version = p.policy_registry_version;
    paused = stats.paused;
    resolver_enabled = p.resolver_info.enabled;
    default_resolver = p.config.default_resolver;
    config = p.config;
    stats = stats;
  }

  abbrev healthy_patch : (policy registry request resolution checked : ℕ) → SyncPatch
  healthy_patch policy registry request resolution checked = record {
    last_finalized_at = some clock.finished;
    last_success_at = some clock.finished;
    last_attempt_at = none;
    last_error = none;
    status = some (lit "healthy");
    counts = some (record { policy = some policy; registry = some registry });
    last_request_id = some request;
    last_resolution_id = some resolution;
    last_config_check_at = some checked;
  }

  -- The part of `syncOnce` after the checkpoint is read and before it is written: what is to be written.
  pub gather_from : SyncState → Action SyncPatch
  gather_from checkpoint = do
    stats ← lift chain.get_protocol_stats
    policy_count ← lift chain.get_policy_event_count
    p ← get_protocol_projection checkpoint
    store (upsert_protocol_state (state_of stats p))
    policy_delta ← lift (
        read_event_delta o.max_records chain.get_policy_events
          (or_default checkpoint.counts.policy 0) policy_count)
    registry_delta ← lift (
        read_event_delta o.max_records chain.get_registry_events
          (or_default checkpoint.counts.registry 0) stats.event_count)
    sync_policies_and_templates policy_delta.events
    let new_requests = range o.max_records (checkpoint.last_request_id + 1) stats.request_count
    let new_resolutions =
        range o.max_records (checkpoint.last_resolution_id + 1) stats.resolution_count
    mutable_ids ← query (list_mutable_request_ids o.max_mutable_requests)
    requests ← sync_requests (unique_by ◌==◌ [] (new_requests ++ mutable_ids))
    resolutions ← sync_resolutions new_resolutions
    store (λ db. (refresh_fact_freshness (clock.refresh_at / 1000) db).1)
    sync_facts requests resolutions
    update_indexer (λ i. record i {
      status = record i.status {
        running = false;
        last_success_at = some clock.finished;
        last_error = none;
        last_duration_ms = some (clock.finished - clock.started);
        lag_seconds = some 0;
      };
    })
    pure (
        healthy_patch policy_delta.next_offset registry_delta.next_offset
          (or_default (last? new_requests) checkpoint.last_request_id)
          (or_default (last? new_resolutions) checkpoint.last_resolution_id) p.checked_at)

  -- The `try` of `syncOnce`: the checkpoint is the last thing that is written.
  pub sync_pass : Action (Unit {0})
  sync_pass = do
    checkpoint ← query get_sync_status
    patch ← gather_from checkpoint
    store (set_sync_status clock.finished patch)

  abbrev empty_patch : SyncPatch
  empty_patch = record {
    last_finalized_at = none;
    last_success_at = none;
    last_attempt_at = none;
    last_error = none;
    status = none;
    counts = none;
    last_request_id = none;
    last_resolution_id = none;
    last_config_check_at = none;
  }

  started_patch : SyncPatch
  started_patch = record empty_patch {
    status = some (lit "syncing");
    last_attempt_at = some clock.started;
  }

  failed_patch : Text → SyncPatch
  failed_patch message = record empty_patch {
    status = some (if chain.cooling_at_failure then lit "rate_limited" else lit "degraded");
    last_error = some message;
  }

  -- The `catch` of `syncOnce`, which throws the error again.
  pub on_failure : Text → Action (Unit {0})
  on_failure message = do
    update_indexer (λ i. record i {
      status = record i.status {
        running = false;
        last_error = some message;
        last_duration_ms = some (clock.finished - clock.started);
      };
    })
    attempt (store (set_sync_status clock.finished (failed_patch message)))
    lift (err message)

  abbrev or_fail : Result Text (Unit {0}) → Action (Unit {0})
  or_fail (ok u) = pure u
  or_fail (err message) = on_failure message

  abbrev caught : Result Text (Unit {0}) × World → Result Text (Unit {0}) × World
  caught (r, w) = or_fail r w

  -- The `finally`.
  abbrev released : Result Text (Unit {0}) × World → Result Text (Unit {0}) × World
  released (r, w) = (r, record w { indexer = record w.indexer { syncing = false } })

  pub begin : Action (Unit {0})
  begin = do
    update_indexer (λ i. record i {
      syncing = true;
      status = record i.status {
        running = true;
        last_started_at = some clock.started;
        last_error = none;
      };
    })
    attempt (store (set_sync_status clock.started started_patch))

  abbrev after_begin : World → Result Text (Unit {0}) × World
  after_begin w = released (caught (sync_pass w))

  -- `syncOnce`
  pub sync_once : Action (Unit {0})
  sync_once w =
      if w.indexer.syncing
      then (ok tt, w)
      else if chain.cooling_at_start
      then (
        ok tt,
        record w {
          indexer = record w.indexer {
            status = record w.indexer.status {
              running = false;
              last_error = some (lit "rpc_hard_quota_cooldown");
            };
          };
        },
      )
      else after_begin (begin w).1
