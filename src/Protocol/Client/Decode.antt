-- ===== src/Protocol/Client/Decode.antt =====
-- The decoders of packages/protocol/src/client.ts: each field of a record in the order of the source,
-- the first one that is malformed is the error.
use evidra_protocol.Base.{Text, lit, Result, ok, ◌>>=◌}
use evidra_protocol.Protocol.Types.{
  SourcePolicyRecord, TemplateRecord, ResolverInfo, RequestRecord, ResolutionRecord, FactRecord,
  ProtocolConfig, ProtocolStats,
}
use evidra_protocol.Protocol.Values.{Record, get, text, flag, to_number, to_big_int}
use evidra_protocol.Protocol.Constants.{assert_address}

-- `normalizePolicy`
unfoldable pub normalize_policy : Record → Result Text SourcePolicyRecord
normalize_policy r = do
  version ← to_number (get r (lit "version")) (lit "policy.version")
  min_primary_sources ←
      to_number (get r (lit "min_primary_sources")) (lit "policy.min_primary_sources")
  min_independent_sources ←
      to_number (get r (lit "min_independent_sources")) (lit "policy.min_independent_sources")
  published_at ← to_big_int (get r (lit "published_at")) (lit "policy.published_at")
  ok (record {
    exists = flag (get r (lit "exists"));
    policy_id = text (get r (lit "policy_id"));
    version = version;
    name = text (get r (lit "name"));
    active = flag (get r (lit "active"));
    min_primary_sources = min_primary_sources;
    min_independent_sources = min_independent_sources;
    allowed_classes = text (get r (lit "allowed_classes"));
    disallowed_classes = text (get r (lit "disallowed_classes"));
    require_cross_check = flag (get r (lit "require_cross_check"));
    semantic_rules = text (get r (lit "semantic_rules"));
    policy_hash = text (get r (lit "policy_hash"));
    published_at = published_at;
    deprecated = flag (get r (lit "deprecated"));
  })

-- `normalizeTemplate`
unfoldable pub normalize_template : Record → Result Text TemplateRecord
normalize_template r = do
  version ← to_number (get r (lit "version")) (lit "template.version")
  default_policy_version ←
      to_number (get r (lit "default_policy_version")) (lit "template.default_policy_version")
  published_at ← to_big_int (get r (lit "published_at")) (lit "template.published_at")
  ok (record {
    exists = flag (get r (lit "exists"));
    template_id = text (get r (lit "template_id"));
    version = version;
    name = text (get r (lit "name"));
    active = flag (get r (lit "active"));
    fact_type = text (get r (lit "fact_type"));
    required_fields = text (get r (lit "required_fields"));
    resolution_instructions = text (get r (lit "resolution_instructions"));
    default_policy_id = text (get r (lit "default_policy_id"));
    default_policy_version = default_policy_version;
    template_hash = text (get r (lit "template_hash"));
    published_at = published_at;
    deprecated = flag (get r (lit "deprecated"));
  })

-- `normalizeResolver`
unfoldable pub normalize_resolver : Record → Result Text ResolverInfo
normalize_resolver r = do
  resolver ← assert_address (get r (lit "resolver")) (lit "resolver.resolver")
  registered_at ← to_big_int (get r (lit "registered_at")) (lit "resolver.registered_at")
  ok (record {
    exists = flag (get r (lit "exists"));
    resolver = resolver;
    enabled = flag (get r (lit "enabled"));
    resolver_version = text (get r (lit "resolver_version"));
    capabilities = text (get r (lit "capabilities"));
    registered_at = registered_at;
  })

-- `normalizeRequest`
unfoldable pub normalize_request : Record → Result Text RequestRecord
normalize_request r = do
  request_id ← to_big_int (get r (lit "request_id")) (lit "request.request_id")
  requester ← assert_address (get r (lit "requester")) (lit "request.requester")
  policy_version ← to_number (get r (lit "policy_version")) (lit "request.policy_version")
  assigned_resolver ←
      assert_address (get r (lit "assigned_resolver")) (lit "request.assigned_resolver")
  created_at ← to_big_int (get r (lit "created_at")) (lit "request.created_at")
  active_attempt_id ← to_big_int (get r (lit "active_attempt_id")) (lit "request.active_attempt_id")
  last_attempt_at ← to_big_int (get r (lit "last_attempt_at")) (lit "request.last_attempt_at")
  retry_after ← to_big_int (get r (lit "retry_after")) (lit "request.retry_after")
  max_attempts ← to_number (get r (lit "max_attempts")) (lit "request.max_attempts")
  attempt_count ← to_number (get r (lit "attempt_count")) (lit "request.attempt_count")
  callback_target ← assert_address (get r (lit "callback_target")) (lit "request.callback_target")
  fee_paid ← to_big_int (get r (lit "fee_paid")) (lit "request.fee_paid")
  ttl_seconds ← to_big_int (get r (lit "ttl_seconds")) (lit "request.ttl_seconds")
  current_resolution_id ←
      to_big_int (get r (lit "current_resolution_id")) (lit "request.current_resolution_id")
  template_version ← to_number (get r (lit "template_version")) (lit "request.template_version")
  ok (record {
    exists = flag (get r (lit "exists"));
    request_id = request_id;
    requester = requester;
    claim_key = text (get r (lit "claim_key"));
    fact_key = text (get r (lit "fact_key"));
    spec_hash = text (get r (lit "spec_hash"));
    policy_hash = text (get r (lit "policy_hash"));
    policy_id = text (get r (lit "policy_id"));
    policy_version = policy_version;
    assigned_resolver = assigned_resolver;
    created_at = created_at;
    status = text (get r (lit "status"));
    active_attempt_id = active_attempt_id;
    last_attempt_at = last_attempt_at;
    retry_after = retry_after;
    max_attempts = max_attempts;
    attempt_count = attempt_count;
    callback_target = callback_target;
    callback_status = text (get r (lit "callback_status"));
    reuse_mode = text (get r (lit "reuse_mode"));
    fee_paid = fee_paid;
    mutability = text (get r (lit "mutability"));
    schema_version = text (get r (lit "schema_version"));
    ttl_seconds = ttl_seconds;
    seed_urls_json = text (get r (lit "seed_urls_json"));
    subject = text (get r (lit "subject"));
    predicate = text (get r (lit "predicate"));
    object_value = text (get r (lit "object_value"));
    qualifiers = text (get r (lit "qualifiers"));
    temporal = text (get r (lit "temporal"));
    description = text (get r (lit "description"));
    current_resolution_id = current_resolution_id;
    supplemental_urls_json = text (get r (lit "supplemental_urls_json"));
    template_id = text (get r (lit "template_id"));
    template_version = template_version;
    template_hash = text (get r (lit "template_hash"));
    fact_type = text (get r (lit "fact_type"));
    template_resolution_instructions = text (get r (lit "template_resolution_instructions"));
  })

-- `normalizeResolution`
unfoldable pub normalize_resolution : Record → Result Text ResolutionRecord
normalize_resolution r = do
  resolution_id ← to_big_int (get r (lit "resolution_id")) (lit "resolution.resolution_id")
  request_id ← to_big_int (get r (lit "request_id")) (lit "resolution.request_id")
  attempt_id ← to_big_int (get r (lit "attempt_id")) (lit "resolution.attempt_id")
  evaluated_at ← to_big_int (get r (lit "evaluated_at")) (lit "resolution.evaluated_at")
  committed_at ← to_big_int (get r (lit "committed_at")) (lit "resolution.committed_at")
  valid_until ← to_big_int (get r (lit "valid_until")) (lit "resolution.valid_until")
  resolution_version ←
      to_number (get r (lit "resolution_version")) (lit "resolution.resolution_version")
  supersedes_resolution_id ←
      to_big_int (get r (lit "supersedes_resolution_id"))
        (lit "resolution.supersedes_resolution_id")
  template_version ← to_number (get r (lit "template_version")) (lit "resolution.template_version")
  ok (record {
    exists = flag (get r (lit "exists"));
    resolution_id = resolution_id;
    request_id = request_id;
    attempt_id = attempt_id;
    claim_key = text (get r (lit "claim_key"));
    fact_key = text (get r (lit "fact_key"));
    spec_hash = text (get r (lit "spec_hash"));
    policy_hash = text (get r (lit "policy_hash"));
    outcome = text (get r (lit "outcome"));
    diagnostic_reason = text (get r (lit "diagnostic_reason"));
    policy_satisfied = flag (get r (lit "policy_satisfied"));
    resolver_version = text (get r (lit "resolver_version"));
    evidence_manifest_hash = text (get r (lit "evidence_manifest_hash"));
    reasoning_summary = text (get r (lit "reasoning_summary"));
    evaluated_at = evaluated_at;
    committed_at = committed_at;
    valid_until = valid_until;
    resolution_version = resolution_version;
    supersedes_resolution_id = supersedes_resolution_id;
    template_id = text (get r (lit "template_id"));
    template_version = template_version;
    template_hash = text (get r (lit "template_hash"));
  })

-- `normalizeFact`
unfoldable pub normalize_fact : Record → Result Text FactRecord
normalize_fact r = do
  current_resolution_id ←
      to_big_int (get r (lit "current_resolution_id")) (lit "fact.current_resolution_id")
  latest_resolution_id ←
      to_big_int (get r (lit "latest_resolution_id")) (lit "fact.latest_resolution_id")
  current_request_id ← to_big_int (get r (lit "current_request_id")) (lit "fact.current_request_id")
  resolved_at ← to_big_int (get r (lit "resolved_at")) (lit "fact.resolved_at")
  valid_until ← to_big_int (get r (lit "valid_until")) (lit "fact.valid_until")
  resolution_version ← to_number (get r (lit "resolution_version")) (lit "fact.resolution_version")
  ok (record {
    exists = flag (get r (lit "exists"));
    fact_key = text (get r (lit "fact_key"));
    claim_key = text (get r (lit "claim_key"));
    policy_hash = text (get r (lit "policy_hash"));
    schema_version = text (get r (lit "schema_version"));
    mutability = text (get r (lit "mutability"));
    current_resolution_id = current_resolution_id;
    latest_resolution_id = latest_resolution_id;
    current_request_id = current_request_id;
    current_outcome = text (get r (lit "current_outcome"));
    resolved_at = resolved_at;
    valid_until = valid_until;
    resolution_version = resolution_version;
    template_hash = text (get r (lit "template_hash"));
  })

-- `normalizeConfig`
unfoldable pub normalize_config : Record → Result Text ProtocolConfig
normalize_config r = do
  owner ← assert_address (get r (lit "owner")) (lit "config.owner")
  pending_owner ← assert_address (get r (lit "pending_owner")) (lit "config.pending_owner")
  guardian ← assert_address (get r (lit "guardian")) (lit "config.guardian")
  policy_registry ← assert_address (get r (lit "policy_registry")) (lit "config.policy_registry")
  default_resolver ← assert_address (get r (lit "default_resolver")) (lit "config.default_resolver")
  fee_base ← to_big_int (get r (lit "fee_base")) (lit "config.fee_base")
  fee_per_attempt ← to_big_int (get r (lit "fee_per_attempt")) (lit "config.fee_per_attempt")
  fee_reuse ← to_big_int (get r (lit "fee_reuse")) (lit "config.fee_reuse")
  retry_delay_seconds ←
      to_big_int (get r (lit "retry_delay_seconds")) (lit "config.retry_delay_seconds")
  stale_after_seconds ←
      to_big_int (get r (lit "stale_after_seconds")) (lit "config.stale_after_seconds")
  max_attempts ← to_number (get r (lit "max_attempts")) (lit "config.max_attempts")
  max_seed_urls ← to_number (get r (lit "max_seed_urls")) (lit "config.max_seed_urls")
  ok (record {
    owner = owner;
    pending_owner = pending_owner;
    guardian = guardian;
    policy_registry = policy_registry;
    default_resolver = default_resolver;
    paused_new_requests = flag (get r (lit "paused_new_requests"));
    fee_base = fee_base;
    fee_per_attempt = fee_per_attempt;
    fee_reuse = fee_reuse;
    retry_delay_seconds = retry_delay_seconds;
    stale_after_seconds = stale_after_seconds;
    max_attempts = max_attempts;
    max_seed_urls = max_seed_urls;
    schema_version = text (get r (lit "schema_version"));
    registry_version = text (get r (lit "registry_version"));
  })

-- `normalizeStats`
unfoldable pub normalize_stats : Record → Result Text ProtocolStats
normalize_stats r = do
  request_count ← to_big_int (get r (lit "request_count")) (lit "stats.request_count")
  resolution_count ← to_big_int (get r (lit "resolution_count")) (lit "stats.resolution_count")
  reused_count ← to_big_int (get r (lit "reused_count")) (lit "stats.reused_count")
  event_count ← to_big_int (get r (lit "event_count")) (lit "stats.event_count")
  ok (record {
    request_count = request_count;
    resolution_count = resolution_count;
    reused_count = reused_count;
    paused = flag (get r (lit "paused"));
    event_count = event_count;
  })
