-- ===== src/Db/Data.antt =====
-- Rows and records that the tests of the repository and of the indexer share.
use evidra_protocol.Base.{true, false, none, some, [], ◌∷◌, lit}
use evidra_protocol.Protocol.Types.{
  FactRecord, RequestRecord, ResolutionRecord, ProtocolConfig, ProtocolStats, ResolverInfo,
  EvidenceManifest, SourcePolicyRecord, TemplateRecord, ProtocolEvent,
}
use evidra_protocol.Db.{Database, SyncState}

abbrev pub fact : FactRecord
fact = record {
  exists = true;
  fact_key = lit "ab";
  claim_key = [];
  policy_hash = [];
  schema_version = [];
  mutability = lit "MUTABLE";
  current_resolution_id = 1;
  latest_resolution_id = 2;
  current_request_id = 0;
  current_outcome = [];
  resolved_at = 0;
  valid_until = 500;
  resolution_version = 0;
  template_hash = [];
}

abbrev pub request : RequestRecord
request = record {
  exists = true;
  request_id = 1;
  requester = [];
  claim_key = [];
  fact_key = lit "ab";
  spec_hash = [];
  policy_hash = [];
  policy_id = [];
  policy_version = 0;
  assigned_resolver = [];
  created_at = 0;
  status = lit "PENDING";
  active_attempt_id = 0;
  last_attempt_at = 0;
  retry_after = 0;
  max_attempts = 0;
  attempt_count = 0;
  callback_target = [];
  callback_status = [];
  reuse_mode = [];
  fee_paid = 0;
  mutability = lit "MUTABLE";
  schema_version = [];
  ttl_seconds = 0;
  seed_urls_json = [];
  subject = [];
  predicate = [];
  object_value = [];
  qualifiers = [];
  temporal = [];
  description = [];
  current_resolution_id = 0;
  supplemental_urls_json = [];
  template_id = [];
  template_version = 0;
  template_hash = [];
  fact_type = [];
  template_resolution_instructions = [];
}

abbrev pub resolution : ResolutionRecord
resolution = record {
  exists = true;
  resolution_id = 1;
  request_id = 0;
  attempt_id = 0;
  claim_key = [];
  fact_key = lit "ab";
  spec_hash = [];
  policy_hash = [];
  outcome = [];
  diagnostic_reason = [];
  policy_satisfied = true;
  resolver_version = [];
  evidence_manifest_hash = [];
  reasoning_summary = [];
  evaluated_at = 0;
  committed_at = 0;
  valid_until = 0;
  resolution_version = 1;
  supersedes_resolution_id = 0;
  template_id = [];
  template_version = 0;
  template_hash = [];
}

abbrev pub config : ProtocolConfig
config = record {
  owner = [];
  pending_owner = [];
  guardian = [];
  policy_registry = [];
  default_resolver = [];
  paused_new_requests = true;
  fee_base = 0;
  fee_per_attempt = 0;
  fee_reuse = 0;
  retry_delay_seconds = 0;
  stale_after_seconds = 0;
  max_attempts = 0;
  max_seed_urls = 0;
  schema_version = [];
  registry_version = [];
}

abbrev pub resolver_info : ResolverInfo
resolver_info = record {
  exists = true;
  resolver = [];
  enabled = true;
  resolver_version = [];
  capabilities = [];
  registered_at = 0;
}

abbrev pub stats : ProtocolStats
stats = record {
  request_count = 3;
  resolution_count = 1;
  reused_count = 0;
  paused = false;
  event_count = 0;
}

abbrev pub policy : SourcePolicyRecord
policy = record {
  exists = true;
  policy_id = [];
  version = 0;
  name = [];
  active = true;
  min_primary_sources = 0;
  min_independent_sources = 0;
  allowed_classes = [];
  disallowed_classes = [];
  require_cross_check = true;
  semantic_rules = [];
  policy_hash = [];
  published_at = 0;
  deprecated = true;
}

abbrev pub template : TemplateRecord
template = record {
  exists = true;
  template_id = [];
  version = 0;
  name = [];
  active = true;
  fact_type = [];
  required_fields = [];
  resolution_instructions = [];
  default_policy_id = [];
  default_policy_version = 0;
  template_hash = [];
  published_at = 0;
  deprecated = true;
}

abbrev pub manifest : EvidenceManifest
manifest = record {
  exists = true;
  resolution_id = 0;
  manifest_hash = [];
  manifest_json = [];
  entries = [];
}

abbrev pub event : ProtocolEvent
event = record { index = 0; topic = lit "PolicyPublished"; payload = []; timestamp = 0 }

abbrev pub sync_row : SyncState
sync_row = record {
  last_finalized_at = none;
  last_success_at = none;
  last_attempt_at = none;
  last_error = some (lit "timeout");
  status = lit "degraded";
  counts = record { policy = some 0; registry = some 0 };
  updated_at = none;
  last_request_id = 0;
  last_resolution_id = 0;
  last_config_check_at = none;
}

abbrev pub database : Database
database = record {
  facts = (record { fact = fact; is_fresh = false; synced_at = 0 }) ∷ [];
  requests = request ∷ [];
  resolutions =
      (record { resolution = resolution; is_canonical = false; is_latest = false })
      ∷ (record {
        resolution = record resolution { resolution_id = 2; resolution_version = 2 };
        is_canonical = true;
        is_latest = true;
      })
      ∷ [];
  evidence = [];
  policies = [];
  templates = [];
  protocol_state = none;
  sync = some sync_row;
}
