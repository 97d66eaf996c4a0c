-- ===== src/Protocol/Types.antt =====
-- packages/protocol/src/types.ts: the records that the contracts return. An identifier, a time or a
-- version is a natural number; an address, a hash or an enumerated string is a text.
use evidra_protocol.Base.{ℕ, Bool, Option, List, Text}

pub record SourcePolicyRecord : Type 0 where
  pub exists : Bool
  pub policy_id : Text
  pub version : ℕ
  pub name : Text
  pub active : Bool
  pub min_primary_sources : ℕ
  pub min_independent_sources : ℕ
  pub allowed_classes : Text
  pub disallowed_classes : Text
  pub require_cross_check : Bool
  pub semantic_rules : Text
  pub policy_hash : Text
  pub published_at : ℕ
  pub deprecated : Bool

pub record TemplateRecord : Type 0 where
  pub exists : Bool
  pub template_id : Text
  pub version : ℕ
  pub name : Text
  pub active : Bool
  pub fact_type : Text
  pub required_fields : Text
  pub resolution_instructions : Text
  pub default_policy_id : Text
  pub default_policy_version : ℕ
  pub template_hash : Text
  pub published_at : ℕ
  pub deprecated : Bool

pub record ProtocolEvent : Type 0 where
  pub index : ℕ
  pub topic : Text
  pub payload : Text
  pub timestamp : ℕ

pub record EventPage : Type 0 where
  pub offset : ℕ
  pub limit : ℕ
  pub total : ℕ
  pub items : List ProtocolEvent

pub record ResolverInfo : Type 0 where
  pub exists : Bool
  pub resolver : Text
  pub enabled : Bool
  pub resolver_version : Text
  pub capabilities : Text
  pub registered_at : ℕ

pub record RequestRecord : Type 0 where
  pub exists : Bool
  pub request_id : ℕ
  pub requester : Text
  pub claim_key : Text
  pub fact_key : Text
  pub spec_hash : Text
  pub policy_hash : Text
  pub policy_id : Text
  pub policy_version : ℕ
  pub assigned_resolver : Text
  pub created_at : ℕ
  pub status : Text
  pub active_attempt_id : ℕ
  pub last_attempt_at : ℕ
  pub retry_after : ℕ
  pub max_attempts : ℕ
  pub attempt_count : ℕ
  pub callback_target : Text
  pub callback_status : Text
  pub reuse_mode : Text
  pub fee_paid : ℕ
  pub mutability : Text
  pub schema_version : Text
  pub ttl_seconds : ℕ
  pub seed_urls_json : Text
  pub subject : Text
  pub predicate : Text
  pub object_value : Text
  pub qualifiers : Text
  pub temporal : Text
  pub description : Text
  pub current_resolution_id : ℕ
  pub supplemental_urls_json : Text
  pub template_id : Text
  pub template_version : ℕ
  pub template_hash : Text
  pub fact_type : Text
  pub template_resolution_instructions : Text

pub record ResolutionRecord : Type 0 where
  pub exists : Bool
  pub resolution_id : ℕ
  pub request_id : ℕ
  pub attempt_id : ℕ
  pub claim_key : Text
  pub fact_key : Text
  pub spec_hash : Text
  pub policy_hash : Text
  pub outcome : Text
  pub diagnostic_reason : Text
  pub policy_satisfied : Bool
  pub resolver_version : Text
  pub evidence_manifest_hash : Text
  pub reasoning_summary : Text
  pub evaluated_at : ℕ
  pub committed_at : ℕ
  pub valid_until : ℕ
  pub resolution_version : ℕ
  pub supersedes_resolution_id : ℕ
  pub template_id : Text
  pub template_version : ℕ
  pub template_hash : Text

pub record FactRecord : Type 0 where
  pub exists : Bool
  pub fact_key : Text
  pub claim_key : Text
  pub policy_hash : Text
  pub schema_version : Text
  pub mutability : Text
  pub current_resolution_id : ℕ
  pub latest_resolution_id : ℕ
  pub current_request_id : ℕ
  pub current_outcome : Text
  pub resolved_at : ℕ
  pub valid_until : ℕ
  pub resolution_version : ℕ
  pub template_hash : Text

pub record ProtocolConfig : Type 0 where
  pub owner : Text
  pub pending_owner : Text
  pub guardian : Text
  pub policy_registry : Text
  pub default_resolver : Text
  pub paused_new_requests : Bool
  pub fee_base : ℕ
  pub fee_per_attempt : ℕ
  pub fee_reuse : ℕ
  pub retry_delay_seconds : ℕ
  pub stale_after_seconds : ℕ
  pub max_attempts : ℕ
  pub max_seed_urls : ℕ
  pub schema_version : Text
  pub registry_version : Text

pub record ProtocolStats : Type 0 where
  pub request_count : ℕ
  pub resolution_count : ℕ
  pub reused_count : ℕ
  pub paused : Bool
  pub event_count : ℕ

pub record EvidenceEntry : Type 0 where
  pub url : Text
  pub canonical : Option Text
  pub host : Option Text
  pub status : Text
  pub error : Option Text
  pub origin : Text
  pub category : Option Text
  pub provenance_group : Text
  pub source_class : Text
  pub is_primary : Bool
  pub is_independent : Bool
  pub policy_eligible : Bool
  pub evidence_hash : Text
  pub relevant_timestamp : Option Text

-- `EvidenceManifestView` with its entries
pub record EvidenceManifest : Type 0 where
  pub exists : Bool
  pub resolution_id : ℕ
  pub manifest_hash : Text
  pub manifest_json : Text
  pub entries : List EvidenceEntry
