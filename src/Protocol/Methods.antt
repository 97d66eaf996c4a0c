-- ===== src/Protocol/Methods.antt =====
-- packages/protocol/src/methods.ts.
use evidra_protocol.Base.{List, [], ◌∷◌, ◌++◌, map, Text, lit}
use evidra_protocol.Protocol.Constants.{
  ContractName, policy_registry, registry, resolver, consumer_probe,
}

-- `PublicViewMethod`
pub record PublicViewMethod : Type 0 where
  pub contract : ContractName
  pub function_name : Text

abbrev pub methods : ContractName → List Text → List PublicViewMethod
methods contract names = map (λ name. record { contract = contract; function_name = name }) names

-- `PUBLIC_VIEW_METHODS`
abbrev pub public_view_methods : List PublicViewMethod
public_view_methods =
    methods policy_registry (
      lit "get_source_policy"
      ∷ lit "get_latest_source_policy"
      ∷ lit "is_source_policy_active"
      ∷ lit "get_policy_hash"
      ∷ lit "get_template"
      ∷ lit "get_latest_template"
      ∷ lit "is_template_active"
      ∷ lit "get_template_hash"
      ∷ lit "get_latest_policy_version"
      ∷ lit "get_latest_template_version"
      ∷ lit "get_ownership"
      ∷ lit "get_owner"
      ∷ lit "get_pending_owner"
      ∷ lit "get_protocol_stats"
      ∷ lit "get_event_count"
      ∷ lit "get_events"
      ∷ lit "compute_policy_hash"
      ∷ lit "compute_template_hash"
      ∷ lit "get_registry_version"
      ∷ [])
    ++ methods registry (
        lit "get_request"
        ∷ lit "get_request_status"
        ∷ lit "get_fact"
        ∷ lit "get_current_resolution"
        ∷ lit "get_latest_resolution"
        ∷ lit "get_resolution"
        ∷ lit "get_resolution_history"
        ∷ lit "get_evidence_manifest"
        ∷ lit "compute_claim_key"
        ∷ lit "compute_fact_key"
        ∷ lit "compute_spec_hash"
        ∷ lit "is_fact_fresh"
        ∷ lit "can_reuse_fact"
        ∷ lit "can_reuse_with_freshness"
        ∷ lit "compute_callback_id"
        ∷ lit "quote_resolution_fee"
        ∷ lit "get_protocol_config"
        ∷ lit "get_resolver"
        ∷ lit "get_protocol_stats"
        ∷ lit "get_credit"
        ∷ lit "get_job_snapshot"
        ∷ lit "get_owner"
        ∷ lit "get_guardian"
        ∷ lit "is_paused"
        ∷ lit "get_policy_registry"
        ∷ lit "get_default_resolver"
        ∷ lit "get_registry_version"
        ∷ lit "get_event_count"
        ∷ lit "get_events"
        ∷ lit "validate_seed_url"
        ∷ [])
    ++ methods resolver (
        lit "get_resolver_version"
        ∷ lit "get_registry"
        ∷ lit "get_capabilities"
        ∷ lit "get_capabilities_json"
        ∷ [])
    ++ methods consumer_probe (
        lit "get_trusted_registry"
        ∷ lit "get_last_request_id"
        ∷ lit "get_last_fact_key"
        ∷ lit "get_last_resolution_id"
        ∷ lit "get_last_outcome"
        ∷ lit "get_last_resolved_at"
        ∷ lit "get_last_valid_until"
        ∷ lit "get_last_callback_id"
        ∷ lit "get_callback_count"
        ∷ lit "get_duplicate_ignored_count"
        ∷ lit "has_processed_callback"
        ∷ [])
