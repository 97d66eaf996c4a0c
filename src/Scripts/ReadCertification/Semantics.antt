-- ===== src/Scripts/ReadCertification/Semantics.antt =====
-- `expectedSemantics` of scripts/read-certification.mjs.
use evidra_protocol.Base.{List, [], ◌∷◌, Text, lit}

abbrev pub expected_semantics : List (Text × Text)
expected_semantics =
    (
      lit "get_source_policy",
      lit "Returns the exact stored policy record for the requested policy ID and version.",
    )
    ∷ (
      lit "get_latest_source_policy",
      lit "Returns the latest stored policy record for the requested policy ID.",
    )
    ∷ (
      lit "is_source_policy_active",
      lit "Reports whether the requested policy version is active for new requests.",
    )
    ∷ (
      lit "get_policy_hash",
      lit "Returns the deterministic hash of the exact stored policy version.",
    )
    ∷ (
      lit "get_template",
      lit "Returns the exact stored template record for the requested template ID and version.",
    )
    ∷ (
      lit "get_latest_template",
      lit "Returns the latest stored template record for the requested template ID.",
    )
    ∷ (
      lit "is_template_active",
      lit "Reports whether the requested template version is active for new requests.",
    )
    ∷ (
      lit "get_template_hash",
      lit "Returns the deterministic hash of the exact stored template version.",
    )
    ∷ (
      lit "get_latest_policy_version",
      lit "Returns the latest published version number for a policy ID.",
    )
    ∷ (
      lit "get_latest_template_version",
      lit "Returns the latest published version number for a template ID.",
    )
    ∷ (lit "get_ownership", lit "Returns the ownership and pending-ownership state.")
    ∷ (lit "get_owner", lit "Returns the current owner address.")
    ∷ (lit "get_pending_owner", lit "Returns the pending owner address or the zero address.")
    ∷ (lit "get_protocol_stats", lit "Returns aggregate protocol counters for this contract.")
    ∷ (lit "get_event_count", lit "Returns the number of retained protocol events.")
    ∷ (lit "get_events", lit "Returns the requested bounded event page.")
    ∷ (
      lit "compute_policy_hash",
      lit "Computes the policy hash preview for the supplied canonical policy inputs.",
    )
    ∷ (
      lit "compute_template_hash",
      lit "Computes the template hash preview for the supplied canonical template inputs.",
    )
    ∷ (lit "get_registry_version", lit "Returns the deployed contract version string.")
    ∷ (
      lit "get_request",
      lit
          "Returns the exact request record for the request ID, including lifecycle state and attempt fields.",
    )
    ∷ (lit "get_request_status", lit "Returns the current lifecycle status for the request ID.")
    ∷ (
      lit "get_fact",
      lit "Returns the fact record and canonical/latest resolution pointers for the fact key.",
    )
    ∷ (
      lit "get_current_resolution",
      lit "Returns the canonical resolution selected by the fact record.",
    )
    ∷ (
      lit "get_latest_resolution",
      lit "Returns the newest committed resolution attempt for the fact key.",
    )
    ∷ (lit "get_resolution", lit "Returns the exact resolution record for the resolution ID.")
    ∷ (
      lit "get_resolution_history",
      lit "Returns the bounded historical resolution page for the fact key.",
    )
    ∷ (
      lit "get_evidence_manifest",
      lit "Returns the evidence manifest attached to the resolution ID.",
    )
    ∷ (
      lit "compute_claim_key",
      lit "Computes the semantic claim identity from the supplied claim fields.",
    )
    ∷ (
      lit "compute_fact_key",
      lit "Computes the fact identity from claim, policy, schema, and template identity inputs.",
    )
    ∷ (
      lit "compute_spec_hash",
      lit
          "Computes the request specification hash from execution parameters and validated seed inputs.",
    )
    ∷ (
      lit "is_fact_fresh",
      lit
          "Reports whether the fact has a canonical resolution that is currently within valid_until.",
    )
    ∷ (
      lit "can_reuse_fact",
      lit "Reports whether the configured reuse mode permits reuse of the current fact.",
    )
    ∷ (
      lit "can_reuse_with_freshness",
      lit "Reports whether the requested reuse mode and freshness requirement permit reuse.",
    )
    ∷ (
      lit "compute_callback_id",
      lit "Computes the deterministic callback identity for request, resolution, and consumer.",
    )
    ∷ (
      lit "quote_resolution_fee",
      lit "Returns the protocol fee quote for the requested reuse mode.",
    )
    ∷ (
      lit "get_protocol_config",
      lit "Returns the current protocol configuration and fee/limit parameters.",
    )
    ∷ (
      lit "get_resolver",
      lit "Returns the resolver registration and enabled state for the resolver address.",
    )
    ∷ (lit "get_job_snapshot", lit "Returns the request/job snapshot used for resolver execution.")
    ∷ (lit "get_credit", lit "Returns the stored protocol credit balance for the supplied address.")
    ∷ (lit "get_guardian", lit "Returns the guardian address.")
    ∷ (lit "is_paused", lit "Reports whether new protocol requests are paused.")
    ∷ (lit "get_policy_registry", lit "Returns the configured policy registry address.")
    ∷ (lit "get_default_resolver", lit "Returns the configured default resolver address.")
    ∷ (lit "get_capabilities", lit "Returns the resolver capability string.")
    ∷ (
      lit "get_capabilities_json",
      lit "Returns the resolver capabilities in structured JSON form.",
    )
    ∷ (lit "get_resolver_version", lit "Returns the resolver version string.")
    ∷ (lit "get_registry", lit "Returns the registry address configured in the resolver.")
    ∷ (
      lit "get_trusted_registry",
      lit "Returns the registry address trusted by the consumer probe.",
    )
    ∷ (lit "get_last_request_id", lit "Returns the most recently acknowledged callback request ID.")
    ∷ (
      lit "get_last_fact_key",
      lit "Returns the fact key from the most recently acknowledged callback.",
    )
    ∷ (
      lit "get_last_resolution_id",
      lit "Returns the resolution ID from the most recently acknowledged callback.",
    )
    ∷ (
      lit "get_last_outcome",
      lit "Returns the outcome from the most recently acknowledged callback.",
    )
    ∷ (
      lit "get_last_resolved_at",
      lit "Returns the resolved_at timestamp from the most recently acknowledged callback.",
    )
    ∷ (
      lit "get_last_valid_until",
      lit "Returns the valid_until timestamp from the most recently acknowledged callback.",
    )
    ∷ (
      lit "get_last_callback_id",
      lit "Returns the callback ID from the most recently acknowledged callback.",
    )
    ∷ (
      lit "get_callback_count",
      lit "Returns the number of callbacks accepted by the consumer probe.",
    )
    ∷ (
      lit "get_duplicate_ignored_count",
      lit "Returns the number of duplicate callbacks ignored by the consumer probe.",
    )
    ∷ (
      lit "has_processed_callback",
      lit "Reports whether the supplied callback ID has already been processed.",
    )
    ∷ (lit "validate_seed_url", lit "Validates a source URL under the hardened V1 URL policy.")
    ∷ []
