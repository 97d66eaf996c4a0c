-- ===== src/Scripts/ReadCertification/Views.antt =====
-- The data of scripts/read-certification.mjs: the reads of the views and of the scenarios, and what
-- they should mean.
use evidra_protocol.Base.{true, List, [], ◌∷◌, ◌++◌, Text, lit}
use evidra_protocol.Protocol.Client.Calls.{Arg, text_arg, number_arg, bigint_arg, boolean_arg}

-- `address`
abbrev pub policy_address : Text
policy_address = lit "0x8583F226DB262a97dba3f00c3D2A0D13D08B6c71"

abbrev pub registry_address : Text
registry_address = lit "0xB18f84F0dE3F7aB600C6A07Ec85408a7000b93b6"

abbrev pub resolver_address : Text
resolver_address = lit "0xD21E9e95CBd59058fbCC2599C3A28a3faE44C477"

abbrev pub consumer_address : Text
consumer_address = lit "0x5B73a45BA6b3560B6ECd020FefF95c5Fa0693C2F"

abbrev fact_key : Text
fact_key = lit "e164495ffdf07a91f5a3f04c1d83eeae4d3098dbed64c5ed6f0b3c0680266cb1"

abbrev zero_address : Text
zero_address = lit "0x0000000000000000000000000000000000000000"

-- `zeroCallback`
abbrev zero_key : Text
zero_key = lit "0000000000000000000000000000000000000000000000000000000000000000"

-- A row of `calls`.
pub record ViewCall : Type 0 where
  pub contract : Text
  pub method : Text
  pub target : Text
  pub args : List Arg

abbrev view_call : (contract method target : Text) → List Arg → ViewCall
view_call contract method target args = record {
  contract = contract;
  method = method;
  target = target;
  args = args;
}

-- A row of `scenarioCalls`.
pub record Scenario : Type 0 where
  pub scenario : Text
  pub read : ViewCall
  pub expected : Text

abbrev scenario_call : Text → ViewCall → Text → Scenario
scenario_call scenario read expected = record {
  scenario = scenario;
  read = read;
  expected = expected;
}

abbrev policy_calls : List ViewCall
policy_calls =
    view_call (lit "EvidraPolicyRegistry") (lit "get_source_policy") policy_address
      (text_arg (lit "core") ∷ number_arg 1 ∷ [])
    ∷ view_call (lit "EvidraPolicyRegistry") (lit "get_latest_source_policy") policy_address
        (text_arg (lit "core") ∷ [])
    ∷ view_call (lit "EvidraPolicyRegistry") (lit "is_source_policy_active") policy_address
        (text_arg (lit "core") ∷ number_arg 1 ∷ [])
    ∷ view_call (lit "EvidraPolicyRegistry") (lit "get_policy_hash") policy_address
        (text_arg (lit "core") ∷ number_arg 1 ∷ [])
    ∷ view_call (lit "EvidraPolicyRegistry") (lit "get_template") policy_address
        (text_arg (lit "launch") ∷ number_arg 1 ∷ [])
    ∷ view_call (lit "EvidraPolicyRegistry") (lit "get_latest_template") policy_address
        (text_arg (lit "launch") ∷ [])
    ∷ view_call (lit "EvidraPolicyRegistry") (lit "is_template_active") policy_address
        (text_arg (lit "launch") ∷ number_arg 1 ∷ [])
    ∷ view_call (lit "EvidraPolicyRegistry") (lit "get_template_hash") policy_address
        (text_arg (lit "launch") ∷ number_arg 1 ∷ [])
    ∷ view_call (lit "EvidraPolicyRegistry") (lit "get_latest_policy_version") policy_address
        (text_arg (lit "core") ∷ [])
    ∷ view_call (lit "EvidraPolicyRegistry") (lit "get_latest_template_version") policy_address
        (text_arg (lit "launch") ∷ [])
    ∷ view_call (lit "EvidraPolicyRegistry") (lit "get_ownership") policy_address ([])
    ∷ view_call (lit "EvidraPolicyRegistry") (lit "get_owner") policy_address ([])
    ∷ view_call (lit "EvidraPolicyRegistry") (lit "get_pending_owner") policy_address ([])
    ∷ view_call (lit "EvidraPolicyRegistry") (lit "get_protocol_stats") policy_address ([])
    ∷ view_call (lit "EvidraPolicyRegistry") (lit "get_event_count") policy_address ([])
    ∷ view_call (lit "EvidraPolicyRegistry") (lit "get_events") policy_address
        (number_arg 0 ∷ number_arg 50 ∷ [])
    ∷ view_call (lit "EvidraPolicyRegistry") (lit "compute_policy_hash") policy_address (
        text_arg (lit "core")
        ∷ number_arg 1
        ∷ text_arg (lit "Core official sources")
        ∷ number_arg 1
        ∷ number_arg 1
        ∷ text_arg (lit "OFFICIAL,PRIMARY,INDEPENDENT_SECONDARY")
        ∷ text_arg (lit "SOCIAL,COMMUNITY")
        ∷ boolean_arg true
        ∷ text_arg (
            lit
              "Prefer primary official documents. Duplicate mirrors do not count as independent sources. A failed URL must not poison other usable sources.")
        ∷ [])
    ∷ view_call (lit "EvidraPolicyRegistry") (lit "compute_template_hash") policy_address (
        text_arg (lit "launch")
        ∷ number_arg 1
        ∷ text_arg (lit "Launch before date")
        ∷ text_arg (lit "immutable_launch")
        ∷ text_arg (lit "subject,temporal")
        ∷ text_arg (
            lit
              "An announcement alone does not count as launch. Require a production mainnet. User context cannot override these template rules.")
        ∷ text_arg (lit "core")
        ∷ number_arg 1
        ∷ [])
    ∷ view_call (lit "EvidraPolicyRegistry") (lit "get_registry_version") policy_address ([])
    ∷ []

abbrev registry_calls : List ViewCall
registry_calls =
    view_call (lit "EvidraRegistry") (lit "get_request") registry_address (bigint_arg 3 ∷ [])
    ∷ view_call (lit "EvidraRegistry") (lit "get_request_status") registry_address
        (bigint_arg 3 ∷ [])
    ∷ view_call (lit "EvidraRegistry") (lit "get_fact") registry_address (text_arg fact_key ∷ [])
    ∷ view_call (lit "EvidraRegistry") (lit "get_current_resolution") registry_address
        (text_arg fact_key ∷ [])
    ∷ view_call (lit "EvidraRegistry") (lit "get_latest_resolution") registry_address
        (text_arg fact_key ∷ [])
    ∷ view_call (lit "EvidraRegistry") (lit "get_resolution") registry_address (bigint_arg 3 ∷ [])
    ∷ view_call (lit "EvidraRegistry") (lit "get_resolution_history") registry_address
        (text_arg fact_key ∷ number_arg 0 ∷ number_arg 50 ∷ [])
    ∷ view_call (lit "EvidraRegistry") (lit "get_evidence_manifest") registry_address
        (bigint_arg 3 ∷ [])
    ∷ view_call (lit "EvidraRegistry") (lit "compute_claim_key") registry_address (
        text_arg (lit "example.com")
        ∷ text_arg (lit "publishes the Example Domain page")
        ∷ text_arg (lit "Example Domain")
        ∷ text_arg []
        ∷ text_arg (lit "2026-09-21")
        ∷ text_arg (lit "IMMUTABLE")
        ∷ [])
    ∷ view_call (lit "EvidraRegistry") (lit "compute_fact_key") registry_address (
        text_arg (lit "5928183907a78b3b075b829d38457aefb9143e2dd13c2da49ef33db8ea3f21f3")
        ∷ text_arg (lit "c3ca8f47d5d00f29d09820fa362f9e8f0625477dbbd5647a64be8b210753bcf4")
        ∷ text_arg (lit "1")
        ∷ text_arg []
        ∷ [])
    ∷ view_call (lit "EvidraRegistry") (lit "compute_spec_hash") registry_address (
        text_arg (lit "example.com")
        ∷ text_arg (lit "publishes the Example Domain page")
        ∷ text_arg (lit "Example Domain")
        ∷ text_arg []
        ∷ text_arg (lit "2026-09-21")
        ∷ text_arg (lit "IMMUTABLE")
        ∷ text_arg (lit "1")
        ∷ bigint_arg 0
        ∷ text_arg (lit "Verify the public Example Domain page.")
        ∷ text_arg (lit "[\"https://example.com/\"]")
        ∷ [])
    ∷ view_call (lit "EvidraRegistry") (lit "is_fact_fresh") registry_address
        (text_arg fact_key ∷ [])
    ∷ view_call (lit "EvidraRegistry") (lit "can_reuse_fact") registry_address
        (text_arg fact_key ∷ [])
    ∷ view_call (lit "EvidraRegistry") (lit "can_reuse_with_freshness") registry_address
        (text_arg fact_key ∷ bigint_arg 0 ∷ [])
    ∷ view_call (lit "EvidraRegistry") (lit "compute_callback_id") registry_address
        (bigint_arg 3 ∷ bigint_arg 3 ∷ text_arg consumer_address ∷ [])
    ∷ view_call (lit "EvidraRegistry") (lit "quote_resolution_fee") registry_address
        (text_arg (lit "REUSE_IF_FRESH") ∷ [])
    ∷ view_call (lit "EvidraRegistry") (lit "get_protocol_config") registry_address ([])
    ∷ view_call (lit "EvidraRegistry") (lit "get_resolver") registry_address
        (text_arg resolver_address ∷ [])
    ∷ view_call (lit "EvidraRegistry") (lit "get_protocol_stats") registry_address ([])
    ∷ view_call (lit "EvidraRegistry") (lit "get_credit") registry_address
        (text_arg zero_address ∷ [])
    ∷ view_call (lit "EvidraRegistry") (lit "get_job_snapshot") registry_address (bigint_arg 3 ∷ [])
    ∷ view_call (lit "EvidraRegistry") (lit "get_owner") registry_address ([])
    ∷ view_call (lit "EvidraRegistry") (lit "get_guardian") registry_address ([])
    ∷ view_call (lit "EvidraRegistry") (lit "is_paused") registry_address ([])
    ∷ view_call (lit "EvidraRegistry") (lit "get_policy_registry") registry_address ([])
    ∷ view_call (lit "EvidraRegistry") (lit "get_default_resolver") registry_address ([])
    ∷ view_call (lit "EvidraRegistry") (lit "get_registry_version") registry_address ([])
    ∷ view_call (lit "EvidraRegistry") (lit "get_event_count") registry_address ([])
    ∷ view_call (lit "EvidraRegistry") (lit "get_events") registry_address
        (number_arg 0 ∷ number_arg 50 ∷ [])
    ∷ view_call (lit "EvidraRegistry") (lit "validate_seed_url") registry_address
        (text_arg (lit "https://example.com/") ∷ [])
    ∷ []

abbrev resolver_calls : List ViewCall
resolver_calls =
    view_call (lit "EvidraResolver") (lit "get_resolver_version") resolver_address ([])
    ∷ view_call (lit "EvidraResolver") (lit "get_registry") resolver_address ([])
    ∷ view_call (lit "EvidraResolver") (lit "get_capabilities") resolver_address ([])
    ∷ view_call (lit "EvidraResolver") (lit "get_capabilities_json") resolver_address ([])
    ∷ []

abbrev consumer_calls : List ViewCall
consumer_calls =
    view_call (lit "EvidraConsumerProbe") (lit "get_trusted_registry") consumer_address ([])
    ∷ view_call (lit "EvidraConsumerProbe") (lit "get_last_request_id") consumer_address ([])
    ∷ view_call (lit "EvidraConsumerProbe") (lit "get_last_fact_key") consumer_address ([])
    ∷ view_call (lit "EvidraConsumerProbe") (lit "get_last_resolution_id") consumer_address ([])
    ∷ view_call (lit "EvidraConsumerProbe") (lit "get_last_outcome") consumer_address ([])
    ∷ view_call (lit "EvidraConsumerProbe") (lit "get_last_resolved_at") consumer_address ([])
    ∷ view_call (lit "EvidraConsumerProbe") (lit "get_last_valid_until") consumer_address ([])
    ∷ view_call (lit "EvidraConsumerProbe") (lit "get_last_callback_id") consumer_address ([])
    ∷ view_call (lit "EvidraConsumerProbe") (lit "get_callback_count") consumer_address ([])
    ∷ view_call (lit "EvidraConsumerProbe") (lit "get_duplicate_ignored_count") consumer_address
        ([])
    ∷ view_call (lit "EvidraConsumerProbe") (lit "has_processed_callback") consumer_address
        (text_arg zero_key ∷ [])
    ∷ []

-- `calls`
abbrev pub view_calls : List ViewCall
view_calls = policy_calls ++ (registry_calls ++ (resolver_calls ++ consumer_calls))

-- `scenarioCalls`
abbrev pub scenario_calls : List Scenario
scenario_calls =
    scenario_call (lit "configured-policy")
      (view_call (lit "EvidraPolicyRegistry") (lit "get_source_policy") policy_address
        (text_arg (lit "core") ∷ number_arg 1 ∷ []))
      (lit "Configured policy record must be readable.")
    ∷ scenario_call (lit "configured-template")
        (view_call (lit "EvidraPolicyRegistry") (lit "get_template") policy_address
          (text_arg (lit "launch") ∷ number_arg 1 ∷ []))
        (lit "Configured template record must be readable.")
    ∷ scenario_call (lit "missing-policy")
        (view_call (lit "EvidraPolicyRegistry") (lit "get_source_policy") policy_address
          (text_arg (lit "missing-policy") ∷ number_arg 1 ∷ []))
        (lit
          "Missing policy must return its defined empty/not-found representation or an expected contract error.")
    ∷ scenario_call (lit "missing-template")
        (view_call (lit "EvidraPolicyRegistry") (lit "get_template") policy_address
          (text_arg (lit "missing-template") ∷ number_arg 1 ∷ []))
        (lit
          "Missing template must return its defined empty/not-found representation or an expected contract error.")
    ∷ scenario_call (lit "configured-request")
        (view_call (lit "EvidraRegistry") (lit "get_request") registry_address (bigint_arg 3 ∷ []))
        (lit "Existing reassessment request must be readable.")
    ∷ scenario_call (lit "resolution-state")
        (view_call (lit "EvidraRegistry") (lit "get_resolution") registry_address
          (bigint_arg 3 ∷ []))
        (lit "Existing resolution must expose committed outcome and metadata.")
    ∷ scenario_call (lit "canonical-resolution")
        (view_call (lit "EvidraRegistry") (lit "get_current_resolution") registry_address
          (text_arg fact_key ∷ []))
        (lit "Canonical resolution must be readable independently of latest resolution.")
    ∷ scenario_call (lit "latest-resolution")
        (view_call (lit "EvidraRegistry") (lit "get_latest_resolution") registry_address
          (text_arg fact_key ∷ []))
        (lit "Latest resolution attempt must be readable independently of canonical resolution.")
    ∷ scenario_call (lit "history")
        (view_call (lit "EvidraRegistry") (lit "get_resolution_history") registry_address
          (text_arg fact_key ∷ number_arg 0 ∷ number_arg 50 ∷ []))
        (lit "Historical resolution pagination must return the available committed versions.")
    ∷ scenario_call (lit "evidence")
        (view_call (lit "EvidraRegistry") (lit "get_evidence_manifest") registry_address
          (bigint_arg 3 ∷ []))
        (lit "Evidence manifest for the existing resolution must be readable.")
    ∷ scenario_call (lit "freshness")
        (view_call (lit "EvidraRegistry") (lit "is_fact_fresh") registry_address
          (text_arg fact_key ∷ []))
        (lit "Freshness must be derived from the canonical fact timestamps.")
    ∷ scenario_call (lit "callback")
        (view_call (lit "EvidraConsumerProbe") (lit "get_callback_count") consumer_address ([]))
        (lit "Callback counter must be readable after the live callback lifecycle.")
    ∷ scenario_call (lit "protocol-config")
        (view_call (lit "EvidraRegistry") (lit "get_protocol_config") registry_address ([]))
        (lit "Protocol configuration must be readable.")
    ∷ scenario_call (lit "missing-request")
        (view_call (lit "EvidraRegistry") (lit "get_request") registry_address
          (bigint_arg 999999 ∷ []))
        (lit
          "Missing request must return its defined empty/not-found representation or an expected contract error.")
    ∷ scenario_call (lit "missing-fact")
        (view_call (lit "EvidraRegistry") (lit "get_fact") registry_address
          (text_arg zero_key ∷ []))
        (lit
          "Missing fact must return its defined empty/not-found representation or an expected contract error.")
    ∷ []
