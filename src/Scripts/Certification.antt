-- ===== src/Scripts/Certification.antt =====
-- scripts/phase1-read-certification.ts: the run over the public views. The value that a passing read
-- returned is left out of its result, and so are the texts of the report that are constants.
pub mod Complete
use evidra_protocol.Base.{
  ℕ, ◌-◌, Bool, true, false, Option, none, some, List, [], ◌∷◌, ◌++◌, map, Text, lit, Result, ok,
  err, ◌>>=◌, length, take, keep_if, if◌then◌else◌, ◌==◌,
}
use evidra_protocol.Protocol.Constants.{resolver, consumer_probe, contract_address}
use evidra_protocol.Protocol.Json.{Json}
use evidra_protocol.Protocol.Client.{ReadMode, Deployment}
use evidra_protocol.Protocol.Client.Calls.{Call}
use evidra_protocol.Protocol.Client.Queries.{Query, run_query}
use evidra_protocol.Protocol.Client.Queries.PolicyRegistry
use evidra_protocol.Protocol.Client.Queries.Registry
use evidra_protocol.Protocol.Client.Queries.Resolver
use evidra_protocol.Protocol.Client.Queries.ConsumerProbe

abbrev fact_key : Text
fact_key = lit "e164495ffdf07a91f5a3f04c1d83eeae4d3098dbed64c5ed6f0b3c0680266cb1"

abbrev zero_address : Text
zero_address = lit "0x0000000000000000000000000000000000000000"

abbrev zero_callback : Text
zero_callback = lit "0000000000000000000000000000000000000000000000000000000000000000"

-- `ReadCase`; `run` is the error of the read, if it fails.
pub record ReadCase : Type 0 where
  pub contract : Text
  pub method : Text
  pub call : Result Text Call
  pub run : (Call → Result Text Json) → Option Text

abbrev pub error_of : {A : Type 0} → Result Text A → Option Text
error_of (ok a) = none
error_of (err e) = some e

abbrev pub read_case : {A : Type 0} → (contract method : Text) → Query A → ReadCase
read_case contract method q = record {
  contract = contract;
  method = method;
  call = q.call;
  run = λ raw_read. error_of (run_query raw_read q);
}

module _ (parse : Text → Option Json) where
  abbrev policy_cases : List ReadCase
  policy_cases =
      read_case (lit "EvidraPolicyRegistry") (lit "get_source_policy")
        (PolicyRegistry.get_source_policy (lit "core") 1)
      ∷ read_case (lit "EvidraPolicyRegistry") (lit "get_latest_source_policy")
          (PolicyRegistry.get_latest_source_policy (lit "core"))
      ∷ read_case (lit "EvidraPolicyRegistry") (lit "is_source_policy_active")
          (PolicyRegistry.is_source_policy_active (lit "core") 1)
      ∷ read_case (lit "EvidraPolicyRegistry") (lit "get_policy_hash")
          (PolicyRegistry.get_policy_hash (lit "core") 1)
      ∷ read_case (lit "EvidraPolicyRegistry") (lit "get_template")
          (PolicyRegistry.get_template (lit "launch") 1)
      ∷ read_case (lit "EvidraPolicyRegistry") (lit "get_latest_template")
          (PolicyRegistry.get_latest_template (lit "launch"))
      ∷ read_case (lit "EvidraPolicyRegistry") (lit "is_template_active")
          (PolicyRegistry.is_template_active (lit "launch") 1)
      ∷ read_case (lit "EvidraPolicyRegistry") (lit "get_template_hash")
          (PolicyRegistry.get_template_hash (lit "launch") 1)
      ∷ read_case (lit "EvidraPolicyRegistry") (lit "get_latest_policy_version")
          (PolicyRegistry.get_latest_policy_version (lit "core"))
      ∷ read_case (lit "EvidraPolicyRegistry") (lit "get_latest_template_version")
          (PolicyRegistry.get_latest_template_version (lit "launch"))
      ∷ read_case (lit "EvidraPolicyRegistry") (lit "get_ownership") (PolicyRegistry.get_ownership)
      ∷ read_case (lit "EvidraPolicyRegistry") (lit "get_owner") (PolicyRegistry.get_owner)
      ∷ read_case (lit "EvidraPolicyRegistry") (lit "get_pending_owner")
          (PolicyRegistry.get_pending_owner)
      ∷ read_case (lit "EvidraPolicyRegistry") (lit "get_protocol_stats")
          (PolicyRegistry.get_protocol_stats)
      ∷ read_case (lit "EvidraPolicyRegistry") (lit "get_event_count")
          (PolicyRegistry.get_event_count)
      ∷ read_case (lit "EvidraPolicyRegistry") (lit "get_events")
          (PolicyRegistry.get_events parse 0 50)
      ∷ read_case (lit "EvidraPolicyRegistry") (lit "compute_policy_hash") (
          PolicyRegistry.compute_policy_hash (lit "core") 1 (lit "Core official sources") 1 1
            (lit "OFFICIAL,PRIMARY,INDEPENDENT_SECONDARY") (lit "SOCIAL,COMMUNITY") true
            (lit "Prefer primary official documents."))
      ∷ read_case (lit "EvidraPolicyRegistry") (lit "compute_template_hash") (
          PolicyRegistry.compute_template_hash (lit "launch") 1 (lit "Launch before date")
            (lit "immutable_launch") (lit "subject,temporal") (lit "Require a production mainnet.")
            (lit "core") 1)
      ∷ read_case (lit "EvidraPolicyRegistry") (lit "get_registry_version")
          (PolicyRegistry.get_registry_version)
      ∷ []

  abbrev registry_cases : List ReadCase
  registry_cases =
      read_case (lit "EvidraRegistry") (lit "get_request") (Registry.get_request 3)
      ∷ read_case (lit "EvidraRegistry") (lit "get_request_status") (Registry.get_request_status 3)
      ∷ read_case (lit "EvidraRegistry") (lit "get_fact") (Registry.get_fact fact_key)
      ∷ read_case (lit "EvidraRegistry") (lit "get_current_resolution")
          (Registry.get_current_resolution fact_key)
      ∷ read_case (lit "EvidraRegistry") (lit "get_latest_resolution")
          (Registry.get_latest_resolution fact_key)
      ∷ read_case (lit "EvidraRegistry") (lit "get_resolution") (Registry.get_resolution 3)
      ∷ read_case (lit "EvidraRegistry") (lit "get_resolution_history")
          (Registry.get_resolution_history parse fact_key 0 50)
      ∷ read_case (lit "EvidraRegistry") (lit "get_evidence_manifest")
          (Registry.get_evidence_manifest parse 3)
      ∷ read_case (lit "EvidraRegistry") (lit "compute_claim_key") (
          Registry.compute_claim_key (lit "example.com") (lit "publishes the Example Domain page")
            (lit "Example Domain") [] (lit "2026-09-21") (lit "IMMUTABLE"))
      ∷ read_case (lit "EvidraRegistry") (lit "compute_fact_key") (
          Registry.compute_fact_key
            (lit "5928183907a78b3b075b829d38457aefb9143e2dd13c2da49ef33db8ea3f21f3")
            (lit "c3ca8f47d5d00f29d09820fa362f9e8f0625477dbbd5647a64be8b210753bcf4") (lit "1") [])
      ∷ read_case (lit "EvidraRegistry") (lit "compute_spec_hash") (
          Registry.compute_spec_hash (lit "example.com") (lit "publishes the Example Domain page")
            (lit "Example Domain") [] (lit "2026-09-21") (lit "IMMUTABLE") (lit "1") 0
            (lit "Verify the public Example Domain page.") (lit "[\"https://example.com/\"]"))
      ∷ read_case (lit "EvidraRegistry") (lit "is_fact_fresh") (Registry.is_fact_fresh fact_key)
      ∷ read_case (lit "EvidraRegistry") (lit "can_reuse_fact") (Registry.can_reuse_fact fact_key)
      ∷ read_case (lit "EvidraRegistry") (lit "can_reuse_with_freshness")
          (Registry.can_reuse_with_freshness fact_key 0)
      ∷ read_case (lit "EvidraRegistry") (lit "compute_callback_id")
          (Registry.compute_callback_id 3 3 (contract_address consumer_probe))
      ∷ read_case (lit "EvidraRegistry") (lit "quote_resolution_fee")
          (Registry.quote_resolution_fee (lit "REUSE_IF_FRESH"))
      ∷ read_case (lit "EvidraRegistry") (lit "get_protocol_config") (Registry.get_protocol_config)
      ∷ read_case (lit "EvidraRegistry") (lit "get_resolver")
          (Registry.get_resolver (contract_address resolver))
      ∷ read_case (lit "EvidraRegistry") (lit "get_protocol_stats") (Registry.get_protocol_stats)
      ∷ read_case (lit "EvidraRegistry") (lit "get_credit") (Registry.get_credit zero_address)
      ∷ read_case (lit "EvidraRegistry") (lit "get_job_snapshot") (Registry.get_job_snapshot 3)
      ∷ read_case (lit "EvidraRegistry") (lit "get_owner") (Registry.get_owner)
      ∷ read_case (lit "EvidraRegistry") (lit "get_guardian") (Registry.get_guardian)
      ∷ read_case (lit "EvidraRegistry") (lit "is_paused") (Registry.is_paused)
      ∷ read_case (lit "EvidraRegistry") (lit "get_policy_registry") (Registry.get_policy_registry)
      ∷ read_case (lit "EvidraRegistry") (lit "get_default_resolver")
          (Registry.get_default_resolver)
      ∷ read_case (lit "EvidraRegistry") (lit "get_registry_version")
          (Registry.get_registry_version)
      ∷ read_case (lit "EvidraRegistry") (lit "get_event_count") (Registry.get_event_count)
      ∷ read_case (lit "EvidraRegistry") (lit "get_events") (Registry.get_events parse 0 50)
      ∷ read_case (lit "EvidraRegistry") (lit "validate_seed_url")
          (Registry.validate_seed_url (lit "https://example.com/"))
      ∷ []

  abbrev resolver_cases : List ReadCase
  resolver_cases =
      read_case (lit "EvidraResolver") (lit "get_resolver_version") (Resolver.get_resolver_version)
      ∷ read_case (lit "EvidraResolver") (lit "get_registry") (Resolver.get_registry)
      ∷ read_case (lit "EvidraResolver") (lit "get_capabilities") (Resolver.get_capabilities)
      ∷ read_case (lit "EvidraResolver") (lit "get_capabilities_json")
          (Resolver.get_capabilities_json)
      ∷ []

  abbrev consumer_cases : List ReadCase
  consumer_cases =
      read_case (lit "EvidraConsumerProbe") (lit "get_trusted_registry")
        (ConsumerProbe.get_trusted_registry)
      ∷ read_case (lit "EvidraConsumerProbe") (lit "get_last_request_id")
          (ConsumerProbe.get_last_request_id)
      ∷ read_case (lit "EvidraConsumerProbe") (lit "get_last_fact_key")
          (ConsumerProbe.get_last_fact_key)
      ∷ read_case (lit "EvidraConsumerProbe") (lit "get_last_resolution_id")
          (ConsumerProbe.get_last_resolution_id)
      ∷ read_case (lit "EvidraConsumerProbe") (lit "get_last_outcome")
          (ConsumerProbe.get_last_outcome)
      ∷ read_case (lit "EvidraConsumerProbe") (lit "get_last_resolved_at")
          (ConsumerProbe.get_last_resolved_at)
      ∷ read_case (lit "EvidraConsumerProbe") (lit "get_last_valid_until")
          (ConsumerProbe.get_last_valid_until)
      ∷ read_case (lit "EvidraConsumerProbe") (lit "get_last_callback_id")
          (ConsumerProbe.get_last_callback_id)
      ∷ read_case (lit "EvidraConsumerProbe") (lit "get_callback_count")
          (ConsumerProbe.get_callback_count)
      ∷ read_case (lit "EvidraConsumerProbe") (lit "get_duplicate_ignored_count")
          (ConsumerProbe.get_duplicate_ignored_count)
      ∷ read_case (lit "EvidraConsumerProbe") (lit "has_processed_callback")
          (ConsumerProbe.has_processed_callback zero_callback)
      ∷ []

  -- `calls`
  abbrev pub cases : List ReadCase
  cases = policy_cases ++ (registry_cases ++ (resolver_cases ++ consumer_cases))

-- A result: `error` is that of a FAIL.
pub record CaseResult : Type 0 where
  pub contract : Text
  pub method : Text
  pub error : Option Text

abbrev pub shortened : Option Text → Option Text
shortened none = none
shortened (some e) = some (take 300 e)

abbrev pub result_of : (Call → Result Text Json) → ReadCase → CaseResult
result_of raw_read c = record {
  contract = c.contract;
  method = c.method;
  error = shortened (c.run raw_read);
}

abbrev pub is_failure : CaseResult → Bool
is_failure r = elim r.error [ none ↦ false | some e ↦ true ]

pub record Report : Type 0 where
  pub read_mode : ReadMode
  pub total : ℕ
  pub passed : ℕ
  pub failed : ℕ
  pub results : List CaseResult
  pub exit_code : ℕ

abbrev pub exit_code_of : (failures : ℕ) → ℕ
exit_code_of failures = if failures == 0 then 0 else 1

abbrev pub report : ReadMode → List CaseResult → Report
report mode results =
    let failures = keep_if is_failure results in
    record {
      read_mode = mode;
      total = length results;
      passed = length results - length failures;
      failed = length failures;
      results = results;
      exit_code = exit_code_of (length failures);
    }

-- The run: nothing is read when the deployment does not verify.
unfoldable pub certify :
    (Text → Option Json) → Result Text Deployment → (Call → Result Text Json) → Result Text Report
certify parse verification raw_read = do
  d ← verification
  ok (report d.read_mode (map (result_of raw_read) (cases parse)))
