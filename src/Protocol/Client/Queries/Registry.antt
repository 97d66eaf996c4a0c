-- ===== src/Protocol/Client/Queries/Registry.antt =====
-- `RegistryClient` of packages/protocol/src/client.ts.
use evidra_protocol.Base.{ℕ, Bool, Option, [], ◌∷◌, Text, lit, ok, ◌>>=◌}
use evidra_protocol.Protocol.Types.{
  EventPage, ResolverInfo, RequestRecord, ResolutionRecord, FactRecord, ProtocolConfig,
  ProtocolStats, EvidenceManifest,
}
use evidra_protocol.Protocol.Values.{string}
use evidra_protocol.Protocol.Constants.{registry, assert_address}
use evidra_protocol.Protocol.Json.{Json}
use evidra_protocol.Protocol.Json.Pages.{
  natural, bounded_page, normalize_event_page, normalize_history_page, normalize_evidence_manifest,
  HistoryPage,
}
use evidra_protocol.Protocol.Client.Calls.{text_arg, number_arg, bigint_arg}
use evidra_protocol.Protocol.Client.Decode.{
  normalize_resolver, normalize_request, normalize_resolution, normalize_fact, normalize_config,
  normalize_stats,
}
use evidra_protocol.Protocol.Client.Queries.{
  Query, query, read, input_text, input_optional, input_fact_key, text_of, flag_of, integer_of,
  address_of, decoded,
}

abbrev pub get_request : (request_id : ℕ) → Query RequestRecord
get_request request_id =
    query (ok (read registry (lit "get_request") (bigint_arg request_id ∷ [])))
      (decoded (lit "get_request") normalize_request)

abbrev pub get_request_status : (request_id : ℕ) → Query Text
get_request_status request_id =
    query (ok (read registry (lit "get_request_status") (bigint_arg request_id ∷ []))) text_of

abbrev pub get_fact : (fact_key : Text) → Query FactRecord
get_fact fact_key =
    query
      (do
        fact_key ← input_fact_key fact_key
        ok (read registry (lit "get_fact") (text_arg fact_key ∷ [])))
      (decoded (lit "get_fact") normalize_fact)

abbrev pub get_current_resolution : (fact_key : Text) → Query ResolutionRecord
get_current_resolution fact_key =
    query
      (do
        fact_key ← input_fact_key fact_key
        ok (read registry (lit "get_current_resolution") (text_arg fact_key ∷ [])))
      (decoded (lit "get_resolution") normalize_resolution)

abbrev pub get_latest_resolution : (fact_key : Text) → Query ResolutionRecord
get_latest_resolution fact_key =
    query
      (do
        fact_key ← input_fact_key fact_key
        ok (read registry (lit "get_latest_resolution") (text_arg fact_key ∷ [])))
      (decoded (lit "get_resolution") normalize_resolution)

abbrev pub get_resolution : (resolution_id : ℕ) → Query ResolutionRecord
get_resolution resolution_id =
    query (ok (read registry (lit "get_resolution") (bigint_arg resolution_id ∷ [])))
      (decoded (lit "get_resolution") normalize_resolution)

abbrev pub get_resolution_history :
    (Text → Option Json) → (fact_key : Text) → (offset : ℕ) → (limit : ℕ) → Query HistoryPage
get_resolution_history parse fact_key offset limit =
    query
      (do
        page ← bounded_page (natural offset) (natural limit)
        fact_key ← input_fact_key fact_key
        ok (
            read registry (lit "get_resolution_history")
              (text_arg fact_key ∷ number_arg page.0 ∷ number_arg page.1 ∷ [])))
      (decoded (lit "get_resolution_history") (normalize_history_page parse))

abbrev pub get_evidence_manifest :
    (Text → Option Json) → (resolution_id : ℕ) → Query EvidenceManifest
get_evidence_manifest parse resolution_id =
    query (ok (read registry (lit "get_evidence_manifest") (bigint_arg resolution_id ∷ [])))
      (decoded (lit "get_evidence_manifest") (normalize_evidence_manifest parse))

abbrev pub compute_claim_key :
    (subject : Text)
    → (predicate : Text) → (object_value : Text) → (qualifiers : Text) → (temporal : Text)
    → (mutability : Text) → Query Text
compute_claim_key subject predicate object_value qualifiers temporal mutability =
    query
      (ok (
        read registry (lit "compute_claim_key") (
          text_arg subject
          ∷ text_arg predicate
          ∷ text_arg object_value
          ∷ text_arg qualifiers
          ∷ text_arg temporal
          ∷ text_arg mutability
          ∷ [])))
      text_of

abbrev pub compute_fact_key :
    (claim_key : Text)
    → (policy_hash : Text) → (schema_version : Text) → (template_hash : Text) → Query Text
compute_fact_key claim_key policy_hash schema_version template_hash =
    query
      (do
        claim_key ← input_text claim_key (lit "claimKey") 128
        policy_hash ← input_text policy_hash (lit "policyHash") 128
        schema_version ← input_text schema_version (lit "schemaVersion") 64
        template_hash ← input_optional template_hash (lit "templateHash") 128
        ok (
            read registry (lit "compute_fact_key") (
              text_arg claim_key
              ∷ text_arg policy_hash
              ∷ text_arg schema_version
              ∷ text_arg template_hash
              ∷ [])))
      text_of

abbrev pub compute_spec_hash :
    (subject : Text)
    → (predicate : Text) → (object_value : Text) → (qualifiers : Text) → (temporal : Text)
    → (mutability : Text) → (schema_version : Text) → (ttl_seconds : ℕ) → (description : Text)
    → (seed_urls_json : Text) → Query Text
compute_spec_hash subject predicate object_value qualifiers temporal mutability schema_version
      ttl_seconds description seed_urls_json =
    query
      (ok (
        read registry (lit "compute_spec_hash") (
          text_arg subject
          ∷ text_arg predicate
          ∷ text_arg object_value
          ∷ text_arg qualifiers
          ∷ text_arg temporal
          ∷ text_arg mutability
          ∷ text_arg schema_version
          ∷ bigint_arg ttl_seconds
          ∷ text_arg description
          ∷ text_arg seed_urls_json
          ∷ [])))
      text_of

abbrev pub is_fact_fresh : (fact_key : Text) → Query Bool
is_fact_fresh fact_key =
    query
      (do
        fact_key ← input_fact_key fact_key
        ok (read registry (lit "is_fact_fresh") (text_arg fact_key ∷ [])))
      flag_of

abbrev pub can_reuse_fact : (fact_key : Text) → Query Bool
can_reuse_fact fact_key =
    query
      (do
        fact_key ← input_fact_key fact_key
        ok (read registry (lit "can_reuse_fact") (text_arg fact_key ∷ [])))
      flag_of

abbrev pub can_reuse_with_freshness : (fact_key : Text) → (requested_ttl : ℕ) → Query Bool
can_reuse_with_freshness fact_key requested_ttl =
    query
      (do
        fact_key ← input_fact_key fact_key
        ok (
            read registry (lit "can_reuse_with_freshness")
              (text_arg fact_key ∷ bigint_arg requested_ttl ∷ [])))
      flag_of

abbrev pub compute_callback_id :
    (request_id : ℕ) → (resolution_id : ℕ) → (consumer : Text) → Query Text
compute_callback_id request_id resolution_id consumer =
    query
      (do
        consumer ← assert_address (string consumer) (lit "consumer")
        ok (
            read registry (lit "compute_callback_id")
              (bigint_arg request_id ∷ bigint_arg resolution_id ∷ text_arg consumer ∷ [])))
      text_of

abbrev pub quote_resolution_fee : (reuse_mode : Text) → Query ℕ
quote_resolution_fee reuse_mode =
    query
      (do
        reuse_mode ← input_text reuse_mode (lit "reuseMode") 64
        ok (read registry (lit "quote_resolution_fee") (text_arg reuse_mode ∷ [])))
      (integer_of (lit "resolution_fee"))

abbrev pub get_protocol_config : Query ProtocolConfig
get_protocol_config =
    query (ok (read registry (lit "get_protocol_config") ([])))
      (decoded (lit "get_protocol_config") normalize_config)

abbrev pub get_resolver : (address : Text) → Query ResolverInfo
get_resolver address =
    query
      (do
        address ← assert_address (string address) (lit "resolver")
        ok (read registry (lit "get_resolver") (text_arg address ∷ [])))
      (decoded (lit "get_resolver") normalize_resolver)

abbrev pub get_protocol_stats : Query ProtocolStats
get_protocol_stats =
    query (ok (read registry (lit "get_protocol_stats") ([])))
      (decoded (lit "get_protocol_stats") normalize_stats)

abbrev pub get_credit : (account : Text) → Query ℕ
get_credit account =
    query
      (do
        account ← assert_address (string account) (lit "account")
        ok (read registry (lit "get_credit") (text_arg account ∷ [])))
      (integer_of (lit "credit"))

abbrev pub get_job_snapshot : (request_id : ℕ) → Query Text
get_job_snapshot request_id =
    query (ok (read registry (lit "get_job_snapshot") (bigint_arg request_id ∷ []))) text_of

abbrev pub get_owner : Query Text
get_owner = query (ok (read registry (lit "get_owner") ([]))) (address_of (lit "registry.owner"))

abbrev pub get_guardian : Query Text
get_guardian =
    query (ok (read registry (lit "get_guardian") ([]))) (address_of (lit "registry.guardian"))

abbrev pub is_paused : Query Bool
is_paused = query (ok (read registry (lit "is_paused") ([]))) flag_of

abbrev pub get_policy_registry : Query Text
get_policy_registry =
    query (ok (read registry (lit "get_policy_registry") ([]))) (address_of (lit "policy_registry"))

abbrev pub get_default_resolver : Query Text
get_default_resolver =
    query (ok (read registry (lit "get_default_resolver") ([])))
      (address_of (lit "default_resolver"))

abbrev pub get_registry_version : Query Text
get_registry_version = query (ok (read registry (lit "get_registry_version") ([]))) text_of

abbrev pub get_event_count : Query ℕ
get_event_count =
    query (ok (read registry (lit "get_event_count") ([])))
      (integer_of (lit "registry.event_count"))

abbrev pub get_events : (Text → Option Json) → (offset : ℕ) → (limit : ℕ) → Query EventPage
get_events parse offset limit =
    query
      (do
        page ← bounded_page (natural offset) (natural limit)
        ok (read registry (lit "get_events") (number_arg page.0 ∷ number_arg page.1 ∷ [])))
      (decoded (lit "get_events") (normalize_event_page parse))

abbrev pub validate_seed_url : (url : Text) → Query Bool
validate_seed_url url =
    query
      (do
        url ← input_text url (lit "url") 2048
        ok (read registry (lit "validate_seed_url") (text_arg url ∷ [])))
      flag_of
