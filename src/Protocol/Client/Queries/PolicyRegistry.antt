-- ===== src/Protocol/Client/Queries/PolicyRegistry.antt =====
-- `PolicyRegistryClient` of packages/protocol/src/client.ts.
use evidra_protocol.Base.{ℕ, Bool, Option, [], ◌∷◌, Text, lit, ok, ◌>>=◌}
use evidra_protocol.Protocol.Types.{SourcePolicyRecord, TemplateRecord, EventPage}
use evidra_protocol.Protocol.Constants.{policy_registry}
use evidra_protocol.Protocol.Json.{Json}
use evidra_protocol.Protocol.Json.Pages.{natural, bounded_page, normalize_event_page}
use evidra_protocol.Protocol.Client.Calls.{text_arg, number_arg, boolean_arg}
use evidra_protocol.Protocol.Client.Decode.{normalize_policy, normalize_template}
use evidra_protocol.Protocol.Client.Queries.{
  Query, OwnershipView, query, read, input_text, input_version, normalize_ownership, text_of,
  flag_of, number_of, integer_of, address_of, decoded,
}

abbrev pub get_source_policy : (policy_id : Text) → (version : ℕ) → Query SourcePolicyRecord
get_source_policy policy_id version =
    query
      (do
        policy_id ← input_text policy_id (lit "policyId") 64
        version ← input_version version (lit "version")
        ok (
            read policy_registry (lit "get_source_policy")
              (text_arg policy_id ∷ number_arg version ∷ [])))
      (decoded (lit "get_source_policy") normalize_policy)

abbrev pub get_latest_source_policy : (policy_id : Text) → Query SourcePolicyRecord
get_latest_source_policy policy_id =
    query
      (do
        policy_id ← input_text policy_id (lit "policyId") 64
        ok (read policy_registry (lit "get_latest_source_policy") (text_arg policy_id ∷ [])))
      (decoded (lit "get_source_policy") normalize_policy)

abbrev pub is_source_policy_active : (policy_id : Text) → (version : ℕ) → Query Bool
is_source_policy_active policy_id version =
    query
      (do
        policy_id ← input_text policy_id (lit "policyId") 64
        version ← input_version version (lit "version")
        ok (
            read policy_registry (lit "is_source_policy_active")
              (text_arg policy_id ∷ number_arg version ∷ [])))
      flag_of

abbrev pub get_policy_hash : (policy_id : Text) → (version : ℕ) → Query Text
get_policy_hash policy_id version =
    query
      (do
        policy_id ← input_text policy_id (lit "policyId") 64
        version ← input_version version (lit "version")
        ok (
            read policy_registry (lit "get_policy_hash")
              (text_arg policy_id ∷ number_arg version ∷ [])))
      text_of

abbrev pub get_template : (template_id : Text) → (version : ℕ) → Query TemplateRecord
get_template template_id version =
    query
      (do
        template_id ← input_text template_id (lit "templateId") 64
        version ← input_version version (lit "version")
        ok (
            read policy_registry (lit "get_template")
              (text_arg template_id ∷ number_arg version ∷ [])))
      (decoded (lit "get_template") normalize_template)

abbrev pub get_latest_template : (template_id : Text) → Query TemplateRecord
get_latest_template template_id =
    query
      (do
        template_id ← input_text template_id (lit "templateId") 64
        ok (read policy_registry (lit "get_latest_template") (text_arg template_id ∷ [])))
      (decoded (lit "get_template") normalize_template)

abbrev pub is_template_active : (template_id : Text) → (version : ℕ) → Query Bool
is_template_active template_id version =
    query
      (do
        template_id ← input_text template_id (lit "templateId") 64
        version ← input_version version (lit "version")
        ok (
            read policy_registry (lit "is_template_active")
              (text_arg template_id ∷ number_arg version ∷ [])))
      flag_of

abbrev pub get_template_hash : (template_id : Text) → (version : ℕ) → Query Text
get_template_hash template_id version =
    query
      (do
        template_id ← input_text template_id (lit "templateId") 64
        version ← input_version version (lit "version")
        ok (
            read policy_registry (lit "get_template_hash")
              (text_arg template_id ∷ number_arg version ∷ [])))
      text_of

abbrev pub get_latest_policy_version : (policy_id : Text) → Query ℕ
get_latest_policy_version policy_id =
    query
      (do
        policy_id ← input_text policy_id (lit "policyId") 64
        ok (read policy_registry (lit "get_latest_policy_version") (text_arg policy_id ∷ [])))
      (number_of (lit "latest_policy_version"))

abbrev pub get_latest_template_version : (template_id : Text) → Query ℕ
get_latest_template_version template_id =
    query
      (do
        template_id ← input_text template_id (lit "templateId") 64
        ok (read policy_registry (lit "get_latest_template_version") (text_arg template_id ∷ [])))
      (number_of (lit "latest_template_version"))

abbrev pub get_ownership : Query OwnershipView
get_ownership =
    query (ok (read policy_registry (lit "get_ownership") ([])))
      (decoded (lit "get_ownership") normalize_ownership)

abbrev pub get_owner : Query Text
get_owner =
    query (ok (read policy_registry (lit "get_owner") ([]))) (address_of (lit "policy.owner"))

abbrev pub get_pending_owner : Query Text
get_pending_owner =
    query (ok (read policy_registry (lit "get_pending_owner") ([])))
      (address_of (lit "policy.pending_owner"))

abbrev pub get_protocol_stats : Query Text
get_protocol_stats = query (ok (read policy_registry (lit "get_protocol_stats") ([]))) text_of

abbrev pub get_event_count : Query ℕ
get_event_count =
    query (ok (read policy_registry (lit "get_event_count") ([])))
      (integer_of (lit "policy.event_count"))

abbrev pub get_events : (Text → Option Json) → (offset : ℕ) → (limit : ℕ) → Query EventPage
get_events parse offset limit =
    query
      (do
        page ← bounded_page (natural offset) (natural limit)
        ok (read policy_registry (lit "get_events") (number_arg page.0 ∷ number_arg page.1 ∷ [])))
      (decoded (lit "get_events") (normalize_event_page parse))

abbrev pub compute_policy_hash :
    (policy_id : Text)
    → (version : ℕ) → (name : Text) → (min_primary : ℕ) → (min_independent : ℕ) → (allowed : Text)
    → (disallowed : Text) → (require_cross_check : Bool) → (rules : Text) → Query Text
compute_policy_hash policy_id version name min_primary min_independent allowed disallowed
      require_cross_check rules =
    query
      (do
        policy_id ← input_text policy_id (lit "policyId") 64
        version ← input_version version (lit "version")
        ok (
            read policy_registry (lit "compute_policy_hash") (
              text_arg policy_id
              ∷ number_arg version
              ∷ text_arg name
              ∷ number_arg min_primary
              ∷ number_arg min_independent
              ∷ text_arg allowed
              ∷ text_arg disallowed
              ∷ boolean_arg require_cross_check
              ∷ text_arg rules
              ∷ [])))
      text_of

abbrev pub compute_template_hash :
    (template_id : Text)
    → (version : ℕ) → (name : Text) → (fact_type : Text) → (required_fields : Text)
    → (instructions : Text) → (default_policy_id : Text) → (default_policy_version : ℕ) → Query Text
compute_template_hash template_id version name fact_type required_fields instructions
      default_policy_id default_policy_version =
    query
      (do
        template_id ← input_text template_id (lit "templateId") 64
        version ← input_version version (lit "version")
        ok (
            read policy_registry (lit "compute_template_hash") (
              text_arg template_id
              ∷ number_arg version
              ∷ text_arg name
              ∷ text_arg fact_type
              ∷ text_arg required_fields
              ∷ text_arg instructions
              ∷ text_arg default_policy_id
              ∷ number_arg default_policy_version
              ∷ [])))
      text_of

abbrev pub get_registry_version : Query Text
get_registry_version = query (ok (read policy_registry (lit "get_registry_version") ([]))) text_of
