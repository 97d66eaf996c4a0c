-- ===== src/Protocol/Client/RoundTrip.antt =====
-- The decoders of packages/protocol/src/client.ts on the values of a record.
use evidra_protocol.Base.{ℕ, ◌≤◌, ◌≡◌, refl, [], ◌∷◌, Text, lit, ok, arith}
use evidra_protocol.Protocol.Types.{FactRecord, ResolutionRecord, SourcePolicyRecord}
use evidra_protocol.Protocol.Values.{
  Record, integer, boolean, string, to_number, to_big_int, max_safe_integer,
}
use evidra_protocol.Protocol.Client.Decode.{normalize_fact, normalize_resolution, normalize_policy}

pub to_number-integer :
    (n : ℕ) (s field : Text) → n ≤ max_safe_integer → to_number (integer n s) field ≡ ok n
unfolding to_number to_big_int
to_number-integer n s field h = ground (arith, h)

-- The fields of a record as a contract returns them, integers with their `String`.
abbrev pub fact_fields : (ℕ → Text) → FactRecord → Record
fact_fields shown r =
    (lit "exists", boolean r.exists)
    ∷ (lit "fact_key", string r.fact_key)
    ∷ (lit "claim_key", string r.claim_key)
    ∷ (lit "policy_hash", string r.policy_hash)
    ∷ (lit "schema_version", string r.schema_version)
    ∷ (lit "mutability", string r.mutability)
    ∷ (lit "current_resolution_id", integer r.current_resolution_id (shown r.current_resolution_id))
    ∷ (lit "latest_resolution_id", integer r.latest_resolution_id (shown r.latest_resolution_id))
    ∷ (lit "current_request_id", integer r.current_request_id (shown r.current_request_id))
    ∷ (lit "current_outcome", string r.current_outcome)
    ∷ (lit "resolved_at", integer r.resolved_at (shown r.resolved_at))
    ∷ (lit "valid_until", integer r.valid_until (shown r.valid_until))
    ∷ (lit "resolution_version", integer r.resolution_version (shown r.resolution_version))
    ∷ (lit "template_hash", string r.template_hash)
    ∷ []

-- The fields of a record as a contract returns them, integers with their `String`.
abbrev pub resolution_fields : (ℕ → Text) → ResolutionRecord → Record
resolution_fields shown r =
    (lit "exists", boolean r.exists)
    ∷ (lit "resolution_id", integer r.resolution_id (shown r.resolution_id))
    ∷ (lit "request_id", integer r.request_id (shown r.request_id))
    ∷ (lit "attempt_id", integer r.attempt_id (shown r.attempt_id))
    ∷ (lit "claim_key", string r.claim_key)
    ∷ (lit "fact_key", string r.fact_key)
    ∷ (lit "spec_hash", string r.spec_hash)
    ∷ (lit "policy_hash", string r.policy_hash)
    ∷ (lit "outcome", string r.outcome)
    ∷ (lit "diagnostic_reason", string r.diagnostic_reason)
    ∷ (lit "policy_satisfied", boolean r.policy_satisfied)
    ∷ (lit "resolver_version", string r.resolver_version)
    ∷ (lit "evidence_manifest_hash", string r.evidence_manifest_hash)
    ∷ (lit "reasoning_summary", string r.reasoning_summary)
    ∷ (lit "evaluated_at", integer r.evaluated_at (shown r.evaluated_at))
    ∷ (lit "committed_at", integer r.committed_at (shown r.committed_at))
    ∷ (lit "valid_until", integer r.valid_until (shown r.valid_until))
    ∷ (lit "resolution_version", integer r.resolution_version (shown r.resolution_version))
    ∷ (
      lit "supersedes_resolution_id",
      integer r.supersedes_resolution_id (shown r.supersedes_resolution_id),
    )
    ∷ (lit "template_id", string r.template_id)
    ∷ (lit "template_version", integer r.template_version (shown r.template_version))
    ∷ (lit "template_hash", string r.template_hash)
    ∷ []

-- The fields of a record as a contract returns them, integers with their `String`.
abbrev pub policy_fields : (ℕ → Text) → SourcePolicyRecord → Record
policy_fields shown r =
    (lit "exists", boolean r.exists)
    ∷ (lit "policy_id", string r.policy_id)
    ∷ (lit "version", integer r.version (shown r.version))
    ∷ (lit "name", string r.name)
    ∷ (lit "active", boolean r.active)
    ∷ (lit "min_primary_sources", integer r.min_primary_sources (shown r.min_primary_sources))
    ∷ (
      lit "min_independent_sources",
      integer r.min_independent_sources (shown r.min_independent_sources),
    )
    ∷ (lit "allowed_classes", string r.allowed_classes)
    ∷ (lit "disallowed_classes", string r.disallowed_classes)
    ∷ (lit "require_cross_check", boolean r.require_cross_check)
    ∷ (lit "semantic_rules", string r.semantic_rules)
    ∷ (lit "policy_hash", string r.policy_hash)
    ∷ (lit "published_at", integer r.published_at (shown r.published_at))
    ∷ (lit "deprecated", boolean r.deprecated)
    ∷ []

-- A fact, a resolution and a policy are read back from the fields that a contract returns for them.
-- Conditions: the numbers that the client keeps as JavaScript numbers are safe integers.
pub normalize_fact-fact_fields :
    (shown : ℕ → Text) (f : FactRecord) (r : ResolutionRecord) (p : SourcePolicyRecord)
    → f.resolution_version ≤ max_safe_integer
    → r.resolution_version ≤ max_safe_integer
    → r.template_version ≤ max_safe_integer
    → p.version ≤ max_safe_integer
    → p.min_primary_sources ≤ max_safe_integer
    → p.min_independent_sources ≤ max_safe_integer
    → (normalize_fact (fact_fields shown f) ≡ ok f)
      × (normalize_resolution (resolution_fields shown r) ≡ ok r)
      × (normalize_policy (policy_fields shown p) ≡ ok p)
unfolding normalize_fact normalize_resolution normalize_policy to_big_int
normalize_fact-fact_fields shown f r p a b c d e g = (
  rw
      (to_number-integer f.resolution_version (shown f.resolution_version)
        (lit "fact.resolution_version") a)
      refl,
  rw
      (
        to_number-integer r.resolution_version (shown r.resolution_version)
            (lit "resolution.resolution_version") b,
        to_number-integer r.template_version (shown r.template_version)
            (lit "resolution.template_version") c,
      )
      refl,
  rw
      (
        to_number-integer p.version (shown p.version) (lit "policy.version") d,
        to_number-integer p.min_primary_sources (shown p.min_primary_sources)
            (lit "policy.min_primary_sources") e,
        to_number-integer p.min_independent_sources (shown p.min_independent_sources)
            (lit "policy.min_independent_sources") g,
      )
      refl,
)
