-- ===== src/Protocol/Client/Tests.antt =====
-- packages/protocol/src/client.ts on the frozen deployment.
use evidra_protocol.Base.{◌≡◌, refl, false, [], ◌∷◌, Text, lit, ok, arith, to_lower}
use evidra_protocol.Protocol.Types.{ProtocolConfig}
use evidra_protocol.Protocol.Values.{Record, integer, boolean, string, to_number, to_big_int, trim}
use evidra_protocol.Protocol.Constants.{
  policy_registry, registry, resolver, contract_address, is_address, address_text,
  normalize_address, assert_address,
}
use evidra_protocol.Protocol.Client.Decode.{
  normalize_config, normalize_fact, normalize_resolution, normalize_policy,
}
use evidra_protocol.Protocol.Client.Verified.{IsVerified, verify_deployment-IsVerified}
use evidra_protocol.Protocol.Client.RoundTrip.{
  fact_fields, resolution_fields, policy_fields, normalize_fact-fact_fields,
}
use evidra_protocol.Db.Data.{fact, resolution, policy}
use evidra_protocol.Protocol.Client.{
  Reads, Deployment, latest_final, verify_deployment, assert_network, probe_read_mode,
  assert_frozen_deployment, matches,
}

abbrev owner : Text
owner = lit "0x0000000000000000000000000000000000000001"

abbrev raw_config : Record
raw_config =
    (lit "owner", string owner)
    ∷ (lit "pending_owner", string owner)
    ∷ (lit "guardian", string owner)
    ∷ (lit "policy_registry", string (contract_address policy_registry))
    ∷ (lit "default_resolver", string (contract_address resolver))
    ∷ (lit "paused_new_requests", boolean false)
    ∷ (lit "fee_base", integer 5 (lit "5"))
    ∷ (lit "fee_per_attempt", integer 1 (lit "1"))
    ∷ (lit "fee_reuse", integer 0 (lit "0"))
    ∷ (lit "retry_delay_seconds", integer 60 (lit "60"))
    ∷ (lit "stale_after_seconds", integer 90 (lit "90"))
    ∷ (lit "max_attempts", integer 3 (lit "3"))
    ∷ (lit "max_seed_urls", integer 8 (lit "8"))
    ∷ (lit "schema_version", string (lit "1"))
    ∷ (lit "registry_version", string (lit "1"))
    ∷ []

abbrev reads : Reads
reads = record {
  chain_id = ok 61997;
  registry_version_final = ok (string (lit "1"));
  protocol_config = λ m. ok raw_config;
  resolver_registry = λ m. ok (string (contract_address registry));
  trusted_registry = λ m. ok (string (contract_address registry));
}

abbrev config : ProtocolConfig
config = record {
  owner = owner;
  pending_owner = owner;
  guardian = owner;
  policy_registry = contract_address policy_registry;
  default_resolver = contract_address resolver;
  paused_new_requests = false;
  fee_base = 5;
  fee_per_attempt = 1;
  fee_reuse = 0;
  retry_delay_seconds = 60;
  stale_after_seconds = 90;
  max_attempts = 3;
  max_seed_urls = 8;
  schema_version = lit "1";
  registry_version = lit "1";
}

abbrev deployment : Deployment
deployment = record { chain_id = 61997; read_mode = latest_final; config = config }

verify_deployment-IsVerified_example : IsVerified reads deployment
unfolding verify_deployment assert_network probe_read_mode assert_frozen_deployment matches
    normalize_config normalize_address assert_address is_address address_text trim to_number
    to_big_int to_lower
verify_deployment-IsVerified_example = verify_deployment-IsVerified reads deployment refl

normalize_fact-fact_fields_example :
    (normalize_fact (fact_fields (λ n. lit "0") fact) ≡ ok fact)
    × (normalize_resolution (resolution_fields (λ n. lit "0") resolution) ≡ ok resolution)
    × (normalize_policy (policy_fields (λ n. lit "0") policy) ≡ ok policy)
normalize_fact-fact_fields_example =
    normalize_fact-fact_fields (λ n. lit "0") fact resolution policy (omega arith) (omega arith)
      (omega arith) (omega arith) (omega arith) (omega arith)
