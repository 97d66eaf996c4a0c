-- ===== src/Protocol/Client.antt =====
-- packages/protocol/src/client.ts: the checks of the deployment over the answers of its reads. The
-- transport and the scheduler give each read its answer; the error of a read is its detail.
pub mod Decode
pub mod Calls
pub mod InFlight
pub mod Queries
pub mod Verified
pub mod RoundTrip
mod Tests
use evidra_protocol.Base.{
  ℕ, Bool, true, false, ◌||◌, List, [], ◌∷◌, Text, lit, Result, ok, err, ◌>>=◌, ◌>>◌, ensure, same,
  to_lower, includes, ◌==◌, if◌then◌else◌,
}
use evidra_protocol.Protocol.Types.{ProtocolConfig}
use evidra_protocol.Protocol.Values.{Value, string, Record}
use evidra_protocol.Protocol.Constants.{
  frozen_chain_id, ContractName, policy_registry, registry, resolver, consumer_probe,
  contract_address, normalize_address, assert_address,
}
use Decode.{normalize_config}

-- `ReadMode`
pub data ReadMode : Type 0 where
  latest_final latest_nonfinal : ReadMode

-- What the reads of one verification answer. `registry_version_final` is the read of `probeReadMode`,
-- and the others are made in the mode that it finds.
pub record Reads : Type 0 where
  pub chain_id : Result Text ℕ
  pub registry_version_final : Result Text Value
  pub protocol_config : ReadMode → Result Text Record
  pub resolver_registry : ReadMode → Result Text Value
  pub trusted_registry : ReadMode → Result Text Value

-- `verifyDeployment` returns
pub record Deployment : Type 0 where
  pub chain_id : ℕ
  pub read_mode : ReadMode
  pub config : ProtocolConfig

-- `assertNetwork`
unfoldable pub assert_network : Reads → Result Text ℕ
assert_network r = do
  chain_id ← r.chain_id
  ensure (chain_id == frozen_chain_id) (lit "Wrong GenLayer chain")
  ok chain_id

abbrev is_unsupported : Text → Bool
is_unsupported detail =
    includes detail (lit "unsupported")
    || includes detail (lit "unknown transaction hash variant")
    || includes detail (lit "invalid transaction hash variant")

-- `probeReadMode`
abbrev mode_of : Result Text Value → Result Text ReadMode
mode_of (ok v) = ok latest_final
mode_of (err e) = if is_unsupported (to_lower e) then ok latest_nonfinal else err e

unfoldable pub probe_read_mode : Reads → Result Text ReadMode
probe_read_mode r = mode_of r.registry_version_final

-- normalizeAddress(value) !== normalizeAddress(address) throws.
unfoldable pub matches : Text → ContractName → Text → Result Text (Unit {0})
matches value name message = do
  found ← normalize_address (string value)
  frozen ← normalize_address (string (contract_address name))
  ensure (same found frozen) message

-- `assertFrozenDeployment` of the addresses themselves
unfoldable pub assert_frozen_deployment : (ContractName → Text) → Result Text (Unit {0})
assert_frozen_deployment addresses = do
  matches (addresses policy_registry) policy_registry
      (lit "Frozen address mismatch for policyRegistry")
  matches (addresses registry) registry (lit "Frozen address mismatch for registry")
  matches (addresses resolver) resolver (lit "Frozen address mismatch for resolver")
  matches (addresses consumer_probe) consumer_probe
      (lit "Frozen address mismatch for consumerProbe")

-- `verifyDeployment`
unfoldable pub verify_deployment : Reads → Result Text Deployment
verify_deployment r = do
  chain_id ← assert_network r
  read_mode ← probe_read_mode r
  raw ← r.protocol_config read_mode
  config ← normalize_config raw
  assert_frozen_deployment contract_address
  matches config.policy_registry policy_registry (lit "Registry policy registry mismatch")
  matches config.default_resolver resolver (lit "Registry default resolver mismatch")
  raw_registry ← r.resolver_registry read_mode
  resolver_registry ← assert_address raw_registry (lit "resolver.registry")
  matches resolver_registry registry (lit "Resolver registry mismatch")
  raw_trusted ← r.trusted_registry read_mode
  trusted ← assert_address raw_trusted (lit "trusted_registry")
  matches trusted registry (lit "Consumer trusted registry mismatch")
  ok (record { chain_id = chain_id; read_mode = read_mode; config = config })
