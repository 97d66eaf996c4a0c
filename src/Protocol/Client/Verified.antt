-- ===== src/Protocol/Client/Verified.antt =====
-- What `verifyDeployment` of packages/protocol/src/client.ts has checked when it returns.
use evidra_protocol.Base.{
  ℕ, ◌≡◌, sym, ◌∙◌, ap, subst, Text, lit, ok, ensure, bind_ok, then_ok, ensure_ok, same, same→eq,
  ==→eq, ◌==◌,
}
use evidra_protocol.Protocol.Values.{Value, string, Record}
use evidra_protocol.Protocol.Constants.{
  frozen_chain_id, ContractName, policy_registry, registry, resolver, contract_address,
  normalize_address, assert_address,
}
use evidra_protocol.Protocol.Client.Decode.{normalize_config}
use evidra_protocol.Protocol.Client.{
  Reads, Deployment, assert_network, probe_read_mode, matches, assert_frozen_deployment,
  verify_deployment,
}

-- The text is the frozen address of this contract, but for case and the white space around it.
abbrev pub IsAt : ContractName → Text → Type 0
IsAt name s =
    (a : Text) × (normalize_address (string s) ≡ ok a)
    × (normalize_address (string (contract_address name)) ≡ ok a)

-- The answers of the reads that the deployment rests on.
pub record IsVerified (r : Reads) (d : Deployment) : Type 0 where
  pub network : r.chain_id ≡ ok frozen_chain_id
  pub chain : d.chain_id ≡ frozen_chain_id
  pub raw_config : Record
  pub config_read : r.protocol_config d.read_mode ≡ ok raw_config
  pub decoded : normalize_config raw_config ≡ ok d.config
  pub policies : IsAt policy_registry d.config.policy_registry
  pub resolves : IsAt resolver d.config.default_resolver
  pub raw_registry : Value
  pub resolver_registry : Text
  pub registry_read : r.resolver_registry d.read_mode ≡ ok raw_registry
  pub registry_address :
      assert_address raw_registry (lit "resolver.registry") ≡ ok resolver_registry
  pub registers : IsAt registry resolver_registry
  pub raw_trusted : Value
  pub trusted_registry : Text
  pub trusted_read : r.trusted_registry d.read_mode ≡ ok raw_trusted
  pub trusted_address : assert_address raw_trusted (lit "trusted_registry") ≡ ok trusted_registry
  pub trusts : IsAt registry trusted_registry

matches-IsAt : (s : Text) (name : ContractName) (m : Text) → matches s name m ≡ ok tt → IsAt name s
unfolding matches
matches-IsAt s name m h =
    let (found, f, h1) = bind_ok (normalize_address (string s)) _ tt h in
    let (frozen, g, h2) = bind_ok (normalize_address (string (contract_address name))) _ tt h1 in
    let e : found ≡ frozen = same→eq found frozen (ensure_ok (same found frozen) m h2) in
    (found, f, g ∙ ap ok (sym e))

assert_network_lem :
    (r : Reads) (n : ℕ)
    → assert_network r ≡ ok n
    → (r.chain_id ≡ ok frozen_chain_id) × (n ≡ frozen_chain_id)
unfolding assert_network
assert_network_lem r n h =
    let (id, f, h1) = bind_ok r.chain_id _ n h in
    let (g, h2) = then_ok (ensure (id == frozen_chain_id) _) _ n h1 in
    let e : id ≡ frozen_chain_id =
      ==→eq id frozen_chain_id (ensure_ok (id == frozen_chain_id) _ g) in
    let k : id ≡ n = cc in (f ∙ ap ok e, sym k ∙ e)

-- A verification that returns has found the frozen chain, and every address that the contracts name
-- for each other (the registry's policy registry and default resolver, the resolver's registry and the
-- consumer's trusted registry) is the frozen one.
pub verify_deployment-IsVerified :
    (r : Reads) (d : Deployment) → verify_deployment r ≡ ok d → IsVerified r d
unfolding verify_deployment
verify_deployment-IsVerified r d h =
    let (id, f0, h0) = bind_ok (assert_network r) _ d h in
    let (mode, f1, h1) = bind_ok (probe_read_mode r) _ d h0 in
    let (raw, f2, h2) = bind_ok (r.protocol_config mode) _ d h1 in
    let (config, f3, h3) = bind_ok (normalize_config raw) _ d h2 in
    let (f4, h4) = then_ok (assert_frozen_deployment contract_address) _ d h3 in
    let (f5, h5) = then_ok (matches config.policy_registry policy_registry _) _ d h4 in
    let (f6, h6) = then_ok (matches config.default_resolver resolver _) _ d h5 in
    let (raw_a, f7, h7) = bind_ok (r.resolver_registry mode) _ d h6 in
    let (a, f8, h8) = bind_ok (assert_address raw_a _) _ d h7 in
    let (f9, h9) = then_ok (matches a registry _) _ d h8 in
    let (raw_b, f10, h10) = bind_ok (r.trusted_registry mode) _ d h9 in
    let (b, f11, h11) = bind_ok (assert_address raw_b _) _ d h10 in
    let (f12, h12) = then_ok (matches b registry _) _ d h11 in
    let found : Deployment = record { chain_id = id; read_mode = mode; config = config } in
    let is_found : found ≡ d = cc in
    let (n, e) = assert_network_lem r id f0 in
    subst (λ (x : Deployment). IsVerified r x) is_found
      (record {
        network = n;
        chain = e;
        raw_config = raw;
        config_read = f2;
        decoded = f3;
        policies = matches-IsAt _ _ _ f5;
        resolves = matches-IsAt _ _ _ f6;
        raw_registry = raw_a;
        resolver_registry = a;
        registry_read = f7;
        registry_address = f8;
        registers = matches-IsAt _ _ _ f9;
        raw_trusted = raw_b;
        trusted_registry = b;
        trusted_read = f10;
        trusted_address = f11;
        trusts = matches-IsAt _ _ _ f12;
      })
