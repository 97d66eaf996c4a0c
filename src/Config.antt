-- ===== src/Config.antt =====
-- packages/config/src/config.ts, and what apps/api/src/server.ts hands on to the scheduler. A number of
-- the environment is natural or is refused; `is_url` stands for the check of zod's `url()`. The error
-- is the name of the variable that is refused, the first one in the order of the schema.
pub mod Handed
mod Tests
use evidra_protocol.Base.{
  ℕ, ◌+◌, Bool, true, false, not, ◌&&◌, Option, none, some, List, [], ◌∷◌, Text, lit, Result, ok,
  err, ◌>>=◌, ◌>>◌, ensure, same, one_of, to_lower, leb, ◌==◌, if◌then◌else◌, or_default,
}
use evidra_protocol.Protocol.Values.{string}
use evidra_protocol.Protocol.Constants.{
  ContractName, policy_registry, registry, resolver, consumer_probe, frozen_chain_id,
  assert_address,
}
use evidra_protocol.Protocol.Client.{assert_frozen_deployment}
use evidra_protocol.Protocol.Json.Pages.{PageInput, left_out, natural, no_natural}
use evidra_protocol.Protocol.Scheduler.Limits.{Options}
use evidra_protocol.Protocol.Scheduler.{Scheduler, restore_cooldown}
use evidra_protocol.Db.{SyncState}
use evidra_protocol.Web.Validation.{is_nil, parts_of}

-- `FROZEN_NETWORK.rpcUrl`
abbrev pub frozen_rpc_url : Text
frozen_rpc_url = lit "https://studio-dev.genlayer.com/api"

-- The variables that the schema reads.
pub record Env : Type 0 where
  pub node_env : Option Text
  pub port : PageInput
  pub database_url : Option Text
  pub genlayer_rpc_url : Option Text
  pub genlayer_chain_id : PageInput
  pub policy_registry_address : Option Text
  pub registry_address : Option Text
  pub resolver_address : Option Text
  pub consumer_probe_address : Option Text
  pub indexer_enabled : Option Text
  pub indexer_interval_ms : PageInput
  pub indexer_concurrency : PageInput
  pub indexer_max_retries : PageInput
  pub indexer_max_records : PageInput
  pub indexer_max_mutable_requests : PageInput
  pub indexer_config_refresh_ms : PageInput
  pub rpc_min_interval_ms : PageInput
  pub rpc_hard_quota_cooldown_ms : PageInput
  pub rpc_health_light_interval_ms : PageInput
  pub rpc_health_full_interval_ms : PageInput
  pub rpc_health_max_age_ms : PageInput
  pub rpc_contract_max_age_ms : PageInput
  pub log_level : Option Text
  pub public_app_url : Option Text
  pub cors_origins : Option Text

-- The numbers of the indexer and of the scheduler.
pub record Tuning : Type 0 where
  pub indexer_interval_ms : ℕ
  pub indexer_concurrency : ℕ
  pub indexer_max_retries : ℕ
  pub indexer_max_records : ℕ
  pub indexer_max_mutable_requests : ℕ
  pub indexer_config_refresh_ms : ℕ
  pub rpc_min_interval_ms : ℕ
  pub rpc_hard_quota_cooldown_ms : ℕ

-- `rpcHealth`
pub record HealthTimes : Type 0 where
  pub light_interval_ms : ℕ
  pub full_interval_ms : ℕ
  pub max_age_ms : ℕ
  pub contract_max_age_ms : ℕ

-- The variables of the service itself.
pub record Service : Type 0 where
  pub node_env : Text
  pub port : ℕ
  pub database_url : Text
  pub rpc_url : Text
  pub chain_id : ℕ
  pub raw_addresses : ContractName → Text

-- `AppConfig`
pub record AppConfig : Type 0 where
  pub service : Service
  pub addresses : ContractName → Text
  pub indexer_enabled : Bool
  pub tuning : Tuning
  pub health : HealthTimes
  pub log_level : Text
  pub public_app_url : Text
  pub cors_origins : List Text

-- `z.coerce.number().int().min(low).max(high).default(value)`
unfoldable pub number_between : (low high value : ℕ) → (name : Text) → PageInput → Result Text ℕ
number_between low high value name left_out = ok value
number_between low high value name (natural n) = if leb low n && leb n high then ok n else err name
number_between low high value name no_natural = err name

-- `intervalInt` and `nonNegativeInt`
unfoldable pub number_from : (low value : ℕ) → (name : Text) → PageInput → Result Text ℕ
number_from low value name left_out = ok value
number_from low value name (natural n) = if leb low n then ok n else err name
number_from low value name no_natural = err name

abbrev required : (name : Text) → Option Text → Result Text Text
required name none = err name
required name (some s) = ok s

abbrev enum_of : List Text → (value name : Text) → Option Text → Result Text Text
enum_of allowed value name o =
    if one_of allowed (or_default o value) then ok (or_default o value) else err name

abbrev chain_id_of : PageInput → Result Text ℕ
chain_id_of left_out = err (lit "GENLAYER_CHAIN_ID")
chain_id_of (natural n) = ok n
chain_id_of no_natural = err (lit "GENLAYER_CHAIN_ID")

abbrev pub addresses_of : (policies facts resolves consumes : Text) → ContractName → Text
addresses_of policies facts resolves consumes policy_registry = policies
addresses_of policies facts resolves consumes registry = facts
addresses_of policies facts resolves consumes resolver = resolves
addresses_of policies facts resolves consumes consumer_probe = consumes

unfoldable pub read_tuning : Env → Result Text Tuning
read_tuning env = do
  interval ← number_from 1000 300000 (lit "INDEXER_INTERVAL_MS") env.indexer_interval_ms
  concurrency ← number_between 1 2 1 (lit "INDEXER_CONCURRENCY") env.indexer_concurrency
  retries ← number_between 0 5 3 (lit "INDEXER_MAX_RETRIES") env.indexer_max_retries
  records ← number_between 1 1000000 100000 (lit "INDEXER_MAX_RECORDS") env.indexer_max_records
  mutable ←
      number_between 0 100 2 (lit "INDEXER_MAX_MUTABLE_REQUESTS") env.indexer_max_mutable_requests
  refresh ←
      number_from 1000 21600000 (lit "INDEXER_CONFIG_REFRESH_MS") env.indexer_config_refresh_ms
  spacing ← number_from 0 2400 (lit "RPC_MIN_INTERVAL_MS") env.rpc_min_interval_ms
  cooldown ←
      number_from 1000 3600000 (lit "RPC_HARD_QUOTA_COOLDOWN_MS") env.rpc_hard_quota_cooldown_ms
  ok (record {
    indexer_interval_ms = interval;
    indexer_concurrency = concurrency;
    indexer_max_retries = retries;
    indexer_max_records = records;
    indexer_max_mutable_requests = mutable;
    indexer_config_refresh_ms = refresh;
    rpc_min_interval_ms = spacing;
    rpc_hard_quota_cooldown_ms = cooldown;
  })

unfoldable pub read_health : Env → Result Text HealthTimes
read_health env = do
  light ←
      number_from 1000 900000 (lit "RPC_HEALTH_LIGHT_INTERVAL_MS") env.rpc_health_light_interval_ms
  full ←
      number_from 1000 21600000 (lit "RPC_HEALTH_FULL_INTERVAL_MS") env.rpc_health_full_interval_ms
  age ← number_from 1000 1800000 (lit "RPC_HEALTH_MAX_AGE_MS") env.rpc_health_max_age_ms
  contract_age ←
      number_from 1000 86400000 (lit "RPC_CONTRACT_MAX_AGE_MS") env.rpc_contract_max_age_ms
  ok (record {
    light_interval_ms = light;
    full_interval_ms = full;
    max_age_ms = age;
    contract_max_age_ms = contract_age;
  })

unfoldable pub frozen_addresses : (ContractName → Text) → Result Text (ContractName → Text)
frozen_addresses raw = do
  policies ← assert_address (string (raw policy_registry)) (lit "EVIDRA_POLICY_REGISTRY_ADDRESS")
  facts ← assert_address (string (raw registry)) (lit "EVIDRA_REGISTRY_ADDRESS")
  resolves ← assert_address (string (raw resolver)) (lit "EVIDRA_RESOLVER_ADDRESS")
  consumes ← assert_address (string (raw consumer_probe)) (lit "EVIDRA_CONSUMER_PROBE_ADDRESS")
  assert_frozen_deployment (addresses_of policies facts resolves consumes)
  ok (addresses_of policies facts resolves consumes)

module _ (is_url : Text → Bool) where
  abbrev url_of : (value name : Text) → Option Text → Result Text Text
  url_of value name o = if is_url (or_default o value) then ok (or_default o value) else err name

  unfoldable pub read_service : Env → Result Text Service
  read_service env = do
    node_env ←
        enum_of (lit "development" ∷ lit "test" ∷ lit "production" ∷ []) (lit "development")
          (lit "NODE_ENV") env.node_env
    port ← number_between 1 65535 3000 (lit "PORT") env.port
    database_url ← required (lit "DATABASE_URL") env.database_url
    ensure (not (is_nil database_url)) (lit "DATABASE_URL")
    rpc_url ← url_of frozen_rpc_url (lit "GENLAYER_RPC_URL") env.genlayer_rpc_url
    chain_id ← chain_id_of env.genlayer_chain_id
    policies ← required (lit "EVIDRA_POLICY_REGISTRY_ADDRESS") env.policy_registry_address
    facts ← required (lit "EVIDRA_REGISTRY_ADDRESS") env.registry_address
    resolves ← required (lit "EVIDRA_RESOLVER_ADDRESS") env.resolver_address
    consumes ← required (lit "EVIDRA_CONSUMER_PROBE_ADDRESS") env.consumer_probe_address
    ok (record {
      node_env = node_env;
      port = port;
      database_url = database_url;
      rpc_url = rpc_url;
      chain_id = chain_id;
      raw_addresses = addresses_of policies facts resolves consumes;
    })

  unfoldable pub read_log_level : Env → Result Text Text
  read_log_level env =
      enum_of (lit "fatal" ∷ lit "error" ∷ lit "warn" ∷ lit "info" ∷ lit "debug" ∷ lit "trace" ∷ [])
        (lit "info") (lit "LOG_LEVEL") env.log_level

  unfoldable pub read_app_url : Env → Result Text Text
  read_app_url env =
      url_of (lit "https://evidra-protocol.bydx.fun") (lit "PUBLIC_APP_URL") env.public_app_url

  -- `loadConfig`
  unfoldable pub load_config : Env → Result Text AppConfig
  unfolding read_service read_tuning read_health read_log_level read_app_url frozen_addresses
  load_config env = do
    service ← read_service env
    tuning ← read_tuning env
    health ← read_health env
    log_level ← read_log_level env
    app_url ← read_app_url env
    ensure (service.chain_id == frozen_chain_id) (lit "GENLAYER_CHAIN_ID must be 61997")
    ensure (same service.rpc_url frozen_rpc_url) (lit "GENLAYER_RPC_URL must be the frozen one")
    addresses ← frozen_addresses service.raw_addresses
    ok (record {
      service = service;
      addresses = addresses;
      indexer_enabled = same (to_lower (or_default env.indexer_enabled (lit "true"))) (lit "true");
      tuning = tuning;
      health = health;
      log_level = log_level;
      public_app_url = app_url;
      cors_origins =
          parts_of b',' (or_default env.cors_origins (lit "https://evidra-protocol.bydx.fun"));
    })

-- The options that server.ts makes the scheduler with.
unfoldable pub scheduler_options : AppConfig → Options
scheduler_options c = record {
  concurrency = some c.tuning.indexer_concurrency;
  min_interval_ms = some c.tuning.rpc_min_interval_ms;
  max_retries = some c.tuning.indexer_max_retries;
  base_delay_ms = none;
  max_delay_ms = none;
  hard_quota_cooldown_ms = some c.tuning.rpc_hard_quota_cooldown_ms;
}

-- The checkpoint of a service that was rate limited brings the cooldown back after a restart.
unfoldable pub restore_quota : (now : ℕ) → SyncState → AppConfig → Scheduler → Scheduler
restore_quota now checkpoint c s = elim checkpoint.last_attempt_at [
  | none ↦ s
  | some t ↦
      if same checkpoint.status (lit "rate_limited")
      then restore_cooldown now (t + c.tuning.rpc_hard_quota_cooldown_ms) s
      else s
]
