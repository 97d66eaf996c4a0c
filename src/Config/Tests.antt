-- ===== src/Config/Tests.antt =====
-- packages/config/src/config.ts with an environment of the frozen deployment.
use evidra_protocol.Base.{max, ◌≡◌, refl, true, none, some, [], ◌∷◌, lit, Bool, Text, to_lower}
use evidra_protocol.Protocol.Values.{trim}
use evidra_protocol.Protocol.Constants.{
  ContractName, policy_registry, registry, resolver, consumer_probe, frozen_chain_id,
  contract_address, is_address, address_text, normalize_address, assert_address,
}
use evidra_protocol.Protocol.Client.{assert_frozen_deployment, matches}
use evidra_protocol.Protocol.Json.Pages.{left_out, natural}
use evidra_protocol.Protocol.Scheduler.Limits.{configure}
use evidra_protocol.Config.{
  Env, AppConfig, addresses_of, number_between, number_from, load_config, scheduler_options,
  frozen_rpc_url,
}
use evidra_protocol.Config.Handed.{load_config-configure}

abbrev any_url : Text → Bool
any_url s = true

abbrev env : Env
env = record {
  node_env = none;
  port = left_out;
  database_url = some (lit "postgres://db");
  genlayer_rpc_url = none;
  genlayer_chain_id = natural 61997;
  policy_registry_address = some (contract_address policy_registry);
  registry_address = some (contract_address registry);
  resolver_address = some (contract_address resolver);
  consumer_probe_address = some (contract_address consumer_probe);
  indexer_enabled = none;
  indexer_interval_ms = left_out;
  indexer_concurrency = natural 2;
  indexer_max_retries = left_out;
  indexer_max_records = left_out;
  indexer_max_mutable_requests = left_out;
  indexer_config_refresh_ms = left_out;
  rpc_min_interval_ms = natural 1200;
  rpc_hard_quota_cooldown_ms = natural 5000;
  rpc_health_light_interval_ms = left_out;
  rpc_health_full_interval_ms = left_out;
  rpc_health_max_age_ms = left_out;
  rpc_contract_max_age_ms = left_out;
  log_level = none;
  public_app_url = none;
  cors_origins = none;
}

abbrev frozen : ContractName → Text
frozen =
    addresses_of (contract_address policy_registry) (contract_address registry)
      (contract_address resolver) (contract_address consumer_probe)

abbrev loaded : AppConfig
loaded = record {
  service = record {
    node_env = lit "development";
    port = 3000;
    database_url = lit "postgres://db";
    rpc_url = frozen_rpc_url;
    chain_id = 61997;
    raw_addresses = frozen;
  };
  addresses = frozen;
  indexer_enabled = true;
  tuning = record {
    indexer_interval_ms = 300000;
    indexer_concurrency = 2;
    indexer_max_retries = 3;
    indexer_max_records = 100000;
    indexer_max_mutable_requests = 2;
    indexer_config_refresh_ms = 21600000;
    rpc_min_interval_ms = 1200;
    rpc_hard_quota_cooldown_ms = 5000;
  };
  health = record {
    light_interval_ms = 900000;
    full_interval_ms = 21600000;
    max_age_ms = 1800000;
    contract_max_age_ms = 86400000;
  };
  log_level = lit "info";
  public_app_url = lit "https://evidra-protocol.bydx.fun";
  cors_origins = lit "https://evidra-protocol.bydx.fun" ∷ [];
}

load_config-configure_example :
    (loaded.service.chain_id ≡ frozen_chain_id)
    × (loaded.service.rpc_url ≡ frozen_rpc_url)
    × ((configure (scheduler_options loaded)).concurrency ≡ loaded.tuning.indexer_concurrency)
    × ((configure (scheduler_options loaded)).min_interval ≡ loaded.tuning.rpc_min_interval_ms)
    × ((configure (scheduler_options loaded)).max_retries ≡ loaded.tuning.indexer_max_retries)
    × ((configure (scheduler_options loaded)).cooldown
        ≡ max 60000 loaded.tuning.rpc_hard_quota_cooldown_ms)
unfolding load_config number_between number_from assert_address is_address address_text trim
    to_lower normalize_address assert_frozen_deployment matches
load_config-configure_example = load_config-configure any_url env loaded refl
