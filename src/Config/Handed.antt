-- ===== src/Config/Handed.antt =====
-- The configuration of packages/config/src/config.ts reaches the scheduler as it is.
use evidra_protocol.Base.{
  ℕ, ◌≤◌, max, ◌≡◌, refl, ap, subst, Bool, Text, lit, Result, ok, ensure, bind_ok, then_ok,
  ensure_ok, ==→eq, ◌==◌, same, same→eq, arith,
}
use evidra_protocol.Protocol.Constants.{frozen_chain_id}
use evidra_protocol.Protocol.Scheduler.Limits.{configure}
use evidra_protocol.Protocol.Json.Pages.{PageInput, left_out, natural, no_natural}
use evidra_protocol.Config.{
  Env, Tuning, Service, AppConfig, number_between, number_from, read_tuning, read_service,
  read_health, read_log_level, read_app_url, frozen_addresses, load_config, scheduler_options,
  frozen_rpc_url,
}

number_between-range :
    (low high value : ℕ) (name : Text) (i : PageInput) (n : ℕ)
    → low ≤ value
    → value ≤ high
    → number_between low high value name i ≡ ok n
    → (low ≤ n) × (n ≤ high)
unfolding number_between
number_between-range low high value name left_out n h k e =
    (ground (arith, h, e), ground (arith, k, e))
number_between-range low high value name (natural m) n h k e =
    (ground (arith, e), ground (arith, e))
number_between-range low high value name no_natural n h k e = absurd (cc)

-- The limits within which the scheduler takes its options as they are.
abbrev IsLimited : Tuning → Type 0
IsLimited t =
    (1 ≤ t.indexer_concurrency) × (t.indexer_concurrency ≤ 2) × (t.indexer_max_retries ≤ 5)

ok_eq : {A : Type 0} (a b : A) → ◌≡◌ {A = Result Text A} (ok a) (ok b) → a ≡ b
ok_eq a b e = cc

read_tuning-IsLimited : (env : Env) (t : Tuning) → read_tuning env ≡ ok t → IsLimited t
unfolding read_tuning
read_tuning-IsLimited env t h =
    let (interval, e1, h1) =
      bind_ok (number_from 1000 300000 (lit "INDEXER_INTERVAL_MS") env.indexer_interval_ms) _ t h in
    let (concurrency, e2, h2) =
      bind_ok (number_between 1 2 1 (lit "INDEXER_CONCURRENCY") env.indexer_concurrency) _ t h1 in
    let (retries, e3, h3) =
      bind_ok (number_between 0 5 3 (lit "INDEXER_MAX_RETRIES") env.indexer_max_retries) _ t h2 in
    let (low, high) =
      number_between-range 1 2 1 _ env.indexer_concurrency concurrency (omega arith) (omega arith)
        e2 in
    let (zero_low, few) =
      number_between-range 0 5 3 _ env.indexer_max_retries retries (omega arith) (omega arith) e3 in
    let (records, e4, h4) =
      bind_ok (number_between 1 1000000 100000 (lit "INDEXER_MAX_RECORDS") env.indexer_max_records)
        _ t h3 in
    let (mutable, e5, h5) =
      bind_ok
        (number_between 0 100 2 (lit "INDEXER_MAX_MUTABLE_REQUESTS")
          env.indexer_max_mutable_requests)
        _ t h4 in
    let (refresh, e6, h6) =
      bind_ok
        (number_from 1000 21600000 (lit "INDEXER_CONFIG_REFRESH_MS") env.indexer_config_refresh_ms)
        _ t h5 in
    let (spacing, e7, h7) =
      bind_ok (number_from 0 2400 (lit "RPC_MIN_INTERVAL_MS") env.rpc_min_interval_ms) _ t h6 in
    let (cooldown, e8, h8) =
      bind_ok
        (number_from 1000 3600000 (lit "RPC_HARD_QUOTA_COOLDOWN_MS") env.rpc_hard_quota_cooldown_ms)
        _ t h7 in
    subst IsLimited (ok_eq _ t h8) (low, high, few)

-- A configuration that is loaded is on the frozen chain and RPC, and the scheduler that is made of it
-- runs with the concurrency, the spacing and the retries of the configuration; only a cooldown of less
-- than a minute becomes a minute.
pub load_config-configure :
    (is_url : Text → Bool) (env : Env) (c : AppConfig)
    → load_config is_url env ≡ ok c
    → (c.service.chain_id ≡ frozen_chain_id)
      × (c.service.rpc_url ≡ frozen_rpc_url)
      × ((configure (scheduler_options c)).concurrency ≡ c.tuning.indexer_concurrency)
      × ((configure (scheduler_options c)).min_interval ≡ c.tuning.rpc_min_interval_ms)
      × ((configure (scheduler_options c)).max_retries ≡ c.tuning.indexer_max_retries)
      × ((configure (scheduler_options c)).cooldown ≡ max 60000 c.tuning.rpc_hard_quota_cooldown_ms)
unfolding load_config configure scheduler_options
load_config-configure is_url env c h =
    let (service, e1, h1) = bind_ok (read_service is_url env) _ c h in
    let (tuning, e2, h2) = bind_ok (read_tuning env) _ c h1 in
    let (health, e3, h3) = bind_ok (read_health env) _ c h2 in
    let (level, e4, h4) = bind_ok (read_log_level is_url env) _ c h3 in
    let (url, e5, h5) = bind_ok (read_app_url is_url env) _ c h4 in
    let (on_chain, h6) = then_ok (ensure (service.chain_id == frozen_chain_id) _) _ c h5 in
    let (at_url, h7) = then_ok (ensure (same service.rpc_url frozen_rpc_url) _) _ c h6 in
    let (addresses, e8, h8) = bind_ok (frozen_addresses service.raw_addresses) _ c h7 in
    let same_service = ap (λ (d : AppConfig). d.service) (ok_eq _ c h8) in
    let same_tuning = ap (λ (d : AppConfig). d.tuning) (ok_eq _ c h8) in
    let (low, high, few) = subst IsLimited same_tuning (read_tuning-IsLimited env tuning e2) in
    (
      subst (λ (d : Service). d.chain_id ≡ frozen_chain_id) same_service
          (==→eq service.chain_id frozen_chain_id (ensure_ok _ _ on_chain)),
      subst (λ (d : Service). d.rpc_url ≡ frozen_rpc_url) same_service
          (same→eq service.rpc_url frozen_rpc_url (ensure_ok _ _ at_url)),
      omega (arith, low, high),
      omega arith,
      omega (arith, few),
      refl,
    )
