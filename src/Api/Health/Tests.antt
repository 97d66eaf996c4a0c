-- ===== src/Api/Health/Tests.antt =====
-- A history of the monitor of apps/api/src/health.ts.
use evidra_protocol.Base.{ℕ, ◌≡◌, refl, true, false, not, ◌||◌, none, List, [], ◌∷◌, any}
use evidra_protocol.Api.Indexer.Effects.{IndexerStatus}
use evidra_protocol.Api.Health.Ready.{Recent, verifies, answers, is_ready-Recent}
use evidra_protocol.Api.Health.Failures.{has_failed_last}
use evidra_protocol.Api.Health.{
  Options, Event, started, ticked, full_ended, light_ended, verified, latest_final, reached,
  initial_snapshot, idle, is_ready, is_none, run_events, step, run_full, run_light, tick, end_full,
  end_light,
}

abbrev options : Options
options = record { full_interval_ms = 500; max_age_ms = 100; contract_max_age_ms = 1000 }

-- A full run at the start and a light run at the next tick.
abbrev two_runs : List (ℕ × Event)
two_runs =
    (1000, started false)
    ∷ (1010, full_ended (verified 61997 latest_final))
    ∷ (1300, ticked false)
    ∷ (1310, light_ended (verified 61997 latest_final))
    ∷ []

abbrev no_indexer : IndexerStatus
no_indexer = record {
  enabled = false;
  running = false;
  last_started_at = none;
  last_success_at = none;
  last_error = none;
  last_duration_ms = none;
  lag_seconds = none;
}

is_ready-Recent_example :
    Recent 1350 1000 (λ t. any two_runs (verifies t))
    × Recent 1350 100 (λ t. any two_runs (answers t))
    × (has_failed_last options two_runs false
          (record { snapshot = initial_snapshot; flight = idle })
        ≡ false)
    × ((reached options two_runs).snapshot.last_error ≡ none)
    × (((not no_indexer.enabled) || is_none no_indexer.last_error) ≡ true)
unfolding is_ready run_events step run_full run_light tick end_full end_light
is_ready-Recent_example = is_ready-Recent options two_runs 1350 no_indexer refl
