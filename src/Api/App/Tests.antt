-- ===== src/Api/App/Tests.antt =====
-- Answers of apps/api/src/app.ts.
use evidra_protocol.Base.{◌≤◌, ◌<◌, ◌≡◌, ◌≢◌, ◌↔◌, true, false, ◌&&◌, none, some, lit}
use evidra_protocol.Api.Indexer.Effects.{IndexerStatus}
use evidra_protocol.Api.Health.{Options, Monitor, is_ready, initial_snapshot, idle}
use evidra_protocol.Api.App.{Failure, other, status_of, error_of, ready_answer, error_answer}
use evidra_protocol.Api.App.Answers.{ShowsPublic, ready_answer-ok, error_answer_bounds}

abbrev options : Options
options = record { full_interval_ms = 500; max_age_ms = 100; contract_max_age_ms = 1000 }

abbrev stopped : IndexerStatus
stopped = record {
  enabled = true;
  running = false;
  last_started_at = none;
  last_success_at = none;
  last_error = some (lit "timeout");
  last_duration_ms = none;
  lag_seconds = none;
}

abbrev monitor : Monitor
monitor = record { snapshot = initial_snapshot; flight = idle }

abbrev teapot : Failure
teapot = other none (some 200)

ready_answer-ok_example :
    ((status_of (ready_answer true 9 options false stopped monitor) ≡ 200)
      ↔ ((true && is_ready 9 options stopped monitor) ≡ true))
    × ((status_of (ready_answer true 9 options false stopped monitor) ≡ 200)
        ↔ (error_of (ready_answer true 9 options false stopped monitor) ≡ none))
    × ShowsPublic (ready_answer true 9 options false stopped monitor)
ready_answer-ok_example = ready_answer-ok true 9 options false stopped monitor

error_answer_bounds_example :
    (400 ≤ (error_answer teapot).status)
    × ((error_answer teapot).status < 600)
    × ((error_answer teapot).error ≢ none)
error_answer_bounds_example = error_answer_bounds teapot
