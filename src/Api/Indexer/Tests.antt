-- ===== src/Api/Indexer/Tests.antt =====
-- Passes of apps/api/src/indexer.ts over a concrete chain and database.
use evidra_protocol.Base.{
  ℕ, ◌+◌, ◌-◌, ◌≡◌, refl, min, true, false, none, some, List, [], ◌∷◌, Text, lit, Result, ok, err,
  length, take, drop, get_elem?, ltb, if◌then◌else◌, arith,
}
use evidra_protocol.Protocol.Types.{EventPage, ProtocolEvent}
use evidra_protocol.Db.Data.{
  database, fact, request, resolution, config, resolver_info, stats, policy, template, manifest,
  event,
}
use evidra_protocol.Db.Table.{order_desc}
use evidra_protocol.Db.{
  set_sync_status, get_sync_status, upsert_protocol_state, list_mutable_request_ids,
  refresh_fact_freshness, replace_evidence,
}
use evidra_protocol.Api.Indexer.Effects.{World, store, query, try_store, ◌>>=◌}
use evidra_protocol.Api.Indexer.Ids.{range-get_elem?}
use evidra_protocol.Api.Indexer.Paging.{Serves, IsSlice, IsComplete, read_event_delta-IsSlice}
use evidra_protocol.Api.Indexer.Checkpoint.{Position, position, IsAborted, sync_once-IsAborted}
use evidra_protocol.Api.Indexer.Progress.{IsAdvanced, sync_once-IsAdvanced}
use evidra_protocol.Api.Indexer.{
  Options, Chain, Clock, EventDelta, range, read_event_delta, delta_loop, unique_by, sync_once,
  sync_pass, gather_from, begin, on_failure, started_patch, read_projection, projection_or,
  get_protocol_projection, sync_policies_and_templates, sync_requests, sync_resolutions,
  sync_affected, sync_existing_fact, sync_keys, sync_facts,
}

abbrev log : List ProtocolEvent
log = event ∷ record event { index = 1 } ∷ record event { index = 2 } ∷ []

-- A contract that keeps to its interface.
abbrev page_of : ℕ → ℕ → Result Text EventPage
page_of offset limit = ok (record {
  offset = offset;
  limit = limit;
  total = length log;
  items = take limit (drop offset log);
})

page_of-Serves : Serves log page_of
page_of-Serves offset limit page e = cc

abbrev two_events : EventDelta
two_events = record { events = take 2 (drop 1 log); next_offset = 3 }

abbrev options : Options
options = record { max_records = 2; max_mutable_requests = 5; config_refresh_ms = 1000 }

abbrev chain : Chain
chain = record {
  cooling_at_start = false;
  cooling_at_failure = false;
  get_protocol_stats = ok stats;
  get_policy_event_count = ok 0;
  get_policy_events = page_of;
  get_registry_events = page_of;
  get_protocol_config = ok config;
  get_resolver_version = ok [];
  get_resolver = ok resolver_info;
  get_registry_version = ok [];
  get_policy_registry_version = ok [];
  get_source_policy = λ i v. ok policy;
  get_template = λ i v. ok template;
  get_request = λ i. ok request;
  get_resolution = λ i. ok resolution;
  get_fact = λ k. ok fact;
  get_evidence_manifest = λ i. ok manifest;
  payload = λ e. record { policy_id = []; template_id = []; version = 0 };
}

-- The read of the protocol's counts fails.
abbrev broken : Chain
broken = record chain { get_protocol_stats = err (lit "HTTP 503") }

abbrev clock : Clock
clock = record { started = 10; config_at = 11; refresh_at = 12; fact_at = λ k. 13; finished = 14 }

abbrev world : World
world = record {
  indexer = record {
    status = record {
      enabled = true;
      running = false;
      last_started_at = none;
      last_success_at = none;
      last_error = none;
      last_duration_ms = none;
      lag_seconds = none;
    };
    syncing = false;
    projection = none;
  };
  db = database;
  faults = [];
}

abbrev first_position : Position
first_position = record {
  counts = record { policy = some 0; registry = some 0 };
  last_request_id = 0;
  last_resolution_id = 0;
}

range-get_elem?_example :
    get_elem? (range 2 5 9) 1 ≡ (if ltb 1 (min 2 (9 + 1 - 5)) then some (5 + 1) else none)
range-get_elem?_example = range-get_elem? 2 5 9 1

read_event_delta-IsSlice_example : IsSlice log 1 5 two_events × IsComplete 3 5 two_events
unfolding read_event_delta delta_loop
read_event_delta-IsSlice_example =
    read_event_delta-IsSlice log page_of 5 1 3 two_events page_of-Serves (omega arith) (omega arith)
      refl

sync_once-IsAborted_example :
    IsAborted world (lit "HTTP 503") (sync_once broken options clock world).1
unfolding sync_once sync_pass gather_from begin on_failure store query ◌>>=◌
sync_once-IsAborted_example = sync_once-IsAborted broken options clock world (lit "HTTP 503") refl

sync_once-IsAdvanced_example :
    IsAdvanced chain options first_position (position (sync_once chain options clock world).1.db)
unfolding sync_once sync_pass gather_from begin on_failure store query try_store ◌>>=◌
    read_event_delta delta_loop range unique_by read_projection projection_or
    get_protocol_projection sync_policies_and_templates sync_requests sync_resolutions sync_affected
    sync_existing_fact sync_keys sync_facts list_mutable_request_ids refresh_fact_freshness
    replace_evidence get_sync_status set_sync_status started_patch order_desc upsert_protocol_state
sync_once-IsAdvanced_example =
    sync_once-IsAdvanced chain options clock world first_position refl refl refl refl
