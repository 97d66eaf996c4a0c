-- ===== src/Db/Tests.antt =====
-- The theorems on packages/db/src/repository.ts at concrete rows.
use evidra_protocol.Base.{
  ◌≡◌, refl, min, true, false, none, some, lit, length, keep_if, map, All, to_lower, [], ◌∷◌, ◌-◌,
}
use evidra_protocol.Db.Data.{database, fact, resolution}
use evidra_protocol.Db.Freshness.{refresh_fact_freshness-IsCurrent}
use evidra_protocol.Db.Mutable.{is_mutable_id, IsDescending, list_mutable_request_ids_lem}
use evidra_protocol.Db.Flags.{IsOf, set_resolution_flags-get_fact}
use evidra_protocol.Db.Table.{update_if, order_desc, insert_desc}
use evidra_protocol.Db.Facts.{FactFilters, recent, list_facts, fact_rows, passes, ilike}
use evidra_protocol.Db.Facts.Sorted.{order_by, insert_by}
use evidra_protocol.Db.Facts.Listed.{row_of, list_facts-get_fact}
use evidra_protocol.Db.{
  Database, SyncState, SyncPatch, refresh_fact_freshness, fresh_at, list_mutable_request_ids,
  is_mutable, get_fact, set_resolution_flags, ProjectionFact, get_request,
}

abbrev healthy : SyncPatch
healthy = record {
  last_finalized_at = some 10;
  last_success_at = some 10;
  last_attempt_at = none;
  last_error = none;
  status = some (lit "healthy");
  counts = none;
  last_request_id = some 4;
  last_resolution_id = none;
  last_config_check_at = none;
}

abbrev failed : SyncPatch
failed = record healthy {
  status = some (lit "degraded");
  last_error = some (lit "timeout");
  last_request_id = none;
}

abbrev before : SyncState
before = record {
  last_finalized_at = none;
  last_success_at = some 3;
  last_attempt_at = some 4;
  last_error = some (lit "rate limit");
  status = lit "rate_limited";
  counts = record { policy = none; registry = none };
  updated_at = some 4;
  last_request_id = 2;
  last_resolution_id = 1;
  last_config_check_at = none;
}

abbrev stored : Database
stored = record database { sync = some before }

refresh_fact_freshness-IsCurrent_example :
    All (λ row. row.is_fresh ≡ fresh_at 400 row.fact) (refresh_fact_freshness 400 database).1.facts
    × (map (λ r. r.fact) (refresh_fact_freshness 400 database).1.facts
        ≡ map (λ r. r.fact) database.facts)
    × ((refresh_fact_freshness 400 (refresh_fact_freshness 400 database).1).0 ≡ 0)
refresh_fact_freshness-IsCurrent_example = refresh_fact_freshness-IsCurrent 400 database

list_mutable_request_ids_lem_example :
    (length (list_mutable_request_ids 20 database)
      ≡ min (min 20 100) (length (keep_if is_mutable database.requests)))
    × All (λ id. is_mutable_id database.requests id ≡ true) (list_mutable_request_ids 20 database)
    × IsDescending (list_mutable_request_ids 20 database)
list_mutable_request_ids_lem_example = list_mutable_request_ids_lem 20 database

-- The canonical resolution is the first one, the latest is the second.
abbrev shown : ProjectionFact
shown = record {
  fact = fact;
  current_request = none;
  canonical_resolution = some (record resolution { resolution_id = 1 });
  latest_resolution = some (record resolution { resolution_id = 2; resolution_version = 2 });
  fresh = false;
  synced_at = 0;
}

set_resolution_flags-get_fact_example :
    IsOf (to_lower (lit "AB")) 1 shown.canonical_resolution
    × IsOf (to_lower (lit "AB")) 2 shown.latest_resolution
unfolding set_resolution_flags get_fact get_request update_if order_desc insert_desc to_lower
set_resolution_flags-get_fact_example =
    set_resolution_flags-get_fact (lit "AB") 1 2 database shown refl refl refl

abbrev of_ab : FactFilters
of_ab = record {
  offset = 0;
  limit = 5;
  outcome = some fact.current_outcome;
  fresh = none;
  policy = some [];
  template = none;
  mutability = none;
  search = some (lit "b");
  sort = recent;
}

-- One fact passes, and has its two resolutions and no request.
found_one : map (λ i. i.fact) (list_facts of_ab database).0 ≡ fact ∷ []
unfolding list_facts fact_rows passes ilike to_lower order_by insert_by
found_one = refl

list_facts-get_fact_example :
    All (λ i. get_fact i.fact.fact_key database ≡ some i) (list_facts of_ab database).0
    × All (λ i. passes of_ab database.requests (row_of i) ≡ true) (list_facts of_ab database).0
    × (length (list_facts of_ab database).0 ≡ min 5 ((list_facts of_ab database).1 - 0))
unfolding to_lower
list_facts-get_fact_example = list_facts-get_fact of_ab database (((refl, refl), tt), (refl, tt))
