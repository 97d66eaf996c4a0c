-- ===== src/Db.antt =====
-- packages/db/src/repository.ts over tables as lists of rows: each method is the effect of its SQL
-- statements. Times are numbers (milliseconds, or seconds where the contracts count them).
pub mod Table
pub mod Data
mod Tests
pub mod Order
pub mod Status
pub mod Flags
pub mod Freshness
pub mod Mutable
pub mod Facts
pub mod Pages
pub mod Migrate
use evidra_protocol.Base.{
  ℕ, zero, suc, ◌+◌, min, Bool, true, false, not, ◌&&◌, ◌||◌, Option, none, some, List, [], ◌∷◌,
  ◌++◌, map, Text, lit, same, one_of, to_lower, ltb, leb, ◌==◌, length, take, drop, keep_if,
  find_first, or_default, if◌then◌else◌,
}
use evidra_protocol.Protocol.Types.{
  FactRecord, RequestRecord, ResolutionRecord, SourcePolicyRecord, TemplateRecord, ProtocolConfig,
  ProtocolStats, EvidenceEntry, EvidenceManifest,
}
use Table.{upsert_by, update_if, order_desc, count_changed}

-- A row of `resolutions`.
pub record ResolutionRow : Type 0 where
  pub resolution : ResolutionRecord
  pub is_canonical : Bool
  pub is_latest : Bool

-- A row of `facts`.
pub record FactRow : Type 0 where
  pub fact : FactRecord
  pub is_fresh : Bool
  pub synced_at : ℕ

-- A row of `evidence`.
pub record EvidenceRow : Type 0 where
  pub resolution_id : ℕ
  pub ordinal : ℕ
  pub entry : EvidenceEntry

-- The one row of `sync_state`; `counts` is `observed_event_counts`.
pub record Counts : Type 0 where
  pub policy : Option ℕ
  pub registry : Option ℕ

pub record SyncState : Type 0 where
  pub last_finalized_at : Option ℕ
  pub last_success_at : Option ℕ
  pub last_attempt_at : Option ℕ
  pub last_error : Option Text
  pub status : Text
  pub counts : Counts
  pub updated_at : Option ℕ
  pub last_request_id : ℕ
  pub last_resolution_id : ℕ
  pub last_config_check_at : Option ℕ

-- The row of `protocol_state`.
pub record ProtocolState : Type 0 where
  pub registry_version : Text
  pub resolver_version : Text
  pub policy_registry_version : Text
  pub paused : Bool
  pub resolver_enabled : Bool
  pub default_resolver : Text
  pub config : ProtocolConfig
  pub stats : ProtocolStats

pub record Database : Type 0 where
  pub facts : List FactRow
  pub requests : List RequestRecord
  pub resolutions : List ResolutionRow
  pub evidence : List EvidenceRow
  pub policies : List SourcePolicyRecord
  pub templates : List TemplateRecord
  pub protocol_state : Option ProtocolState
  pub sync : Option SyncState

unfoldable pub upsert_protocol_state : ProtocolState → Database → Database
upsert_protocol_state p db = record db { protocol_state = some p }

abbrev same_policy : SourcePolicyRecord → SourcePolicyRecord → Bool
same_policy p q = same p.policy_id q.policy_id && (p.version == q.version)

unfoldable pub upsert_policy : SourcePolicyRecord → Database → Database
upsert_policy p db = record db { policies = upsert_by (same_policy p) p db.policies }

abbrev same_template : TemplateRecord → TemplateRecord → Bool
same_template p q = same p.template_id q.template_id && (p.version == q.version)

unfoldable pub upsert_template : TemplateRecord → Database → Database
upsert_template t db = record db { templates = upsert_by (same_template t) t db.templates }

unfoldable pub upsert_request : RequestRecord → Database → Database
upsert_request r db = record db {
  requests = upsert_by (λ q. q.request_id == r.request_id) r db.requests;
}

abbrev pub has_id : ℕ → ResolutionRow → Bool
has_id id row = row.resolution.resolution_id == id

unfoldable pub upsert_resolution :
    ResolutionRecord → (canonical latest : Bool) → Database → Database
upsert_resolution r canonical latest db =
    let row : ResolutionRow = record {
      resolution = r;
      is_canonical = canonical;
      is_latest = latest;
    } in
    record db { resolutions = upsert_by (has_id r.resolution_id) row db.resolutions }

abbrev pub has_key : Text → FactRow → Bool
has_key key row = same row.fact.fact_key key

unfoldable pub upsert_fact : ℕ → FactRecord → Bool → Database → Database
upsert_fact now fact fresh db =
    let row : FactRow = record { fact = fact; is_fresh = fresh; synced_at = now } in
    record db { facts = upsert_by (has_key fact.fact_key) row db.facts }

abbrev pub of_fact : Text → ResolutionRow → Bool
of_fact key row = same row.resolution.fact_key key

abbrev pub flagged : (canonical latest : ℕ) → ResolutionRow → ResolutionRow
flagged canonical latest row = record row {
  is_canonical = row.resolution.resolution_id == canonical;
  is_latest = row.resolution.resolution_id == latest;
}

unfoldable pub set_resolution_flags : Text → (canonical latest : ℕ) → Database → Database
set_resolution_flags key canonical latest db = record db {
  resolutions = update_if (of_fact (to_lower key)) (flagged canonical latest) db.resolutions;
}

abbrev pub is_mutable : RequestRecord → Bool
is_mutable r =
    one_of (lit "PENDING" ∷ lit "DISPATCHED" ∷ []) r.status
    || one_of (lit "DISPATCHED" ∷ lit "FAILED_REPORTED" ∷ []) r.callback_status

unfoldable pub list_mutable_request_ids : ℕ → Database → List ℕ
list_mutable_request_ids limit db =
    map (λ r. r.request_id)
      (take (min limit 100) (order_desc (λ r. r.request_id) (keep_if is_mutable db.requests)))

-- CASE WHEN mutability = 'IMMUTABLE' THEN true ELSE valid_until > $1 END
abbrev pub fresh_at : ℕ → FactRecord → Bool
fresh_at seconds fact = same fact.mutability (lit "IMMUTABLE") || ltb seconds fact.valid_until

abbrev pub same_flag : Bool → Bool → Bool
same_flag true b = b
same_flag false b = not b

-- IS DISTINCT FROM
abbrev pub is_outdated : ℕ → FactRow → Bool
is_outdated seconds row = not (same_flag row.is_fresh (fresh_at seconds row.fact))

abbrev pub refreshed : ℕ → FactRow → FactRow
refreshed seconds row = record row { is_fresh = fresh_at seconds row.fact }

-- The rows changed, and their number.
unfoldable pub refresh_fact_freshness : ℕ → Database → ℕ × Database
refresh_fact_freshness seconds db = (
  count_changed (is_outdated seconds) db.facts,
  record db { facts = update_if (is_outdated seconds) (refreshed seconds) db.facts },
)

abbrev numbered : ℕ → ℕ → List EvidenceEntry → List EvidenceRow
numbered id ordinal [] = []
numbered id ordinal (e ∷ es) =
    (record { resolution_id = id; ordinal = ordinal; entry = e }) ∷ numbered id (ordinal + 1) es

abbrev is_nil : List EvidenceEntry → Bool
is_nil [] = true
is_nil (e ∷ es) = false

abbrev is_found : Option ResolutionRow → Bool
is_found none = false
is_found (some r) = true

-- One transaction. The foreign key refuses evidence of a resolution that is not stored, and then
-- nothing is changed; `none` is the error that is thrown again.
unfoldable pub replace_evidence : EvidenceManifest → Database → Option Database
replace_evidence m db =
    let rest =
      keep_if (λ (e : EvidenceRow). not (e.resolution_id == m.resolution_id)) db.evidence in
    if is_nil m.entries || is_found (find_first (has_id m.resolution_id) db.resolutions)
    then some (record db { evidence = rest ++ numbered m.resolution_id 0 m.entries })
    else none

-- `ProjectionFact` of the cache
pub record ProjectionFact : Type 0 where
  pub fact : FactRecord
  pub current_request : Option RequestRecord
  pub canonical_resolution : Option ResolutionRecord
  pub latest_resolution : Option ResolutionRecord
  pub fresh : Bool
  pub synced_at : ℕ

unfoldable pub get_request : ℕ → Database → Option RequestRecord
get_request id db = find_first (λ r. r.request_id == id) db.requests

abbrev pub record_of : Option ResolutionRow → Option ResolutionRecord
record_of none = none
record_of (some row) = some row.resolution

unfoldable pub get_resolution : ℕ → Database → Option ResolutionRecord
get_resolution id db = record_of (find_first (has_id id) db.resolutions)

-- The flagged rows of a fact, the newest version first.
abbrev pub head_rows : Text → Database → List ResolutionRow
head_rows key db =
    order_desc (λ (r : ResolutionRow). r.resolution.resolution_version)
      (keep_if (λ (r : ResolutionRow). of_fact key r && (r.is_canonical || r.is_latest))
        db.resolutions)

abbrev pub project : Text → Database → FactRow → ProjectionFact
project key db row = record {
  fact = row.fact;
  current_request = get_request row.fact.current_request_id db;
  canonical_resolution = record_of (find_first (λ r. r.is_canonical) (head_rows key db));
  latest_resolution = record_of (find_first (λ r. r.is_latest) (head_rows key db));
  fresh = row.is_fresh;
  synced_at = row.synced_at;
}

abbrev pub project_found : Text → Database → Option FactRow → Option ProjectionFact
project_found key db none = none
project_found key db (some row) = some (project key db row)

unfoldable pub get_fact : Text → Database → Option ProjectionFact
get_fact key db = project_found (to_lower key) db (find_first (has_key (to_lower key)) db.facts)

-- A page of the history of a fact, the newest version first, and its length in all.
unfoldable pub list_resolutions : Text → (offset limit : ℕ) → Database → List ResolutionRecord × ℕ
list_resolutions key offset limit db =
    let rows = keep_if (of_fact (to_lower key)) db.resolutions in
    (
      map (λ (r : ResolutionRow). r.resolution)
          (take limit (
            drop offset
              (order_desc (λ (r : ResolutionRow). r.resolution.resolution_version) rows))),
      length rows,
    )

-- The columns that `setSyncStatus` can be given: `none` is a field that the caller left out.
pub record SyncPatch : Type 0 where
  pub last_finalized_at : Option ℕ
  pub last_success_at : Option ℕ
  pub last_attempt_at : Option ℕ
  pub last_error : Option Text
  pub status : Option Text
  pub counts : Option Counts
  pub last_request_id : Option ℕ
  pub last_resolution_id : Option ℕ
  pub last_config_check_at : Option ℕ

-- COALESCE($n, column)
abbrev coalesce {ℓ} : {A : Type ℓ} → Option A → Option A → Option A
coalesce none b = b
coalesce (some a) b = some a

abbrev pub patched : ℕ → SyncPatch → SyncState → SyncState
patched now p s = record {
  last_finalized_at = coalesce p.last_finalized_at s.last_finalized_at;
  last_success_at = coalesce p.last_success_at s.last_success_at;
  last_attempt_at = coalesce p.last_attempt_at s.last_attempt_at;
  last_error = p.last_error;
  status = or_default p.status s.status;
  counts = or_default p.counts s.counts;
  updated_at = some now;
  last_request_id = or_default p.last_request_id s.last_request_id;
  last_resolution_id = or_default p.last_resolution_id s.last_resolution_id;
  last_config_check_at = coalesce p.last_config_check_at s.last_config_check_at;
}

abbrev pub patch_row : ℕ → SyncPatch → Option SyncState → Option SyncState
patch_row now p none = none
patch_row now p (some s) = some (patched now p s)

unfoldable pub set_sync_status : ℕ → SyncPatch → Database → Database
set_sync_status now p db = record db { sync = patch_row now p db.sync }

abbrev pub unknown_status : SyncState
unknown_status = record {
  last_finalized_at = none;
  last_success_at = none;
  last_attempt_at = none;
  last_error = none;
  status = lit "unknown";
  counts = record { policy = none; registry = none };
  updated_at = none;
  last_request_id = 0;
  last_resolution_id = 0;
  last_config_check_at = none;
}

-- An empty error reads as none.
abbrev pub said : Option Text → Option Text
said none = none
said (some []) = none
said (some (c ∷ s)) = some (c ∷ s)

abbrev pub read_status : Option SyncState → SyncState
read_status none = unknown_status
read_status (some s) = record s { last_error = said s.last_error }

unfoldable pub get_sync_status : Database → SyncState
get_sync_status db = read_status db.sync
