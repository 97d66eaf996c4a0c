-- ===== src/Api/Routes/Handlers.antt =====
-- The handlers of the routes of apps/api/src/app.ts. A database call that throws is left to the error
-- handler, which Api/App models; the chain is read by `chain_fact`.
use evidra_protocol.Base.{
  ℕ, Option, none, some, List, map, Text, lit, Result, ok, err, same, if◌then◌else◌,
}
use evidra_protocol.Protocol.Types.{
  RequestRecord, SourcePolicyRecord, TemplateRecord, EvidenceEntry,
}
use evidra_protocol.Protocol.Json.Pages.{PageInput}
use evidra_protocol.Db.{
  Database, ProtocolState, SyncState, get_fact, get_request, get_resolution, list_resolutions,
  get_sync_status,
}
use evidra_protocol.Db.Facts.{list_facts}
use evidra_protocol.Db.Pages.{
  Activity, TableCounts, get_evidence, list_policies, get_policy, list_templates, get_template,
  list_activity, get_stats, get_protocol_state,
}
use evidra_protocol.Api.App.{FactReads, chain_fact, ChainFact}
use evidra_protocol.Api.Routes.{
  Reply, sent, refused, PageQuery, page_schema, parsed, found, FactQuery, fact_query_schema,
  hash_param, numeric_param, version_param, name_param, Source, cache, chain, FactEnvelope,
  fact_envelope, chain_envelope, ResolutionEnvelope, resolution_envelope, public_sync_status,
}

-- A page: its items, the query, and how many there are in all.
pub record PageBody (A : Type 0) : Type 0 where
  pub items : List A
  pub offset : ℕ
  pub limit : ℕ
  pub total : ℕ

abbrev pub page_body : {A : Type 0} → (offset limit : ℕ) → List A × ℕ → PageBody A
page_body offset limit (items, total) = record {
  items = items;
  offset = offset;
  limit = limit;
  total = total;
}

abbrev pub shown_as : {A B : Type 0} → (A → B) → List A × ℕ → List B × ℕ
shown_as f (items, total) = (map f items, total)

-- A route of pages.
abbrev pub paged : {A : Type 0} → PageQuery → (ℕ → ℕ → List A × ℕ) → Reply (PageBody A)
paged q list = parsed (page_schema q) (λ p. sent (page_body p.0 p.1 (list p.0 p.1)))

-- GET /api/v1/facts
unfoldable pub facts_route : (now : ℕ) → FactQuery → Database → Reply (PageBody FactEnvelope)
facts_route now q db =
    parsed (fact_query_schema q)
      (λ f. sent (page_body f.offset f.limit (shown_as (fact_envelope now) (list_facts f db))))

pub record FactBody : Type 0 where
  pub envelope : FactEnvelope
  pub history : Option (List ResolutionEnvelope × ℕ)

-- `z.enum(['cache', 'chain']).default('cache')`
abbrev source_param : Option Text → Option Source
source_param none = some cache
source_param (some s) =
    if same s (lit "cache") then some cache else (if same s (lit "chain") then some chain else none)

-- `chainFact` fails when a read does; the error is then answered by the error handler.
abbrev chain_body : (now : ℕ) → Result Text (Option ChainFact) → Result Text (Reply FactBody)
chain_body now (err e) = err e
chain_body now (ok c) = ok (
    found c (lit "fact_not_found")
      (λ c. sent (record { envelope = chain_envelope now c; history = none })))

abbrev cache_body : (now : ℕ) → Text → Database → Reply FactBody
cache_body now key db = found (get_fact key db) (lit "fact_not_found") (λ i. sent (record {
  envelope = fact_envelope now i;
  history = some (shown_as resolution_envelope (list_resolutions key 0 50 db));
}))

abbrev fact_from : (now : ℕ) → FactReads → Source → Text → Database → Result Text (Reply FactBody)
fact_from now reads cache key db = ok (cache_body now key db)
fact_from now reads chain key db = chain_body now (chain_fact reads key)

abbrev or_invalid : {A B : Type 0} → Option A → (A → Result Text (Reply B)) → Result Text (Reply B)
or_invalid none f = ok (refused 400 (lit "invalid_request"))
or_invalid (some a) f = f a

-- GET /api/v1/facts/:factKey
unfoldable pub fact_route :
    (now : ℕ) → FactReads → Text → Option Text → Database → Result Text (Reply FactBody)
fact_route now reads key source db =
    or_invalid (hash_param key)
      (λ key. or_invalid (source_param source) (λ source. fact_from now reads source key db))

-- GET /api/v1/facts/:factKey/resolutions
unfoldable pub fact_resolutions_route :
    Text → PageQuery → Database → Reply (PageBody ResolutionEnvelope)
fact_resolutions_route key q db = parsed (hash_param key) (λ key.
    paged q (λ offset limit. shown_as resolution_envelope (list_resolutions key offset limit db)))

-- GET /api/v1/resolutions/:resolutionId
unfoldable pub resolution_route : Text → Database → Reply ResolutionEnvelope
resolution_route id db = parsed (numeric_param id) (λ id.
    found (get_resolution id db) (lit "resolution_not_found") (λ r. sent (resolution_envelope r)))

-- GET /api/v1/resolutions/:resolutionId/evidence
unfoldable pub evidence_route : Text → Database → Reply (List EvidenceEntry)
evidence_route id db = parsed (numeric_param id) (λ id.
    found (get_resolution id db) (lit "resolution_not_found") (λ r. sent (get_evidence id db)))

-- GET /api/v1/requests/:requestId
unfoldable pub request_route : Text → Database → Reply RequestRecord
request_route id db =
    parsed (numeric_param id) (λ id. found (get_request id db) (lit "request_not_found") sent)

-- GET /api/v1/policies
unfoldable pub policies_route : PageQuery → Database → Reply (PageBody SourcePolicyRecord)
policies_route q db = paged q (λ offset limit. list_policies offset limit db)

-- GET /api/v1/policies/:policyId/:version
unfoldable pub policy_route : Text → PageInput → Database → Reply SourcePolicyRecord
policy_route id version db = parsed (name_param id) (λ id.
    parsed (version_param version)
      (λ version. found (get_policy id version db) (lit "policy_not_found") sent))

-- GET /api/v1/templates
unfoldable pub templates_route : PageQuery → Database → Reply (PageBody TemplateRecord)
templates_route q db = paged q (λ offset limit. list_templates offset limit db)

-- GET /api/v1/templates/:templateId/:version
unfoldable pub template_route : Text → PageInput → Database → Reply TemplateRecord
template_route id version db = parsed (name_param id) (λ id.
    parsed (version_param version)
      (λ version. found (get_template id version db) (lit "template_not_found") sent))

-- GET /api/v1/activity
unfoldable pub activity_route :
    (sorted : List Activity → List Activity) → PageQuery → Database → Reply (PageBody Activity)
activity_route sorted q db = paged q (λ offset limit. list_activity sorted offset limit db)

-- GET /api/v1/stats
unfoldable pub stats_route : Database → Reply (TableCounts × SyncState)
stats_route db = sent (get_stats db, public_sync_status (get_sync_status db))

-- GET /api/v1/protocol, less the constants of the deployment and the status of the indexer.
unfoldable pub protocol_route : Database → Reply (ProtocolState × SyncState)
protocol_route db = elim (get_protocol_state db) [
  | none ↦ refused 503 (lit "protocol_projection_unavailable")
  | some state ↦ sent (state, public_sync_status (get_sync_status db))
]
