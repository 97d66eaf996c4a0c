-- ===== src/Api/Routes.antt =====
-- The routes of apps/api/src/app.ts over the repository: their parameters, the envelopes and the
-- answers. Ids of requests and the time stamps of answers are left out; a body is the record before
-- `safe`. `Number` of a parameter is a natural number or is refused.
pub mod Handlers
pub mod Shown
mod Tests
use evidra_protocol.Base.{
  ℕ, ◌+◌, ◌-◌, ◌/◌, Bool, true, false, not, ◌&&◌, ◌||◌, Option, none, some, List, [], ◌∷◌, map,
  Text, lit, Result, ok, err, ◌>>=◌, ◌>>◌, ensure, same, one_of, decimal, ltb, leb, ◌==◌, length,
  if◌then◌else◌,
}
use evidra_protocol.Protocol.Types.{
  FactRecord, RequestRecord, ResolutionRecord, SourcePolicyRecord, TemplateRecord, EvidenceEntry,
}
use evidra_protocol.Protocol.Values.{trim, all_digits}
use evidra_protocol.Protocol.Constants.{all_hex, frozen_chain_id, ContractName, contract_address}
use evidra_protocol.Protocol.Json.Pages.{PageInput, left_out, natural, no_natural}
use evidra_protocol.Db.{
  Database, ProjectionFact, ProtocolState, SyncState, fresh_at, get_fact, get_request,
  get_resolution, list_resolutions, get_sync_status,
}
use evidra_protocol.Db.Facts.{FactFilters, FactSort, recent, by_request, list_facts}
use evidra_protocol.Db.Pages.{
  Activity, TableCounts, get_evidence, list_policies, get_policy, list_templates, get_template,
  list_activity, get_stats, get_protocol_state,
}
use evidra_protocol.Api.App.{ChainFact, public_index_error}

-- What a route answers: 200 with a body, or an error with its status.
pub data Reply (A : Type 0) : Type 0 where
  sent : A → Reply A
  refused : (status : ℕ) → (error : Text) → Reply A

-- `z.number().int().min(low).max(high).default(…)`
abbrev pub number_param : (low high default : ℕ) → PageInput → Option ℕ
number_param low high default left_out = some default
number_param low high default (natural n) = if leb low n && leb n high then some n else none
number_param low high default no_natural = none

-- `pageSchema`
pub record PageQuery : Type 0 where
  pub offset : PageInput
  pub limit : PageInput

abbrev pub both : Option ℕ → Option ℕ → Option (ℕ × ℕ)
both none n = none
both (some m) none = none
both (some m) (some n) = some (m, n)

unfoldable pub page_schema : PageQuery → Option (ℕ × ℕ)
page_schema q = both (number_param 0 1000000 0 q.offset) (number_param 1 50 20 q.limit)

-- A ZodError is answered with 400.
abbrev pub parsed : {A B : Type 0} → Option A → (A → Reply B) → Reply B
parsed none f = refused 400 (lit "invalid_request")
parsed (some a) f = f a

-- What is not stored is answered with 404.
abbrev pub found : {A B : Type 0} → Option A → (error : Text) → (A → Reply B) → Reply B
found none error f = refused 404 error
found (some a) error f = f a

-- `factQuerySchema`
pub record FactQuery : Type 0 where
  pub page : PageQuery
  pub outcome : Option Text
  pub fresh : Option Text
  pub policy : Option Text
  pub template : Option Text
  pub mutability : Option Text
  pub search : Option Text
  pub sort : Option Text

abbrev pub enum_param : List Text → Option Text → Option (Option Text)
enum_param allowed none = some none
enum_param allowed (some s) = if one_of allowed s then some (some s) else none

-- `z.string().trim().max(n).optional()`
abbrev pub text_param : (max : ℕ) → Option Text → Option (Option Text)
text_param max none = some none
text_param max (some s) = if leb (length (trim s)) max then some (some (trim s)) else none

infixl 5 ◌>>=?◌
abbrev pub ◌>>=?◌ : {A B : Type 0} → Option A → (A → Option B) → Option B
none >>=? f = none
some a >>=? f = f a

abbrev pub fresh_of : Option Text → Option Bool
fresh_of none = none
fresh_of (some s) = some (same s (lit "true"))

abbrev pub sort_of : Option Text → FactSort
sort_of none = recent
sort_of (some s) = if same s (lit "request") then by_request else recent

unfoldable pub fact_query_schema : FactQuery → Option FactFilters
unfolding page_schema
fact_query_schema q = page_schema q.page >>=? λ page.
    enum_param (lit "TRUE" ∷ lit "FALSE" ∷ lit "UNRESOLVED" ∷ []) q.outcome >>=? λ outcome.
    enum_param (lit "true" ∷ lit "false" ∷ []) q.fresh >>=? λ fresh.
    text_param 128 q.policy >>=? λ policy. text_param 128 q.template >>=? λ template.
    text_param 64 q.mutability >>=? λ mutability. text_param 256 q.search >>=? λ search.
    enum_param (lit "recent" ∷ lit "request" ∷ []) q.sort >>=? λ sort. some (record {
      offset = page.0;
      limit = page.1;
      outcome = outcome;
      fresh = fresh_of fresh;
      policy = policy;
      template = template;
      mutability = mutability;
      search = search;
      sort = sort_of sort;
    })

-- `hashParam`
unfoldable pub hash_param : Text → Option Text
hash_param s = if (length s == 64) && all_hex s then some s else none

-- `numericParam`
unfoldable pub numeric_param : Text → Option ℕ
numeric_param s =
    if all_digits s && leb 1 (length s) && leb (length s) 78 then some (decimal s) else none

-- `versionParam`
unfoldable pub version_param : PageInput → Option ℕ
version_param left_out = none
version_param (natural n) = if leb 1 n && leb n 2147483647 then some n else none
version_param no_natural = none

-- `z.string().min(1).max(64)`
abbrev pub name_param : Text → Option Text
name_param s = if leb 1 (length s) && leb (length s) 64 then some s else none

-- `source` of a fact: the cache by its time of synchronisation, or the chain.
pub data Source : Type 0 where
  cache chain : Source

pub record RequestView : Type 0 where
  pub subject : Text
  pub predicate : Text
  pub object_value : Text
  pub qualifiers : Text
  pub temporal : Text
  pub description : Text
  pub ttl_seconds : ℕ
  pub policy_id : Text
  pub policy_version : ℕ
  pub template_id : Text
  pub template_version : ℕ
  pub status : Text
  pub callback_status : Text

abbrev pub request_view : Option RequestRecord → Option RequestView
request_view none = none
request_view (some r) = some (record {
  subject = r.subject;
  predicate = r.predicate;
  object_value = r.object_value;
  qualifiers = r.qualifiers;
  temporal = r.temporal;
  description = r.description;
  ttl_seconds = r.ttl_seconds;
  policy_id = r.policy_id;
  policy_version = r.policy_version;
  template_id = r.template_id;
  template_version = r.template_version;
  status = r.status;
  callback_status = r.callback_status;
})

pub record FactEnvelope : Type 0 where
  pub fact : FactRecord
  pub current_request : Option RequestView
  pub canonical_resolution : Option ResolutionRecord
  pub latest_resolution : Option ResolutionRecord
  pub is_fresh : Bool
  pub source : Source
  pub synced_at : ℕ
  pub stale : Bool

-- `factEnvelope` of a fact of the cache, whose time is always a valid one.
unfoldable pub fact_envelope : (now : ℕ) → ProjectionFact → FactEnvelope
fact_envelope now i = record {
  fact = i.fact;
  current_request = request_view i.current_request;
  canonical_resolution = i.canonical_resolution;
  latest_resolution = i.latest_resolution;
  is_fresh = fresh_at (now / 1000) i.fact;
  source = cache;
  synced_at = i.synced_at;
  stale = ltb 300000 (now - i.synced_at);
}

-- `factEnvelope` of a fact that was read from the chain now.
unfoldable pub chain_envelope : (now : ℕ) → ChainFact → FactEnvelope
chain_envelope now c = record {
  fact = c.fact;
  current_request = none;
  canonical_resolution = c.canonical_resolution;
  latest_resolution = c.latest_resolution;
  is_fresh = c.fresh;
  source = chain;
  synced_at = now;
  stale = false;
}

pub record ResolutionEnvelope : Type 0 where
  pub resolution : ResolutionRecord
  pub outcome : Text
  pub policy_satisfied : Bool
  pub diagnostic_reason : Text
  pub evidence_manifest_hash : Text
  pub reasoning_summary : Text

unfoldable pub resolution_envelope : ResolutionRecord → ResolutionEnvelope
resolution_envelope r = record {
  resolution = r;
  outcome = r.outcome;
  policy_satisfied = r.policy_satisfied;
  diagnostic_reason = r.diagnostic_reason;
  evidence_manifest_hash = r.evidence_manifest_hash;
  reasoning_summary = r.reasoning_summary;
}

-- `publicSyncStatus`
unfoldable pub public_sync_status : SyncState → SyncState
public_sync_status s = record s {
  last_error = public_index_error s.last_error (same s.status (lit "rate_limited"));
}
