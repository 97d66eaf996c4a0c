-- ===== src/Db/Pages.antt =====
-- The reads of policies, templates, evidence, activity and counts of
-- packages/db/src/repository.ts. Rows that an order leaves equal stand in the order of their table.
use evidra_protocol.Base.{
  ℕ, ◌+◌, Bool, true, ◌&&◌, Option, none, some, List, ◌++◌, map, Text, lit, same, leb, ◌==◌, length,
  keep_if, find_first, if◌then◌else◌,
}
use evidra_protocol.Protocol.Types.{
  RequestRecord, SourcePolicyRecord, TemplateRecord, EvidenceEntry,
}
use evidra_protocol.Db.{Database, ResolutionRow, EvidenceRow, ProtocolState}
use evidra_protocol.Db.Facts.{page, text_leb}
use evidra_protocol.Db.Facts.Sorted.{order_by}

-- `getEvidence`, by ordinal
unfoldable pub get_evidence : ℕ → Database → List EvidenceEntry
get_evidence id db =
    map (λ (e : EvidenceRow). e.entry)
      (order_by (λ (a b : EvidenceRow). leb a.ordinal b.ordinal)
        (keep_if (λ (e : EvidenceRow). e.resolution_id == id) db.evidence))

-- ORDER BY a text, version
abbrev by_version : (Text × ℕ) → (Text × ℕ) → Bool
by_version (s, m) (t, n) = (text_leb s t && (if same s t then leb m n else true))

unfoldable pub list_policies : (offset limit : ℕ) → Database → List SourcePolicyRecord × ℕ
list_policies offset limit db = (
  page offset limit (
      order_by
        (λ (a b : SourcePolicyRecord). by_version (a.policy_id, a.version) (b.policy_id, b.version))
        db.policies),
  length db.policies,
)

unfoldable pub get_policy : Text → ℕ → Database → Option SourcePolicyRecord
get_policy id version db =
    find_first (λ (p : SourcePolicyRecord). same p.policy_id id && (p.version == version))
      db.policies

unfoldable pub list_templates : (offset limit : ℕ) → Database → List TemplateRecord × ℕ
list_templates offset limit db = (
  page offset limit (
      order_by
        (λ (a b : TemplateRecord). by_version (a.template_id, a.version) (b.template_id, b.version))
        db.templates),
  length db.templates,
)

unfoldable pub get_template : Text → ℕ → Database → Option TemplateRecord
get_template id version db =
    find_first (λ (t : TemplateRecord). same t.template_id id && (t.version == version))
      db.templates

-- What `getStats` counts.
pub record TableCounts : Type 0 where
  pub facts : ℕ
  pub requests : ℕ
  pub resolutions : ℕ
  pub policies : ℕ
  pub templates : ℕ

unfoldable pub get_stats : Database → TableCounts
get_stats db = record {
  facts = length db.facts;
  requests = length db.requests;
  resolutions = length db.resolutions;
  policies = length db.policies;
  templates = length db.templates;
}

-- A row of the feed; `activity_type` tells a request from a resolution.
pub record Activity : Type 0 where
  pub activity_type : Text
  pub activity_id : ℕ
  pub occurred_at : ℕ
  pub fact_key : Text
  pub request_id : ℕ
  pub resolution_id : Option ℕ
  pub status : Option Text
  pub outcome : Option Text

abbrev pub request_created : RequestRecord → Activity
request_created r = record {
  activity_type = lit "request_created";
  activity_id = r.request_id;
  occurred_at = r.created_at;
  fact_key = r.fact_key;
  request_id = r.request_id;
  resolution_id = none;
  status = some r.status;
  outcome = none;
}

abbrev pub resolution_committed : ResolutionRow → Activity
resolution_committed row = record {
  activity_type = lit "resolution_committed";
  activity_id = row.resolution.resolution_id;
  occurred_at = row.resolution.committed_at;
  fact_key = row.resolution.fact_key;
  request_id = row.resolution.request_id;
  resolution_id = some row.resolution.resolution_id;
  status = none;
  outcome = some row.resolution.outcome;
}

-- UNION ALL
abbrev pub all_activity : Database → List Activity
all_activity db = map request_created db.requests ++ map resolution_committed db.resolutions

-- The query of a page, where `sorted` is what the database makes of
-- `ORDER BY occurred_at DESC, activity_id DESC` in this query: a request and a resolution of equal time
-- and id have no order by it, and another query can put them the other way round.
unfoldable pub list_activity :
    (sorted : List Activity → List Activity) → (offset limit : ℕ) → Database → List Activity × ℕ
list_activity sorted offset limit db =
    (page offset limit (sorted (all_activity db)), length db.requests + length db.resolutions)

unfoldable pub get_protocol_state : Database → Option ProtocolState
get_protocol_state db = db.protocol_state
