-- ===== src/Db/Facts.antt =====
-- `listFacts` of packages/db/src/repository.ts and the other reads of pages. Rows that an order leaves
-- equal stand in the order of their table.
pub mod Sorted
pub mod Grouped
pub mod Listed
use evidra_protocol.Base.{
  ℕ, suc, ◌+◌, Bool, true, false, not, ◌&&◌, ◌||◌, Option, none, some, List, [], ◌∷◌, ◌++◌, map,
  Text, lit, same, to_lower, ltb, leb, ◌==◌, length, take, drop, any, keep_if, find_first,
  if◌then◌else◌,
}
use evidra_protocol.Protocol.Types.{
  RequestRecord, ResolutionRecord, SourcePolicyRecord, TemplateRecord,
}
use evidra_protocol.Db.Table.{order_desc}
use evidra_protocol.Db.{
  Database, FactRow, ResolutionRow, ProjectionFact, has_key, of_fact, record_of,
}
use Sorted.{order_by}

-- A pattern of LIKE: `%`, `_`, and a character, which a backslash can quote.
pub data Token : Type 0 where
  any_run any_one : Token
  exact : ℕ → Token

abbrev token : ℕ → Token
token c = if c == b'%' then any_run else (if c == b'_' then any_one else exact c)

abbrev pub tokens : (quoted : Bool) → Text → List Token
tokens quoted [] = []
tokens true (c ∷ s) = exact c ∷ tokens false s
tokens false (c ∷ s) = if c == 92 then tokens true s else token c ∷ tokens false s

abbrev is_nil : Text → Bool
is_nil [] = true
is_nil (c ∷ s) = false

-- The text from each of its places on.
abbrev suffixes : Text → List Text
suffixes [] = [] ∷ []
suffixes (c ∷ s) = (c ∷ s) ∷ suffixes s

abbrev after_one : (ℕ → Bool) → (Text → Bool) → Text → Bool
after_one test rest [] = false
after_one test rest (c ∷ s) = test c && rest s

abbrev pub like : List Token → Text → Bool
like [] s = is_nil s
like (any_run ∷ p) s = any (suffixes s) (like p)
like (any_one ∷ p) s = after_one (λ c. true) (like p) s
like (exact d ∷ p) s = after_one (λ c. c == d) (like p) s

-- `s ILIKE pattern`
unfoldable pub ilike : Text → (pattern : Text) → Bool
ilike s pattern = like (tokens false (to_lower pattern)) (to_lower s)

-- `sort` of `FactFilters`
pub data FactSort : Type 0 where
  recent by_request : FactSort

pub record FactFilters : Type 0 where
  pub offset : ℕ
  pub limit : ℕ
  pub outcome : Option Text
  pub fresh : Option Bool
  pub policy : Option Text
  pub template : Option Text
  pub mutability : Option Text
  pub search : Option Text
  pub sort : FactSort

-- `if (value) add(…)`: an absent or an empty value is no condition.
abbrev pub where_given : Option Text → (Text → Bool) → Bool
where_given none test = true
where_given (some []) test = true
where_given (some (c ∷ s)) test = test (c ∷ s)

abbrev pub same_flag : Bool → Bool → Bool
same_flag true b = b
same_flag false b = not b

abbrev pub where_fresh : Option Bool → Bool → Bool
where_fresh none b = true
where_fresh (some wanted) b = same_flag wanted b

abbrev request_mentions : Text → RequestRecord → Bool
request_mentions pattern r =
    ilike r.subject pattern
    || ilike r.predicate pattern
    || ilike r.object_value pattern
    || ilike r.description pattern
    || ilike r.policy_id pattern
    || ilike r.template_id pattern

abbrev fact_mentions : List RequestRecord → Text → FactRow → Bool
fact_mentions requests pattern row =
    ilike row.fact.fact_key pattern
    || ilike row.fact.claim_key pattern
    || ilike row.fact.policy_hash pattern
    || ilike row.fact.template_hash pattern
    || any requests (λ r. same r.fact_key row.fact.fact_key && request_mentions pattern r)

-- The WHERE clause.
unfoldable pub passes : FactFilters → List RequestRecord → FactRow → Bool
passes f requests row =
    where_given f.outcome (same row.fact.current_outcome)
    && where_fresh f.fresh row.is_fresh
    && where_given f.policy (same row.fact.policy_hash)
    && where_given f.template (same row.fact.template_hash)
    && where_given f.mutability (same row.fact.mutability)
    && where_given f.search (λ s. fact_mentions requests (lit "%" ++ s ++ lit "%") row)

abbrev pub text_leb : Text → Text → Bool
text_leb [] t = true
text_leb (c ∷ s) [] = false
text_leb (c ∷ s) (d ∷ t) = ltb c d || ((c == d) && text_leb s t)

-- ORDER BY: the first row does not stand behind the second.
abbrev in_order : FactSort → FactRow → FactRow → Bool
in_order by_request a b = leb b.fact.current_request_id a.fact.current_request_id
in_order recent a b =
    ltb b.fact.resolved_at a.fact.resolved_at
    || ((a.fact.resolved_at == b.fact.resolved_at) && text_leb a.fact.fact_key b.fact.fact_key)

abbrev pub page {ℓ} : {A : Type ℓ} → (offset limit : ℕ) → List A → List A
page offset limit rows = take limit (drop offset rows)

unfoldable pub fact_rows : FactFilters → Database → List FactRow
fact_rows f db =
    page f.offset f.limit (order_by (in_order f.sort) (keep_if (passes f db.requests) db.facts))

-- `fact_key = ANY(keys)`, `request_id = ANY(ids)`
abbrev pub is_key_of : List FactRow → Text → Bool
is_key_of rows key = any rows (λ row. same row.fact.fact_key key)

abbrev pub is_request_of : List FactRow → ℕ → Bool
is_request_of rows id = any rows (λ row. row.fact.current_request_id == id)

unfoldable pub head_rows_of : List FactRow → Database → List ResolutionRow
head_rows_of rows db =
    order_desc (λ (r : ResolutionRow). r.resolution.resolution_version)
      (keep_if
        (λ (r : ResolutionRow).
          is_key_of rows r.resolution.fact_key && (r.is_canonical || r.is_latest))
        db.resolutions)

-- `byFact`: the rows of each key, in the order in which they come.
abbrev pub Groups : Type 0
Groups = List (Text × List ResolutionRow)

abbrev pub group_of : Groups → Text → List ResolutionRow
group_of [] key = []
group_of ((k, rows) ∷ gs) key = if same k key then rows else group_of gs key

unfoldable pub push_row : ResolutionRow → Groups → Groups
push_row r [] = (r.resolution.fact_key, r ∷ []) ∷ []
push_row r ((k, rows) ∷ gs) =
    if same k r.resolution.fact_key then (k, rows ++ (r ∷ [])) ∷ gs else (k, rows) ∷ push_row r gs

unfoldable pub group_rows : Groups → List ResolutionRow → Groups
unfolding push_row
group_rows gs [] = gs
group_rows gs (r ∷ rs) = group_rows (push_row r gs) rs

-- `requests`: a Map of the rows that were read, in which the last of an id stays.
abbrev pub or_else {ℓ} : {A : Type ℓ} → Option A → Option A → Option A
or_else none b = b
or_else (some a) b = some a

unfoldable pub find_last {ℓ} : {A : Type ℓ} → (A → Bool) → List A → Option A
find_last test [] = none
find_last test (x ∷ xs) = or_else (find_last test xs) (if test x then some x else none)

unfoldable pub requests_of : List FactRow → Database → List RequestRecord
requests_of rows db = keep_if (λ r. is_request_of rows r.request_id) db.requests

abbrev pub item : Groups → List RequestRecord → FactRow → ProjectionFact
item groups requests row =
    let rows = group_of groups row.fact.fact_key in
    record {
      fact = row.fact;
      current_request = find_last (λ r. r.request_id == row.fact.current_request_id) requests;
      canonical_resolution = record_of (find_first (λ r. r.is_canonical) rows);
      latest_resolution = record_of (find_first (λ r. r.is_latest) rows);
      fresh = row.is_fresh;
      synced_at = row.synced_at;
    }

-- `listFacts`: the items of the page, and how many facts there are in all.
unfoldable pub list_facts : FactFilters → Database → List ProjectionFact × ℕ
list_facts f db =
    let rows = fact_rows f db in
    let groups = group_rows [] (head_rows_of rows db) in
    (map (item groups (requests_of rows db)) rows, length (keep_if (passes f db.requests) db.facts))
