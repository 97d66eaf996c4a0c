-- ===== src/Api/Routes/Shown.antt =====
-- What the routes of apps/api/src/app.ts show.
use evidra_protocol.Base.{
  ℕ, ◌/◌, ◌≤◌, ◌≡◌, refl, sym, ap, ◌∙◌, subst, Bool, true, false, ◌&&◌, Option, none, some, List,
  [], ◌∷◌, Text, lit, one_of, leb, length, length-map, All, All-map, All-imp, if◌then◌else◌, arith,
  length-take, same, drop,
}
use evidra_protocol.Protocol.Json.Pages.{PageInput, left_out, natural, no_natural}
use mathlib.Core.Option.{some-injective}
use evidra_protocol.Protocol.Types.{RequestRecord}
use evidra_protocol.Db.{
  Database, FactRow, ResolutionRow, fresh_at, refresh_fact_freshness, list_resolutions,
}
use evidra_protocol.Db.Freshness.{refresh_fact_freshness-IsCurrent}
use evidra_protocol.Db.Order.{All-keep_if}
use evidra_protocol.Db.Facts.{
  FactFilters, list_facts, fact_rows, passes, page, where_fresh, same_flag,
}
use evidra_protocol.Db.Facts.Listed.{fact_rows-All, length-fact_rows}
use evidra_protocol.Db.Pages.{Activity, list_policies, list_templates, list_activity}
use evidra_protocol.Api.Routes.{
  Reply, sent, refused, PageQuery, page_schema, FactQuery, fact_query_schema, fact_envelope, parsed,
  enum_param, text_param, ◌>>=?◌, fresh_of, hash_param, resolution_envelope, number_param, both,
}
use evidra_protocol.Api.Routes.Handlers.{
  PageBody, facts_route, fact_resolutions_route, policies_route, templates_route, activity_route,
  paged,
}

-- What a reply sends has the property.
abbrev pub Sends : {A : Type 0} → (A → Type 0) → Reply A → Type 0
Sends P (sent a) = P a
Sends P (refused status error) = Unit

-- What a query is parsed to has the property.
abbrev Parses : {A : Type 0} → (A → Type 0) → Option A → Type 0
Parses P none = Unit
Parses P (some a) = P a

bind-Parses :
    {A B : Type 0} (P : B → Type 0) (m : Option A) (f : A → Option B)
    → ((a : A) → m ≡ some a → Parses P (f a))
    → Parses P (m >>=? f)
bind-Parses P none f h = tt
bind-Parses P (some a) f h = h a refl

enum_param-some :
    (allowed : List Text) (o a : Option Text) (s : Text)
    → o ≡ some s
    → enum_param allowed o ≡ some a
    → a ≡ o
enum_param-some allowed none a s h e = absurd (cc)
enum_param-some allowed (some t) a s h e = either (one_of allowed t) e
  where
    either : (b : Bool) → (if b then some (some t) else none) ≡ some a → a ≡ some t
    either true e = sym (some-injective _ _ e)
    either false e = absurd (cc)

parsed-Sends :
    {A B : Type 0} (P : A → Type 0) (Q : B → Type 0) (m : Option A) (f : A → Reply B)
    → Parses P m
    → ((a : A) → P a → Sends Q (f a))
    → Sends Q (parsed m f)
parsed-Sends P Q none f h k = tt
parsed-Sends P Q (some a) f h k = k a h

same_flag-eq : (b c : Bool) → same_flag b c ≡ true → c ≡ b
same_flag-eq b c h = ground (arith, h)

passes-fresh :
    (f : FactFilters) (rs : List RequestRecord) (row : FactRow) (b : Bool)
    → f.fresh ≡ some b
    → passes f rs row ≡ true
    → row.is_fresh ≡ b
unfolding passes
passes-fresh f rs row b h k =
    same_flag-eq b row.is_fresh (ap (λ o. where_fresh o row.is_fresh) (sym h) ∙ ground (arith, k))

-- The facts of the list were flagged fresh, or were not, as the filter asks.
listed-fresh :
    (f : FactFilters) (b : Bool) (now : ℕ) (db : Database)
    → f.fresh ≡ some b
    → All (λ i. fresh_at now i.fact ≡ b) (list_facts f (refresh_fact_freshness now db).1).0
unfolding list_facts
listed-fresh f b now db h =
    let stored = (refresh_fact_freshness now db).1 in
    All-map _ _ _ (
      fact_rows-All f stored (λ row. fresh_at now row.fact ≡ b)
        (All-keep_if _ (passes f stored.requests) stored.facts (
          All-imp stored.facts (λ row e k. sym e ∙ passes-fresh f stored.requests row b h k)
            (refresh_fact_freshness-IsCurrent now db).0)))

-- The limit that a page is read with.
both-Parses : (m n : Option ℕ) → Parses (λ k. k ≤ 50) n → Parses (λ p. p.1 ≤ 50) (both m n)
both-Parses none n h = tt
both-Parses (some i) none h = tt
both-Parses (some i) (some j) h = h

page_schema-limit : (q : PageQuery) → Parses (λ p. p.1 ≤ 50) (page_schema q)
unfolding page_schema
page_schema-limit q = both-Parses (number_param 0 1000000 0 q.offset) _ (either q.limit)
  where
    in_range :
        (b c : Bool) (n : ℕ)
        → (c ≡ true → n ≤ 50)
        → Parses (λ k. k ≤ 50) (if b && c then some n else none)
    in_range true true n h = h refl
    in_range true false n h = tt
    in_range false c n h = tt

    either : (limit : PageInput) → Parses (λ k. k ≤ 50) (number_param 1 50 20 limit)
    either left_out = omega arith
    either (natural n) = in_range (leb 1 n) (leb n 50) n (λ h. ground (arith, h))
    either no_natural = tt

Parses-some : {A : Type 0} (P : A → Type 0) (m : Option A) (a : A) → Parses P m → m ≡ some a → P a
Parses-some P none a h e = absurd (cc)
Parses-some P (some b) a h e = subst P (some-injective _ _ e) h

-- What a query for facts is read to: a limit of fifty at most, and the freshness that it names.
abbrev IsRead : FactQuery → FactFilters → Type 0
IsRead q f = (f.limit ≤ 50) × ((s : Text) → q.fresh ≡ some s → f.fresh ≡ some (same s (lit "true")))

fact_query_schema-IsRead : (q : FactQuery) → Parses (IsRead q) (fact_query_schema q)
unfolding fact_query_schema
fact_query_schema-IsRead q =
    let P : FactFilters → Type 0 = IsRead q in
    bind-Parses P (page_schema q.page) _ (λ page e0.
      bind-Parses P (enum_param (lit "TRUE" ∷ lit "FALSE" ∷ lit "UNRESOLVED" ∷ []) q.outcome) _
        (λ outcome e1.
          bind-Parses P (enum_param (lit "true" ∷ lit "false" ∷ []) q.fresh) _ (λ fresh e2.
            bind-Parses P (text_param 128 q.policy) _ (λ policy e3.
              bind-Parses P (text_param 128 q.template) _ (λ template e4.
                bind-Parses P (text_param 64 q.mutability) _ (λ mutability e5.
                  bind-Parses P (text_param 256 q.search) _ (λ search e6.
                    bind-Parses P (enum_param (lit "recent" ∷ lit "request" ∷ []) q.sort) _
                      (λ order e7. (
                        Parses-some (λ p. p.1 ≤ 50) (page_schema q.page) page
                            (page_schema-limit q.page) e0,
                        λ s h. ap fresh_of (
                            enum_param-some (lit "true" ∷ lit "false" ∷ []) q.fresh fresh s h e2
                            ∙ h),
                      )))))))))

-- When the freshness flags are refreshed at the second of a request for a list of facts that names a
-- freshness, each fact that it is sent has that freshness in its envelope.
pub facts_route-fresh :
    (now : ℕ) (q : FactQuery) (s : Text) (db : Database)
    → q.fresh ≡ some s
    → Sends
        (λ body. All (λ e. e.is_fresh ≡ same s (lit "true")) body.items)
        (facts_route now q (refresh_fact_freshness (now / 1000) db).1)
unfolding facts_route fact_envelope
facts_route-fresh now q s db h =
    parsed-Sends (IsRead q) _ (fact_query_schema q) _ (fact_query_schema-IsRead q) (λ f e.
      All-map _ (fact_envelope now) _
        (listed-fresh f (same s (lit "true")) (now / 1000) db (e.1 s h)))

-- A page holds at most fifty items.
abbrev pub IsShort : {A : Type 0} → PageBody A → Type 0
IsShort body = length body.items ≤ 50

paged-IsShort :
    {A : Type 0} (q : PageQuery) (list : ℕ → ℕ → List A × ℕ)
    → ((offset limit : ℕ) → length (list offset limit).0 ≤ limit)
    → Sends IsShort (paged q list)
paged-IsShort q list h =
    parsed-Sends (λ p. p.1 ≤ 50) IsShort (page_schema q) _ (page_schema-limit q)
      (λ p k. omega (arith, k, h p.0 p.1))

page-length {ℓ} :
    {A : Type ℓ} (offset limit : ℕ) (xs : List A) → length (page offset limit xs) ≤ limit
page-length offset limit xs = omega (arith, length-take limit (drop offset xs))

list_resolutions-length :
    (key : Text) (offset limit : ℕ) (db : Database)
    → length (list_resolutions key offset limit db).0 ≤ limit
unfolding list_resolutions
list_resolutions-length key offset limit db =
    subst (λ n. n ≤ limit) (sym (length-map (λ (r : ResolutionRow). r.resolution) _))
      (page-length offset limit _)

list_facts-length : (f : FactFilters) (db : Database) → length (list_facts f db).0 ≤ f.limit
unfolding list_facts
list_facts-length f db =
    let rows = fact_rows f db in
    subst (λ n. n ≤ f.limit) (sym (length-map _ rows)) (omega (arith, length-fact_rows f db))

any_Parses : {A : Type 0} (m : Option A) → Parses (λ a. Unit {0}) m
any_Parses none = tt
any_Parses (some a) = tt

-- A page of facts, resolutions, policies, templates or activity that is sent has at most fifty items,
-- whatever limit the query names.
pub routes-IsShort :
    (sorted : List Activity → List Activity) (now : ℕ) (f : FactQuery) (key : Text) (q : PageQuery)
    (db : Database)
    → Sends IsShort (facts_route now f db)
      × Sends IsShort (fact_resolutions_route key q db)
      × Sends IsShort (policies_route q db)
      × Sends IsShort (templates_route q db)
      × Sends IsShort (activity_route sorted q db)
unfolding policies_route templates_route activity_route fact_resolutions_route facts_route
    list_policies list_templates list_activity
routes-IsShort sorted now f key q db = (
  parsed-Sends (IsRead f) IsShort (fact_query_schema f) _ (fact_query_schema-IsRead f) (λ g h.
      subst (λ n. n ≤ 50) (sym (length-map (fact_envelope now) (list_facts g db).0))
        (omega (arith, h.0, list_facts-length g db))),
  parsed-Sends (λ k. Unit {0}) IsShort (hash_param key) _ (any_Parses (hash_param key))
      (λ k u. paged-IsShort q _ (λ offset limit.
        subst (λ n. n ≤ limit) (sym (length-map resolution_envelope _))
          (list_resolutions-length k offset limit db))),
  paged-IsShort q _ (λ offset limit. page-length offset limit _),
  paged-IsShort q _ (λ offset limit. page-length offset limit _),
  paged-IsShort q _ (λ offset limit. page-length offset limit _),
)
