-- ===== src/Api/Routes/Tests.antt =====
-- The routes of apps/api/src/app.ts at concrete queries.
use evidra_protocol.Base.{◌/◌, ◌≡◌, refl, none, some, lit, same, All}
use evidra_protocol.Db.{refresh_fact_freshness}
use evidra_protocol.Db.Data.{database}
use evidra_protocol.Protocol.Json.Pages.{left_out, natural}
use evidra_protocol.Api.Routes.{PageQuery, FactQuery}
use evidra_protocol.Api.Routes.Handlers.{facts_route}
use evidra_protocol.Api.Routes.Shown.{Sends, facts_route-fresh}

abbrev first_page : PageQuery
first_page = record { offset = left_out; limit = natural 50 }

abbrev only_stale : FactQuery
only_stale = record {
  page = first_page;
  outcome = none;
  fresh = some (lit "false");
  policy = none;
  template = none;
  mutability = none;
  search = some (lit " ab ");
  sort = none;
}

facts_route-fresh_example :
    Sends
      (λ body. All (λ e. e.is_fresh ≡ same (lit "false") (lit "true")) body.items)
      (facts_route 400000 only_stale (refresh_fact_freshness (400000 / 1000) database).1)
facts_route-fresh_example = facts_route-fresh 400000 only_stale (lit "false") database refl
