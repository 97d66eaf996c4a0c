-- ===== src/Scripts/Certification/Complete.antt =====
-- The report of scripts/phase1-read-certification.ts is complete.
use evidra_protocol.Base.{
  ℕ, ◌+◌, ◌≤◌, ◌≡◌, refl, ap, ◌∙◌, ◌↔◌, Bool, Option, none, some, List, [], ◌∷◌, map, Text, lit,
  Result, ok, err, length, keep_if, length-map, to_lower, arith,
}
use evidra_protocol.Protocol.Constants.{
  ContractName, policy_registry, registry, resolver, consumer_probe, assert_address,
}
use evidra_protocol.Protocol.Json.{Json}
use evidra_protocol.Protocol.Json.Pages.{bounded_page}
use evidra_protocol.Protocol.Methods.{PublicViewMethod, public_view_methods}
use evidra_protocol.Protocol.Client.{ReadMode, Deployment}
use evidra_protocol.Protocol.Client.Calls.{Call}
use evidra_protocol.Protocol.Client.Queries.{
  input_text, input_optional, input_version, input_fact_key,
}
use evidra_protocol.Scripts.Certification.{
  ReadCase, cases, CaseResult, result_of, is_failure, Report, exit_code_of, report, certify,
}

-- The name of a contract in the report.
abbrev pub label : ContractName → Text
label policy_registry = lit "EvidraPolicyRegistry"
label registry = lit "EvidraRegistry"
label resolver = lit "EvidraResolver"
label consumer_probe = lit "EvidraConsumerProbe"

abbrev pub labelled : PublicViewMethod → Text × Text
labelled m = (label m.contract, m.function_name)

-- The view that a call reads.
abbrev pub view_of : Result Text Call → Option PublicViewMethod
view_of (ok c) = some (record { contract = c.contract; function_name = c.function_name })
view_of (err e) = none

pub map-map :
    {A B C : Type 0} (f : B → C) (g : A → B) (xs : List A)
    → map f (map g xs) ≡ map (λ x. f (g x)) xs
map-map f g [] = refl
map-map f g (x ∷ xs) = ap (λ t. f (g x) ∷ t) (map-map f g xs)

pub length-keep_if : {A : Type 0} (p : A → Bool) (xs : List A) → length (keep_if p xs) ≤ length xs
length-keep_if p [] = omega arith
length-keep_if p (x ∷ xs) = ground (arith, length-keep_if p xs)

cases-labelled :
    (parse : Text → Option Json)
    → map (λ (c : ReadCase). (c.contract, c.method)) (cases parse)
      ≡ map labelled public_view_methods
cases-labelled parse = refl

pub exit_code_of-zero : (n : ℕ) → (exit_code_of n ≡ 0) ↔ (n ≡ 0)
exit_code_of-zero n = (λ h. ground (arith, h), λ h. ground (arith, h))

report-counts :
    (mode : ReadMode) (results : List CaseResult)
    → ((report mode results).passed + (report mode results).failed ≡ (report mode results).total)
      × (((report mode results).exit_code ≡ 0) ↔ ((report mode results).failed ≡ 0))
report-counts mode results = (
  omega (arith, length-keep_if is_failure results),
  exit_code_of-zero (length (keep_if is_failure results)),
)

-- Each case of the certification builds a call of the view that it is named for, in the order of the
-- public views.
cases-view_of :
    (parse : Text → Option Json)
    → map (λ (c : ReadCase). view_of c.call) (cases parse) ≡ map some public_view_methods
unfolding input_text input_optional input_version input_fact_key assert_address bounded_page
    to_lower
cases-view_of parse = refl

-- Whatever the chain answers, a certification of a verified deployment returns a report: its results
-- name each of the 64 public views in their order, each case builds a call of the view of its name, the
-- passed and failed results add up to all, and the exit code is 0 exactly when none failed.
pub certify_complete :
    (parse : Text → Option Json) (d : Deployment) (raw_read : Call → Result Text Json)
    → (r : Report) × (certify parse (ok d) raw_read ≡ ok r)
      × (map (λ (c : CaseResult). (c.contract, c.method)) r.results
          ≡ map labelled public_view_methods)
      × (map (λ (c : ReadCase). view_of c.call) (cases parse) ≡ map some public_view_methods)
      × (r.total ≡ 64)
      × (r.passed + r.failed ≡ r.total)
      × ((r.exit_code ≡ 0) ↔ (r.failed ≡ 0))
unfolding certify
certify_complete parse d raw_read =
    let results = map (result_of raw_read) (cases parse) in
    let (sum, code) = report-counts d.read_mode results in
    (
      report d.read_mode results,
      refl,
      map-map (λ (c : CaseResult). (c.contract, c.method)) (result_of raw_read) (cases parse)
          ∙ cases-labelled parse,
      cases-view_of parse,
      length-map (result_of raw_read) (cases parse),
      sum,
      code,
    )
