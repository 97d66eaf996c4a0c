-- ===== src/Api/App/Answers.antt =====
-- The answers of apps/api/src/app.ts.
use evidra_protocol.Base.{
  ℕ, ◌≤◌, ◌<◌, ◌≡◌, ◌≢◌, ◌↔◌, ◌⊎◌, inl, inr, [], ◌∷◌, refl, Bool, true, false, ◌&&◌, ◌||◌, Option,
  none, some, Text, lit, arith, or_default, leb, ltb, ◌==◌, if◌then◌else◌,
}
use evidra_protocol.Api.Indexer.Effects.{IndexerStatus}
use evidra_protocol.Api.Health.{Options, Monitor, is_ready, is_healthy}
use evidra_protocol.Api.App.{
  is_rate_limited, Answer, ReadyAnswer, told, unavailable, status_of, error_of, Failure, invalid,
  read_failed, other, ready_answer, error_answer, is_database_unavailable, readiness_error,
  public_index_error,
}

readiness_error-none :
    (ready limited healthy : Bool) (e : Option Text)
    → (readiness_error ready limited healthy e ≡ none) ↔ (ready ≡ true)
readiness_error-none true l h e = (λ x. refl, λ x. refl)
readiness_error-none false true h e = (λ x. absurd (cc), λ x. absurd (cc))
readiness_error-none false false true e = (λ x. absurd (cc), λ x. absurd (cc))
readiness_error-none false false false e = (λ x. absurd (cc), λ x. absurd (cc))

-- The error of the indexer that an answer shows is one of two codes.
abbrev pub IsPublic : Option Text → Type 0
IsPublic none = Unit
IsPublic (some s) = (s ≡ lit "rpc_quota") ⊎ (s ≡ lit "indexer_unavailable")

abbrev pub ShowsPublic : ReadyAnswer → Type 0
ShowsPublic (told status body) = IsPublic body.indexer.last_error
ShowsPublic unavailable = Unit

public_index_error-IsPublic :
    (e : Option Text) (limited : Bool) → IsPublic (public_index_error e limited)
public_index_error-IsPublic none l = tt
public_index_error-IsPublic (some []) l = tt
public_index_error-IsPublic (some (c ∷ s)) true = inl refl
public_index_error-IsPublic (some (c ∷ s)) false = inr refl

abbrev ready_status : Bool → ℕ
ready_status ready = if ready then 200 else 503

answered :
    (ready : Bool) (e : Option Text)
    → (e ≡ none) ↔ (ready ≡ true)
    → ((ready_status ready ≡ 200) ↔ (ready ≡ true)) × ((ready_status ready ≡ 200) ↔ (e ≡ none))
answered true e (f, g) = ((λ x. refl, λ x. refl), (λ x. g refl, λ x. refl))
answered false e (f, g) = (
  (λ x. absurd (omega (arith, x)), λ x. absurd (cc)),
  (λ x. absurd (omega (arith, x)), λ x. (let h : ◌≡◌ {A = Bool} false true = f x in absurd (cc))),
)

-- The readiness route answers 200 exactly when the database answers and the monitor is ready, and
-- exactly then it names no error for the service. Of an error of the indexer it shows only a code.
pub ready_answer-ok :
    (ping : Bool) (now : ℕ) (o : Options) (cooling : Bool) (i : IndexerStatus) (m : Monitor)
    → ((status_of (ready_answer ping now o cooling i m) ≡ 200)
        ↔ ((ping && is_ready now o i m) ≡ true))
      × ((status_of (ready_answer ping now o cooling i m) ≡ 200)
          ↔ (error_of (ready_answer ping now o cooling i m) ≡ none))
      × ShowsPublic (ready_answer ping now o cooling i m)
unfolding ready_answer
ready_answer-ok false now o cooling i m = (
  (λ x. absurd (omega (arith, x)), λ x. absurd (cc)),
  (λ x. absurd (omega (arith, x)), λ x. absurd (cc)),
  tt,
)
ready_answer-ok true now o cooling i m =
    let limited = is_rate_limited m.snapshot.state || cooling in
    let (sent, named) = answered (is_ready now o i m) _ (
      readiness_error-none (is_ready now o i m) limited (is_healthy m.snapshot.state)
        (public_index_error i.last_error limited)) in
    (sent, named, public_index_error-IsPublic i.last_error limited)

abbrev IsError : Answer → Type 0
IsError a = (400 ≤ a.status) × (a.status < 600) × (a.error ≢ none)

if_IsError : (b : Bool) (x y : Answer) → IsError x → IsError y → IsError (if b then x else y)
if_IsError true x y h k = h
if_IsError false x y h k = k

status_bounds :
    (s : ℕ)
    → (400 ≤ (if leb 400 s && ltb s 600 then s else 500))
      × ((if leb 400 s && ltb s 600 then s else 500) < 600)
status_bounds s = (ground arith, ground arith)

-- Every answer to an error has a status from 400 to 599 and an error code, whatever status the error
-- carries.
pub error_answer_bounds :
    (f : Failure)
    → (400 ≤ (error_answer f).status)
      × ((error_answer f).status < 600)
      × ((error_answer f).error ≢ none)
unfolding error_answer
error_answer_bounds invalid = (omega arith, omega arith, λ x. absurd (cc))
error_answer_bounds (read_failed n) = (ground arith, ground arith, λ x. absurd (cc))
error_answer_bounds (other code status) =
    if_IsError (is_database_unavailable code) _ _ (omega arith, omega arith, λ x. absurd (cc))
      (if_IsError (or_default status 500 == 429) _ _ (omega arith, omega arith, λ x. absurd (cc))
        (let (a, b) = status_bounds (or_default status 500) in (a, b, λ x. absurd (cc))))
