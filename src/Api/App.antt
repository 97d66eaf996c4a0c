-- ===== src/Api/App.antt =====
-- apps/api/src/app.ts: the answer of the readiness route, the answers to errors, and a fact that is
-- read from the chain.
pub mod Answers
mod Tests
use evidra_protocol.Base.{
  ℕ, Bool, true, false, ◌&&◌, ◌||◌, Option, none, some, List, [], ◌∷◌, Text, lit, Result, ok, err,
  ◌>>=◌, one_of, starts_with, leb, ltb, ◌==◌, or_default, if◌then◌else◌,
}
use evidra_protocol.Protocol.Errors.{NormalizedError}
use evidra_protocol.Protocol.Types.{FactRecord, ResolutionRecord}
use evidra_protocol.Api.Indexer.Effects.{IndexerStatus}
use evidra_protocol.Api.Health.{
  Options, ReadMode, State, healthy, rate_limited, unknown, degraded, Monitor, is_ready, is_healthy,
}

-- An answer of the error handler: its status and the code in its `error` field.
pub record Answer : Type 0 where
  pub status : ℕ
  pub error : Option Text

abbrev pub is_rate_limited : State → Bool
is_rate_limited rate_limited = true
is_rate_limited _ = false

-- `publicIndexError`; an empty error is none.
abbrev pub public_index_error : Option Text → (rate_limited : Bool) → Option Text
public_index_error none limited = none
public_index_error (some []) limited = none
public_index_error (some (c ∷ s)) limited =
    some (if limited then lit "rpc_quota" else lit "indexer_unavailable")

-- `readinessError`
abbrev pub readiness_error :
    (ready limited is_healthy : Bool) → (indexer_error : Option Text) → Option Text
readiness_error ready limited is_healthy indexer_error =
    if ready
    then none
    else if limited
    then some (lit "rpc_quota")
    else if is_healthy
    then some (or_default indexer_error (lit "indexer_unavailable"))
    else some (lit "rpc_unavailable")

-- The body of the readiness route, without the id of the request.
pub record ReadyBody : Type 0 where
  pub is_ok : Bool
  pub chain_id : Option ℕ
  pub read_mode : Option ReadMode
  pub state : State
  pub last_rpc_success_at : Option ℕ
  pub last_chain_verification_at : Option ℕ
  pub last_contract_verification_at : Option ℕ
  pub last_indexer_success_at : Option ℕ
  pub error : Option Text
  pub indexer : IndexerStatus

-- What the readiness route sends: a body with the status 200 or 503, or, when something throws, the
-- error `readiness_unavailable` with the status 503.
pub data ReadyAnswer : Type 0 where
  told : (status : ℕ) → ReadyBody → ReadyAnswer
  unavailable : ReadyAnswer

abbrev pub status_of : ReadyAnswer → ℕ
status_of (told status body) = status
status_of unavailable = 503

-- The error that an answer names for the service: `health.error`, or `error` where there is no body.
abbrev pub error_of : ReadyAnswer → Option Text
error_of (told status body) = body.error
error_of unavailable = some (lit "readiness_unavailable")

-- GET /api/v1/ready, where `ping` tells if the database answers and `cooling` is the quota cooldown.
unfoldable pub ready_answer :
    (ping : Bool) → (now : ℕ) → Options → (cooling : Bool) → IndexerStatus → Monitor → ReadyAnswer
ready_answer ping now o cooling i m =
    let ready = is_ready now o i m in
    let limited = is_rate_limited m.snapshot.state || cooling in
    let indexer_error = public_index_error i.last_error limited in
    if ping
    then told (if ready then 200 else 503) (record {
      is_ok = ready;
      chain_id = m.snapshot.chain_id;
      read_mode = m.snapshot.read_mode;
      state = m.snapshot.state;
      last_rpc_success_at = m.snapshot.last_rpc_success_at;
      last_chain_verification_at = m.snapshot.last_chain_verification_at;
      last_contract_verification_at = m.snapshot.last_contract_verification_at;
      last_indexer_success_at = i.last_success_at;
      error = readiness_error ready limited (is_healthy m.snapshot.state) indexer_error;
      indexer = record i { last_error = indexer_error };
    })
    else unavailable

-- What the error handler can receive: a failed validation, a failed read, or another error by its
-- `code` and its `statusCode`.
pub data Failure : Type 0 where
  invalid : Failure
  read_failed : NormalizedError → Failure
  other : (code : Option Text) → (status_code : Option ℕ) → Failure

-- `isDatabaseUnavailable`
abbrev pub is_database_unavailable : Option Text → Bool
is_database_unavailable none = false
is_database_unavailable (some code) =
    one_of
      (lit "ECONNREFUSED"
        ∷ lit "ECONNRESET"
        ∷ lit "ETIMEDOUT"
        ∷ lit "EPIPE"
        ∷ lit "ENOENT"
        ∷ lit "57P01"
        ∷ lit "57P02"
        ∷ lit "57P03"
        ∷ [])
      code
    || starts_with code (lit "08")
    || starts_with code (lit "53")

abbrev pub answer_other : ℕ → Answer
answer_other status =
    if status == 429
    then record { status = 429; error = some (lit "rate_limit_exceeded") }
    else record {
      status = if leb 400 status && ltb status 600 then status else 500;
      error = some (if status == 413 then lit "request_too_large" else lit "internal_error");
    }

-- `setErrorHandler`
unfoldable pub error_answer : Failure → Answer
error_answer invalid = record { status = 400; error = some (lit "invalid_request") }
error_answer (read_failed n) = record {
  status = if n.retryable then 503 else 502;
  error = some (lit "protocol_read_failed");
}
error_answer (other code status_code) =
    if is_database_unavailable code
    then record { status = 503; error = some (lit "read_service_unavailable") }
    else answer_other (or_default status_code 500)

-- The reads of `chainFact`.
pub record FactReads : Type 0 where
  pub get_fact : Text → Result Text FactRecord
  pub get_resolution : ℕ → Result Text ResolutionRecord
  pub is_fact_fresh : Text → Result Text Bool

-- `ProjectionFact` of the chain
pub record ChainFact : Type 0 where
  pub fact : FactRecord
  pub canonical_resolution : Option ResolutionRecord
  pub latest_resolution : Option ResolutionRecord
  pub fresh : Bool

abbrev existing : ResolutionRecord → Option ResolutionRecord
existing r = if r.exists then some r else none

abbrev resolution_at : FactReads → ℕ → Result Text (Option ResolutionRecord)
resolution_at reads id =
    if id == 0 then ok none else reads.get_resolution id >>= λ r. ok (existing r)

abbrev pub latest_id_of : FactRecord → ℕ
latest_id_of fact =
    if fact.latest_resolution_id == 0 then fact.current_resolution_id else fact.latest_resolution_id

abbrev chain_fact_of : FactReads → Text → FactRecord → Result Text (Option ChainFact)
chain_fact_of reads key fact = do
  canonical ← resolution_at reads fact.current_resolution_id
  latest ← resolution_at reads (latest_id_of fact)
  fresh ← reads.is_fact_fresh key
  ok (
      some (record {
        fact = fact;
        canonical_resolution = canonical;
        latest_resolution = latest;
        fresh = fresh;
      }))

-- `chainFact`
unfoldable pub chain_fact : FactReads → Text → Result Text (Option ChainFact)
chain_fact reads key =
    reads.get_fact key >>= λ fact. if fact.exists then chain_fact_of reads key fact else ok none
