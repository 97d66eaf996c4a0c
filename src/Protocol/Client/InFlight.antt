-- ===== src/Protocol/Client/InFlight.antt =====
-- `rawRead` of packages/protocol/src/client.ts: the map of the reads in flight as a step relation. An
-- operation is a job of the scheduler and its promise; its number is its place in the order of starts.
-- Promise handlers run between the steps, so a settled operation stays in the map until its cleanup.
pub mod Shared
mod Tests
use evidra_protocol.Base.{
  ℕ, ◌≡◌, Bool, true, false, not, ◌&&◌, Option, none, some, List, [], ◌∷◌, ◌++◌, Text, Result, ok,
  err, same, ◌==◌, length, get_elem?, set, if◌then◌else◌,
}
use evidra_protocol.Protocol.Errors.{
  Thrown, plain_error, read_error, text, object, NormalizedError, normalize_error,
}
use evidra_protocol.Protocol.Json.{Json}
use evidra_protocol.Protocol.Client.{ReadMode}
use evidra_protocol.Protocol.Client.Calls.{Call, read_key}

abbrev pub Outcome : Type 0
Outcome = Result NormalizedError Json

pub record Operation : Type 0 where
  pub call : Call
  pub mode : ReadMode
  pub outcome : Option Outcome

-- `inflightReads`, and the operations that were started.
pub record ReadState : Type 0 where
  pub in_flight : List (Text × ℕ)
  pub operations : List Operation

abbrev pub no_reads : ReadState
no_reads = record { in_flight = []; operations = [] }

abbrev pub lookup : List (Text × ℕ) → Text → Option ℕ
lookup [] key = none
lookup ((k, n) ∷ m) key = if same k key then some n else lookup m key

unfoldable pub remove : List (Text × ℕ) → Text → List (Text × ℕ)
remove [] key = []
remove ((k, n) ∷ m) key = if same k key then remove m key else (k, n) ∷ remove m key

abbrev pub begun : Call → ReadMode → Operation
begun c mode = record { call = c; mode = mode; outcome = none }

abbrev pub start : Call → ReadMode → Option ℕ → ReadState → ℕ × ReadState
start c mode (some n) s = (n, s)
start c mode none s = (
  length s.operations,
  record {
    in_flight = (read_key c, length s.operations) ∷ s.in_flight;
    operations = s.operations ++ (begun c mode ∷ []);
  },
)

-- `rawRead` returns the operation, and starts it when its key is not in flight.
unfoldable pub raw_read : Call → ReadMode → ReadState → ℕ × ReadState
raw_read c mode s = start c mode (lookup s.in_flight (read_key c)) s

-- The error that the promise is rejected with: a `ProtocolReadError` stays, another is wrapped.
unfoldable pub wrapped : Thrown → NormalizedError
wrapped (read_error n) = n
wrapped (plain_error m p) = normalize_error (plain_error m p)
wrapped (text t) = normalize_error (text t)
wrapped (object j t p) = normalize_error (object j t p)

abbrev pub outcome_of : Result Thrown Json → Outcome
outcome_of (ok v) = ok v
outcome_of (err e) = err (wrapped e)

-- The job of an operation ends.
unfoldable pub settle : ℕ → Operation → Result Thrown Json → ReadState → ReadState
settle n op r s = record s {
  operations = set s.operations n (record op { outcome = some (outcome_of r) });
}

abbrev is_number : ℕ → Option ℕ → Bool
is_number n none = false
is_number n (some m) = m == n

-- `cleanup`
unfoldable pub cleanup : ℕ → Text → ReadState → ReadState
unfolding remove
cleanup n key s =
    if is_number n (lookup s.in_flight key)
    then record s { in_flight = remove s.in_flight key }
    else s

pub data Step : ReadState → ReadState → Type 0 where
  reads : (c : Call) (mode : ReadMode) (s : ReadState) → Step s (raw_read c mode s).1
  settles :
      (n : ℕ) (op : Operation) (r : Result Thrown Json) (s : ReadState)
      → get_elem? s.operations n ≡ some op
      → op.outcome ≡ none
      → Step s (settle n op r s)
  cleans :
      (n : ℕ) (op : Operation) (o : Outcome) (s : ReadState)
      → get_elem? s.operations n ≡ some op
      → op.outcome ≡ some o
      → Step s (cleanup n (read_key op.call) s)

pub data Reachable : ReadState → Type 0 where
  at_start : Reachable no_reads
  then_step : {s t : ReadState} → Reachable s → Step s t → Reachable t
