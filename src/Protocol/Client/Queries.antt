-- ===== src/Protocol/Client/Queries.antt =====
-- The methods of the contract clients in packages/protocol/src/client.ts: the checks of their inputs,
-- the call that they read, and the decoder of its answer. Numbers that are passed in are natural.
pub mod PolicyRegistry
pub mod Registry
pub mod Resolver
pub mod ConsumerProbe
use evidra_protocol.Base.{
  ℕ, Bool, true, false, not, ◌&&◌, ◌||◌, Option, none, some, List, [], ◌∷◌, Text, lit, Result, ok,
  err, ◌>>=◌, ◌>>◌, ensure, ltb, ◌==◌, length, if◌then◌else◌,
}
use evidra_protocol.Protocol.Values.{Value, Record, get, trim, text, flag, to_big_int, to_number}
use evidra_protocol.Protocol.Constants.{ContractName, assert_address, all_hex}
use evidra_protocol.Protocol.Json.{
  Json, leaf, bigint, array, object, value_of, record_of, json_text,
}
use evidra_protocol.Protocol.Client.Calls.{Arg, Call}

abbrev is_nil : Text → Bool
is_nil [] = true
is_nil (c ∷ s) = false

-- `inputText`
unfoldable pub input_text : Text → (field : Text) → (max : ℕ) → Result Text Text
unfolding trim
input_text s field max = if is_nil (trim s) || ltb max (length s) then err field else ok s

-- The empty text, or a text that is checked.
unfoldable pub input_optional : Text → (field : Text) → (max : ℕ) → Result Text Text
unfolding input_text
input_optional [] field max = ok []
input_optional (c ∷ s) field max = input_text (c ∷ s) field max

-- `inputVersion`
unfoldable pub input_version : ℕ → (field : Text) → Result Text ℕ
input_version n field = if ltb n 1 then err field else ok n

-- `inputFactKey`
unfoldable pub input_fact_key : Text → Result Text Text
input_fact_key s =
    if (length s == 64) && all_hex s then ok s else err (lit "factKey must be a 32-byte hex string")

-- `record`
unfoldable pub record_from : Json → (method : Text) → Result Text Record
record_from (object fs) method = ok (record_of fs)
record_from (array xs) method = err method
record_from (leaf v) method = err method
record_from (bigint n) method = err method

pub record OwnershipView : Type 0 where
  pub owner : Text
  pub pending_owner : Text

-- `normalizeOwnership`
unfoldable pub normalize_ownership : Record → Result Text OwnershipView
normalize_ownership r = do
  owner ← assert_address (get r (lit "owner")) (lit "ownership.owner")
  pending_owner ← assert_address (get r (lit "pending_owner")) (lit "ownership.pending_owner")
  ok (record { owner = owner; pending_owner = pending_owner })

pub record ResolverCapabilities : Type 0 where
  pub version : Text
  pub registry : Text
  pub web_access : Bool
  pub llm_access : Bool
  pub source_isolation : Bool
  pub injection_hardened : Bool
  pub equivalence : Text

-- `normalizeCapabilities`
unfoldable pub normalize_capabilities : Record → Result Text ResolverCapabilities
normalize_capabilities r = do
  registry_address ← assert_address (get r (lit "registry")) (lit "capabilities.registry")
  ok (record {
    version = text (get r (lit "version"));
    registry = registry_address;
    web_access = flag (get r (lit "web_access"));
    llm_access = flag (get r (lit "llm_access"));
    source_isolation = flag (get r (lit "source_isolation"));
    injection_hardened = flag (get r (lit "injection_hardened"));
    equivalence = text (get r (lit "equivalence"));
  })

-- A method of a client: the call that it reads, and what it makes of the answer.
pub record Query (A : Type 0) : Type 0 where
  pub call : Result Text Call
  pub decode : Json → Result Text A

abbrev pub query : {A : Type 0} → Result Text Call → (Json → Result Text A) → Query A
query call decode = record { call = call; decode = decode }

abbrev pub read : ContractName → (function_name : Text) → List Arg → Call
read contract function_name args = record {
  contract = contract;
  function_name = function_name;
  args = args;
}

-- A method over the answers of `rawRead`.
unfoldable pub run_query : {A : Type 0} → (Call → Result Text Json) → Query A → Result Text A
run_query raw_read q = do call ← q.call; answer ← raw_read call; q.decode answer

abbrev pub text_of : Json → Result Text Text
text_of x = ok (text (value_of x))

abbrev pub flag_of : Json → Result Text Bool
flag_of x = ok (flag (value_of x))

abbrev pub number_of : (field : Text) → Json → Result Text ℕ
number_of field x = to_number (value_of x) field

abbrev pub integer_of : (field : Text) → Json → Result Text ℕ
integer_of field x = to_big_int (value_of x) field

abbrev pub address_of : (field : Text) → Json → Result Text Text
address_of field x = assert_address (value_of x) field

abbrev pub decoded :
    {A : Type 0} → (method : Text) → (Record → Result Text A) → Json → Result Text A
decoded method normalize x = do r ← record_from x method; normalize r
