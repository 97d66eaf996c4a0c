-- ===== src/Scripts/ReadCertification.antt =====
-- scripts/read-certification.mjs: the run over the public views and the scenarios. `read_contract`
-- stands for `readContract` of the genlayer-js client; its error is the message. Waiting between the
-- reads, the clock and the files that are written are left out.
pub mod Views
pub mod Semantics
pub mod Complete
use evidra_protocol.Base.{
  ℕ, ◌+◌, ◌-◌, Bool, true, false, Option, none, some, List, [], ◌∷◌, map, Text, lit, Result, ok,
  err, same, leb, length, take, keep_if, if◌then◌else◌,
}
use evidra_protocol.Protocol.Values.{nil, boolean, integer, string}
use evidra_protocol.Protocol.Client.{ReadMode, latest_final, latest_nonfinal}
use evidra_protocol.Protocol.Client.Calls.{
  Arg, text_arg, number_arg, bigint_arg, boolean_arg, number_text,
}
use evidra_protocol.Protocol.Json.{
  Json, leaf, bigint, array, object, Items, no_items, item, Fields, no_fields, field,
}
use evidra_protocol.Scripts.Certification.{exit_code_of}
use Views.{ViewCall, view_calls, Scenario, scenario_calls, policy_address}
use Semantics.{expected_semantics}

-- `normalize`
unfoldable mutual
  pub shown_value : Json → (depth : ℕ) → Json
  shown_value (leaf v) depth = leaf v
  shown_value (bigint n) depth = leaf (string (number_text n))
  shown_value (array xs) depth =
      if leb 8 depth
      then leaf (string (lit "[depth limit]"))
      else array (shown_items xs (depth + 1))
  shown_value (object fs) depth =
      if leb 8 depth
      then leaf (string (lit "[depth limit]"))
      else object (shown_fields fs (depth + 1))

  pub shown_items : Items → (depth : ℕ) → Items
  shown_items no_items depth = no_items
  shown_items (item x xs) depth = item (shown_value x depth) (shown_items xs depth)

  pub shown_fields : Fields → (depth : ℕ) → Fields
  shown_fields no_fields depth = no_fields
  shown_fields (field k x fs) depth = field k (shown_value x depth) (shown_fields fs depth)

-- The arguments as a value.
abbrev arg_value : Arg → Json
arg_value (text_arg s) = leaf (string s)
arg_value (number_arg n) = leaf (integer n (number_text n))
arg_value (bigint_arg n) = bigint n
arg_value (boolean_arg b) = leaf (boolean b)

abbrev args_items : List Arg → Items
args_items [] = no_items
args_items (a ∷ args) = item (arg_value a) (args_items args)

abbrev pub shown_args : List Arg → Json
shown_args args = shown_value (array (args_items args)) 0

abbrev pub lookup : List (Text × Text) → Text → Option Text
lookup [] key = none
lookup ((k, v) ∷ m) key = if same k key then some v else lookup m key

abbrev pub ReadContract : Type 0
ReadContract = (target method : Text) → List Arg → ReadMode → Result Text Json

-- A result of a view or of a scenario: `error` is that of a read that failed, and then `actual` is
-- null.
pub record ReadResult : Type 0 where
  pub contract : Text
  pub method : Text
  pub arguments : Json
  pub expected : Option Text
  pub actual : Json
  pub error : Option Text

abbrev pub read_result : ViewCall → Option Text → Result Text Json → ReadResult
read_result c expected (ok answer) = record {
  contract = c.contract;
  method = c.method;
  arguments = shown_args c.args;
  expected = expected;
  actual = shown_value answer 0;
  error = none;
}
read_result c expected (err e) = record {
  contract = c.contract;
  method = c.method;
  arguments = shown_args c.args;
  expected = expected;
  actual = leaf nil;
  error = some (take 300 e);
}

abbrev pub is_failed : ReadResult → Bool
is_failed r = elim r.error [ none ↦ false | some e ↦ true ]

-- `finalReadProbe`: the variant that the reads use, and the error of the probe.
pub record Probe : Type 0 where
  pub variant : ReadMode
  pub error : Option Text

abbrev probe_of : Result Text Json → Probe
probe_of (ok answer) = record { variant = latest_final; error = none }
probe_of (err e) = record { variant = latest_nonfinal; error = some (take 500 e) }

unfoldable pub probe : ReadContract → Probe
probe read_contract =
    probe_of (read_contract policy_address (lit "get_registry_version") [] latest_final)

unfoldable pub read_view : ReadContract → ReadMode → ViewCall → ReadResult
read_view read_contract mode c =
    read_result c (lookup expected_semantics c.method) (read_contract c.target c.method c.args mode)

pub record ScenarioResult : Type 0 where
  pub scenario : Text
  pub result : ReadResult

unfoldable pub read_scenario : ReadContract → ReadMode → Scenario → ScenarioResult
read_scenario read_contract mode s = record {
  scenario = s.scenario;
  result =
      read_result s.read (some s.expected)
        (read_contract s.read.target s.read.method s.read.args mode);
}

-- `payload`, and the exit code.
pub record Payload : Type 0 where
  pub final_probe : Probe
  pub total : ℕ
  pub passed : ℕ
  pub failed : ℕ
  pub results : List ReadResult
  pub scenarios : List ScenarioResult
  pub exit_code : ℕ

unfoldable pub certify_reads : ReadContract → Payload
unfolding probe read_view read_scenario
certify_reads read_contract =
    let found = probe read_contract in
    let results = map (read_view read_contract found.variant) view_calls in
    let failures = keep_if is_failed results in
    record {
      final_probe = found;
      total = length results;
      passed = length results - length failures;
      failed = length failures;
      results = results;
      scenarios = map (read_scenario read_contract found.variant) scenario_calls;
      exit_code = exit_code_of (length failures);
    }
