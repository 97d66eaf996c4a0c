-- ===== src/Protocol/Client/InFlight/Tests.antt =====
-- A shared read of packages/protocol/src/client.ts.
use evidra_protocol.Base.{◌≡◌, refl, none, [], ◌∷◌, lit}
use evidra_protocol.Protocol.Constants.{registry}
use evidra_protocol.Protocol.Client.{latest_final, latest_nonfinal}
use evidra_protocol.Protocol.Client.Calls.{Call, bigint_arg}
use evidra_protocol.Protocol.Client.InFlight.{
  ReadState, no_reads, start, begun, raw_read, reads, at_start, then_step,
}
use evidra_protocol.Protocol.Client.InFlight.Shared.{raw_read-shared}

abbrev status_call : Call
status_call = record {
  contract = registry;
  function_name = lit "get_request_status";
  args = bigint_arg 3 ∷ [];
}

abbrev status_read : ReadState
status_read = (start status_call latest_final none no_reads).1

raw_read-shared_example : raw_read status_call latest_nonfinal status_read ≡ (0, status_read)
unfolding raw_read
raw_read-shared_example =
    raw_read-shared 0 (begun status_call latest_final) status_call latest_nonfinal
      (then_step at_start (reads status_call latest_final no_reads)) refl refl refl
