-- ===== src/Scripts/Tests.antt =====
-- The certification scripts with a chain that fails every read, and with one that answers some.
use evidra_protocol.Base.{
  ◌+◌, ◌≡◌, ◌↔◌, true, none, some, map, Text, lit, Result, ok, err, length, keep_if,
}
use evidra_protocol.Db.Data.{config}
use evidra_protocol.Protocol.Json.{Json, leaf}
use evidra_protocol.Protocol.Values.{string}
use evidra_protocol.Protocol.Methods.{public_view_methods}
use evidra_protocol.Protocol.Client.{Deployment, latest_final}
use evidra_protocol.Protocol.Client.Calls.{Call}
use evidra_protocol.Scripts.Certification.{ReadCase, cases, CaseResult, Report, certify}
use evidra_protocol.Scripts.Certification.Complete.{labelled, view_of, certify_complete}
use evidra_protocol.Scripts.ReadCertification.{ReadContract, certify_reads, probe}
use evidra_protocol.Scripts.ReadCertification.Complete.{
  target_of, name_of, is_described, fails, certify_reads_complete,
}
use evidra_protocol.Scripts.ReadCertification.Views.{ViewCall, view_calls}

abbrev verified : Deployment
verified = record { chain_id = 61997; read_mode = latest_final; config = config }

abbrev silent_read : Call → Result Text Json
silent_read c = err (lit "timeout")

certify_complete_example :
    (r : Report) × (certify (λ s. none) (ok verified) silent_read ≡ ok r)
    × (map (λ (c : CaseResult). (c.contract, c.method)) r.results
        ≡ map labelled public_view_methods)
    × (map (λ (c : ReadCase). view_of c.call) (cases (λ s. none)) ≡ map some public_view_methods)
    × (r.total ≡ 64)
    × (r.passed + r.failed ≡ r.total)
    × ((r.exit_code ≡ 0) ↔ (r.failed ≡ 0))
certify_complete_example = certify_complete (λ s. none) verified silent_read

abbrev answering : ReadContract
answering target method args mode = ok (leaf (string method))

certify_reads_complete_example :
    (map name_of (certify_reads answering).results ≡ map labelled public_view_methods)
    × (map (λ (c : ViewCall). (c.target, c.method)) view_calls ≡ map target_of public_view_methods)
    × (map (λ r. is_described r.expected) (certify_reads answering).results
        ≡ map (λ m. true) public_view_methods)
    × ((certify_reads answering).failed
        ≡ length (keep_if (fails answering (probe answering).variant) view_calls))
    × ((certify_reads answering).passed + (certify_reads answering).failed
        ≡ length public_view_methods)
    × (((certify_reads answering).exit_code ≡ 0) ↔ ((certify_reads answering).failed ≡ 0))
certify_reads_complete_example = certify_reads_complete answering
