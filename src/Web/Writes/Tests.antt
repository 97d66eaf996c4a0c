-- ===== src/Web/Writes/Tests.antt =====
-- Writes of apps/web/src/lib/writes.ts at concrete answers.
use evidra_protocol.Base.{◌≡◌, refl, true, none, some, [], lit, ok, err}
use evidra_protocol.Web.Writes.{Sdk, Browser, string, Transaction, Pending, reconcile_pending_write}
use evidra_protocol.Web.Writes.Kept.{own}
use evidra_protocol.Web.Writes.Reconciled.{Reconciles, reconcile_pending_write-Reconciles}

abbrev accepted : Transaction
accepted = record {
  status_name = some (lit "FINALIZED");
  status_name_snake = none;
  status = none;
  lifecycle_state = none;
}

-- The decision comes, and the connection is lost before the finalization.
abbrev lost : Sdk
lost = record {
  has_provider = true;
  chain_id = ok 61997;
  create_client = ok tt;
  estimate_transaction_fees = ok tt;
  write_contract = ok (string (lit "0x01"));
  wait_for_decision = λ tx. ok accepted;
  wait_for_finalization = λ tx. err (lit "fetch failed");
  now = lit "2026";
  others = λ await stored. stored;
}

abbrev empty : Browser
empty = record { storage_works = true; stored = none; sent = 0; reported = [] }

abbrev waiting : Pending
waiting = own lost (lit "0xaa") (lit "request_fact") (lit "0x01")

abbrev left : Browser
left = record empty { stored = some waiting }

reconcile_pending_write-Reconciles_example :
    ((reconcile_pending_write lost left).sent ≡ left.sent)
    × Reconciles lost waiting left.stored (reconcile_pending_write lost left)
reconcile_pending_write-Reconciles_example =
    reconcile_pending_write-Reconciles lost waiting left refl refl
