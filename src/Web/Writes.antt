-- ===== src/Web/Writes.antt =====
-- apps/web/src/lib/writes.ts: a write that the user's wallet submits, the record of it in the browser's
-- storage, and its reconciliation later. The texts for display (`detail`) are left out.
pub mod Kept
pub mod Reconciled
mod Tests
use evidra_protocol.Base.{
  ℕ, zero, suc, ◌+◌, Bool, true, false, ◌||◌, Option, none, some, List, [], ◌∷◌, Text, lit, Result,
  ok, err, same, includes, map, ◌==◌, find_first, or_default, if◌then◌else◌,
}
use evidra_protocol.Base.{upper_unit}

-- `WriteStage`
pub data Stage : Type 0 where
  preparing wallet submitted consensus decided finalizing finalized failed : Stage

-- `WriteProgress`
pub record Progress : Type 0 where
  pub method : Text
  pub stage : Stage
  pub tx_id : Option Text

-- What `readPendingWrite` returns.
pub record Pending : Type 0 where
  pub method : Text
  pub tx_id : Text
  pub account : Text
  pub created_at : Text

-- What the wallet returns for a write: a text, an object by its text fields, or another value.
pub data Returned : Type 0 where
  string : Text → Returned
  object : List (Text × Text) → Returned
  other : Returned

-- The fields of a transaction that tell its status.
pub record Transaction : Type 0 where
  pub status_name : Option Text
  pub status_name_snake : Option Text
  pub status : Option Text
  pub lifecycle_state : Option Text

-- What a call waits for; while it does, other calls and other tabs run.
pub data Await : Type 0 where
  chain_asked client_made fees_estimated write_asked decision_awaited finalization_awaited : Await

-- The answers of the wallet and of the SDK to one call, whose texts of errors are theirs, and what the
-- other calls and tabs make of the storage while this one waits.
pub record Sdk : Type 0 where
  pub has_provider : Bool
  pub chain_id : Result Text ℕ
  pub create_client : Result Text (Unit {0})
  pub estimate_transaction_fees : Result Text (Unit {0})
  pub write_contract : Result Text Returned
  pub wait_for_decision : Text → Result Text Transaction
  pub wait_for_finalization : Text → Result Text Transaction
  pub now : Text
  pub others : Await → Option Pending → Option Pending

-- The browser as a call sees it: the storage, which all tabs share and which can refuse to work, the
-- writes of this call that the wallet says it sent, and the progress that the call reported, the last
-- one first.
pub record Browser : Type 0 where
  pub storage_works : Bool
  pub stored : Option Pending
  pub sent : ℕ
  pub reported : List Progress

-- `FROZEN_NETWORK.chainId`
abbrev pub frozen_chain_id : ℕ
frozen_chain_id = 61997

abbrev field : List (Text × Text) → Text → Option Text
field [] key = none
field ((k, v) ∷ kvs) key = if same k key then some v else field kvs key

abbrev or_else : Option Text → Option Text → Option Text
or_else (some (c ∷ s)) b = some (c ∷ s)
or_else (some []) b = b
or_else none b = b

-- `transactionId`; an empty text is none.
unfoldable pub transaction_id : Returned → Option Text
transaction_id (string s) = or_else (some s) none
transaction_id (object fs) = or_else (field fs (lit "transaction_hash")) (
    or_else (field fs (lit "transactionHash"))
      (or_else (field fs (lit "hash")) (or_else (field fs (lit "txId")) none)))
transaction_id other = none

abbrev coalesce : Option Text → Option Text → Option Text
coalesce none b = b
coalesce (some s) b = some s

-- `statusName`
pub status_name_of : Transaction → Text
status_name_of t = map upper_unit (
    or_default
      (coalesce t.status_name (coalesce t.status_name_snake (coalesce t.status t.lifecycle_state)))
      [])

-- Either test of a status that did not come through.
unfoldable pub is_refused : Transaction → Bool
is_refused t =
    includes (status_name_of t) (lit "UNDETERMINED")
    || includes (status_name_of t) (lit "TIMEOUT")
    || includes (status_name_of t) (lit "CANCELED")

-- The storage after an await.
abbrev pub awaited : Sdk → Await → Browser → Browser
awaited sdk a b = record b { stored = sdk.others a b.stored }

-- `readPendingWrite`
abbrev pub read_pending : Browser → Option Pending
read_pending b = if b.storage_works then b.stored else none

-- `onProgress`
abbrev pub report : Text → Stage → Option Text → Browser → Browser
report method stage tx b = record b {
  reported = record { method = method; stage = stage; tx_id = tx } ∷ b.reported;
}

-- `persistPendingWrite`
abbrev pub persist : Pending → Browser → Browser
persist p b = if b.storage_works then record b { stored = some p } else b

-- `clearPendingWrite`
abbrev pub clear : Browser → Browser
clear b = if b.storage_works then record b { stored = none } else b

-- The end of a write: its finalization.
abbrev pub after_finalization :
    Text → Text → Result Text Transaction → Browser → Result Text Text × Browser
after_finalization method tx (err e) b = (err e, b)
after_finalization method tx (ok t) b =
    if is_refused t
    then (err (lit "Transaction did not finalize successfully."), report method failed (some tx) b)
    else (ok tx, report method finalized (some tx) (clear b))

abbrev pub after_decision :
    Sdk → Text → Text → Result Text Transaction → Browser → Result Text Text × Browser
after_decision sdk method tx (err e) b = (err e, b)
after_decision sdk method tx (ok t) b =
    if is_refused t
    then (
      err (lit "Transaction did not reach an accepted decision."),
      report method failed (some tx) b,
    )
    else after_finalization method tx (sdk.wait_for_finalization tx) (
        awaited sdk finalization_awaited
          (report method finalizing (some tx) (report method decided (some tx) b)))

-- The wallet has sent the write.
abbrev pub after_id : Sdk → Text → Text → Option Text → Browser → Result Text Text × Browser
after_id sdk account method none b = (err (lit "Wallet returned no transaction identifier."), b)
after_id sdk account method (some tx) b = after_decision sdk method tx (sdk.wait_for_decision tx) (
    awaited sdk decision_awaited (
      report method consensus (some tx) (
        report method submitted (some tx) (
          persist (record { method = method; tx_id = tx; account = account; created_at = sdk.now })
            b))))

abbrev pub after_write :
    Sdk → Text → Text → Result Text Returned → Browser → Result Text Text × Browser
after_write sdk account method (err e) b = (err e, b)
after_write sdk account method (ok raw) b =
    after_id sdk account method (transaction_id raw) (record b { sent = b.sent + 1 })

abbrev pub after_fees :
    Sdk → Text → Text → Result Text (Unit {0}) → Browser → Result Text Text × Browser
after_fees sdk account method (err e) b = (err e, b)
after_fees sdk account method (ok fees) b =
    after_write sdk account method sdk.write_contract
      (awaited sdk write_asked (report method wallet none b))

abbrev pub after_client :
    Sdk → Text → Text → Result Text (Unit {0}) → Browser → Result Text Text × Browser
after_client sdk account method (err e) b = (err e, b)
after_client sdk account method (ok client) b =
    after_fees sdk account method sdk.estimate_transaction_fees (awaited sdk fees_estimated b)

abbrev pub after_pending : Sdk → Text → Text → Option Pending → Browser → Result Text Text × Browser
after_pending sdk account method (some p) b =
    (err (lit "A protocol transaction is already pending"), b)
after_pending sdk account method none b =
    after_client sdk account method sdk.create_client
      (awaited sdk client_made (report method preparing none b))

abbrev pub after_chain : Sdk → Text → Text → Result Text ℕ → Browser → Result Text Text × Browser
after_chain sdk account method (err e) b = (err e, b)
after_chain sdk account method (ok id) b =
    if id == frozen_chain_id
    then after_pending sdk account method (read_pending b) b
    else (err (lit "Wrong network."), b)

-- `submitUserWrite`
unfoldable pub submit_user_write :
    Sdk → (account method : Text) → Browser → Result Text Text × Browser
submit_user_write sdk account method b =
    if sdk.has_provider
    then after_chain sdk account method sdk.chain_id (awaited sdk chain_asked b)
    else (err (lit "Connect a browser wallet before submitting a protocol write."), b)

-- The end of a reconciliation, whose errors are reported and not thrown.
abbrev pub reconcile_finalization : Pending → Result Text Transaction → Browser → Browser
reconcile_finalization p (err e) b = report p.method failed (some p.tx_id) b
reconcile_finalization p (ok t) b =
    if is_refused t
    then report p.method failed (some p.tx_id) b
    else report p.method finalized (some p.tx_id) (clear b)

abbrev pub reconcile_decision : Sdk → Pending → Result Text Transaction → Browser → Browser
reconcile_decision sdk p (err e) b = report p.method failed (some p.tx_id) b
reconcile_decision sdk p (ok t) b =
    if is_refused t
    then report p.method failed (some p.tx_id) b
    else reconcile_finalization p (sdk.wait_for_finalization p.tx_id) (
        awaited sdk finalization_awaited
          (report p.method finalizing (some p.tx_id) (report p.method decided (some p.tx_id) b)))

abbrev pub reconcile_client : Sdk → Pending → Result Text (Unit {0}) → Browser → Browser
reconcile_client sdk p (err e) b = report p.method failed (some p.tx_id) b
reconcile_client sdk p (ok client) b =
    reconcile_decision sdk p (sdk.wait_for_decision p.tx_id)
      (awaited sdk decision_awaited (report p.method consensus (some p.tx_id) b))

abbrev pub reconcile_with : Sdk → Option Pending → Browser → Browser
reconcile_with sdk none b = b
reconcile_with sdk (some p) b = reconcile_client sdk p sdk.create_client (awaited sdk client_made b)

-- `reconcilePendingWrite`
unfoldable pub reconcile_pending_write : Sdk → Browser → Browser
reconcile_pending_write sdk b = reconcile_with sdk (read_pending b) b
