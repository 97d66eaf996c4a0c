-- ===== src/Api/Indexer/Checkpoint.antt =====
-- What a pass of `syncOnce` of apps/api/src/indexer.ts leaves of the stored checkpoint when it fails.
use evidra_protocol.Base.{
  ℕ, ◌≡◌, refl, sym, ◌∙◌, ap, Bool, true, false, Option, none, some, Text, Result, ok, err,
  if◌then◌else◌,
}
use evidra_protocol.Db.{Database, SyncState, SyncPatch, Counts, set_sync_status, patch_row}
use evidra_protocol.Api.Indexer.Effects.{World, Action, ◌>>=◌}
use evidra_protocol.Api.Indexer.Keeps.{
  Keeps, FailKeeps, bind_fails, store_fails, store-indexer, bind_keeps, lift_keeps, update_keeps,
  store_keeps, query_keeps, attempt_keeps,
}
use evidra_protocol.Api.Indexer.{
  Options, Chain, Clock, sync_once, sync_pass, begin, on_failure, caught, released, started_patch,
  failed_patch,
}
use evidra_protocol.Api.Indexer.Untouched.{gather_from_keeps}

-- Where the next pass starts.
pub record Position : Type 0 where
  pub counts : Counts
  pub last_request_id : ℕ
  pub last_resolution_id : ℕ

abbrev pub place_of : SyncState → Position
place_of s = record {
  counts = s.counts;
  last_request_id = s.last_request_id;
  last_resolution_id = s.last_resolution_id;
}

abbrev pub position_in : Option SyncState → Option Position
position_in none = none
position_in (some s) = some (place_of s)

abbrev pub position : Database → Option Position
position db = position_in db.sync

module _ (chain : Chain) (o : Options) (clock : Clock) (c : Option Position) where
  abbrev Stays : {A : Type 0} → Action A → Type 0
  Stays m = Keeps (λ db. position db ≡ c) m

  set_keeps :
      (now : ℕ) (p : SyncPatch)
      → p.counts ≡ none
      → p.last_request_id ≡ none
      → p.last_resolution_id ≡ none
      → (db : Database) → position db ≡ c
      → position (set_sync_status now p db) ≡ c
  unfolding set_sync_status
  set_keeps now p x y z db h = row db.sync ∙ h
    where
      row : (s : Option SyncState) → position_in (patch_row now p s) ≡ position_in s
      row none = refl
      row (some s) = rw (x, y, z)

  sync_pass_fails : FailKeeps (λ db. position db ≡ c) (sync_pass chain o clock)
  unfolding sync_pass
  sync_pass_fails = bind_fails (query_keeps _) λ s.
      bind_fails (gather_from_keeps chain o clock (λ r. position_in r ≡ c) s) λ p. store_fails _

  pub begin_keeps : Stays (begin chain o clock)
  unfolding begin started_patch
  begin_keeps =
      bind_keeps (update_keeps _) λ a. attempt_keeps (store_keeps _ (set_keeps _ _ refl refl refl))

  on_failure_keeps : (message : Text) → Stays (on_failure chain o clock message)
  unfolding on_failure failed_patch
  on_failure_keeps message = bind_keeps (update_keeps _) λ a.
      bind_keeps (attempt_keeps (store_keeps _ (set_keeps _ _ refl refl refl))) λ b. lift_keeps _

-- What a failed pass has left, `w` being the state before it.
pub record IsAborted (w : World) (message : Text) (after : World) : Type 0 where
  pub position_kept : position after.db ≡ position w.db
  pub released : after.indexer.syncing ≡ false
  pub stopped : after.indexer.status.running ≡ false
  pub reported : after.indexer.status.last_error ≡ some message

abbrev Aborts : World → Result Text (Unit {0}) × World → Type 0
Aborts w p = (message : Text) → p.0 ≡ err message → IsAborted w message p.1

if_Aborts :
    (w : World) (b : Bool) (p q : Result Text (Unit {0}) × World)
    → Aborts w p
    → Aborts w q
    → Aborts w (if b then p else q)
if_Aborts w true p q k l = k
if_Aborts w false p q k l = l

module _ (chain : Chain) (o : Options) (clock : Clock) where
  on_failure_lem :
      (e : Text) (w : World)
      → (on_failure chain o clock e w).1.indexer.status.running ≡ false
        × (on_failure chain o clock e w).1.indexer.status.last_error ≡ some e
  unfolding on_failure ◌>>=◌
  on_failure_lem e w = (
    ap (λ i. i.status.running) (store-indexer _ _),
    ap (λ i. i.status.last_error) (store-indexer _ _),
  )

  pub on_failure-err : (e : Text) (w : World) → (on_failure chain o clock e w).0 ≡ err e
  unfolding on_failure ◌>>=◌
  on_failure-err e w = refl

  abort :
      (w : World) (p : Result Text (Unit {0}) × World)
      → ((e : Text) → p.0 ≡ err e → position p.1.db ≡ position w.db)
      → Aborts w (released chain o clock (caught chain o clock p))
  abort w (ok u, v) k message x = absurd (cc)
  abort w (err e, v) k message x =
      let same_error : err e ≡ err message = sym (on_failure-err e v) ∙ x in
      record {
        position_kept = (on_failure_keeps chain o clock (position w.db) e).at v (k e refl);
        released = refl;
        stopped = (on_failure_lem e v).0;
        reported = (on_failure_lem e v).1 ∙ cc;
      }

-- A pass that throws leaves the checkpoint as it was: neither the ids nor the event counts from which
-- the next pass goes on have moved, whichever read or write failed. The indexer takes the next pass,
-- does not count as running, and reports the error.
pub sync_once-IsAborted :
    (chain : Chain) (o : Options) (clock : Clock) (w : World) (message : Text)
    → (sync_once chain o clock w).0 ≡ err message
    → IsAborted w message (sync_once chain o clock w).1
unfolding sync_once
sync_once-IsAborted chain o clock w =
    if_Aborts w w.indexer.syncing _ _ (λ m x. absurd (cc))
      (if_Aborts w chain.cooling_at_start _ _ (λ m x. absurd (cc))
        (abort chain o clock w (sync_pass chain o clock (begin chain o clock w).1) (λ m x.
          (sync_pass_fails chain o clock (position w.db)).at _ m
            ((begin_keeps chain o clock (position w.db)).at w refl) x)))
