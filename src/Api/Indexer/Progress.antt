-- ===== src/Api/Indexer/Progress.antt =====
-- What a pass of `syncOnce` of apps/api/src/indexer.ts has stored when it returns.
use evidra_protocol.Base.{
  ℕ, ◌+◌, ◌-◌, min, ◌≡◌, refl, sym, ◌∙◌, ap, subst, Bool, true, false, Option, none, some, List, [],
  ◌∷◌, Text, Result, ok, err, or_default, if◌then◌else◌,
}
use evidra_protocol.Protocol.Types.{ProtocolStats}
use evidra_protocol.Db.{
  Database, SyncState, SyncPatch, patch_row, set_sync_status, get_sync_status, read_status,
}
use evidra_protocol.Api.Indexer.Effects.{World, Action, continue, store, query, on_fault, ◌>>=◌}
use evidra_protocol.Api.Indexer.Keeps.{Gives, bind-Gives, lift-Gives, pure-Gives}
use evidra_protocol.Api.Indexer.Ids.{range-last}
use evidra_protocol.Api.Indexer.Untouched.{gather_from_keeps}
use evidra_protocol.Api.Indexer.Checkpoint.{
  Position, position_in, position, place_of, begin_keeps, on_failure-err,
}
use evidra_protocol.Api.Indexer.{
  EventDelta, Options, Chain, Clock, read_event_delta, sync_once, sync_pass, gather_from, begin,
  caught, released,
}

-- From a database where `P` holds, an action that returns leads to a value and a database where `Q`
-- holds.
pub record Does {A : Type 0} (P : Database → Type 0) (Q : A → Database → Type 0) (m : Action A)
    : Type 0 where
  pub at : (w : World) (a : A) → P w.db → (m w).0 ≡ ok a → Q a (m w).1.db

continue_does :
    {A B : Type 0} {Q : A → Database → Type 0} {R : B → Database → Type 0} (f : A → Action B)
    (r : Result Text A) (w : World) (b : B)
    → ((a : A) → r ≡ ok a → Q a w.db)
    → ((a : A) → Does (Q a) R (f a))
    → (continue f (r, w)).0 ≡ ok b
    → R b (continue f (r, w)).1.db
continue_does f (ok a) w b q k x = (k a).at w b (q a refl) x
continue_does f (err e) w b q k x = absurd (cc)

module _ {P : Database → Type 0} where
  bind-Does :
      {A B : Type 0} {Q : A → Database → Type 0} {R : B → Database → Type 0} {m : Action A}
      {f : A → Action B}
      → Does P Q m
      → ((a : A) → Does (Q a) R (f a))
      → Does P R (m >>= f)
  unfolding ◌>>=◌
  bind-Does {m = m} {f = f} d k = record {
    at = λ w b h x. continue_does f (m w).0 (m w).1 b (λ a e. d.at w a h e) k x;
  }

  query-Does : {A : Type 0} (f : Database → A) → Does P (λ a db. (a ≡ f db) × P db) (query f)
  unfolding query
  query-Does f = record { at = λ w a h x. asked w.faults w a h x }
    where
      asked :
          (faults : List Bool) (w : World) (a : _)
          → P w.db
          → (on_fault (λ db. (ok (f db), db)) faults w).0 ≡ ok a
          → (a ≡ f (on_fault (λ db. (ok (f db), db)) faults w).1.db)
            × P (on_fault (λ db. (ok (f db), db)) faults w).1.db
      asked [] w a h x = (cc, h)
      asked (true ∷ rest) w a h x = absurd (cc)
      asked (false ∷ rest) w a h x = (cc, h)

  store-Does :
      {Q : Database → Type 0} (f : Database → Database)
      → ((db : Database) → P db → Q (f db))
      → Does P (λ (u : Unit {0}) db. Q db) (store f)
  unfolding store
  store-Does {Q = Q} f k = record { at = λ w a h x. written w.faults w a h x }
    where
      written :
          (faults : List Bool) (w : World) (a : Unit {0})
          → P w.db
          → (on_fault (λ db. (ok tt, f db)) faults w).0 ≡ ok a
          → Q (on_fault (λ db. (ok tt, f db)) faults w).1.db
      written [] w a h x = k w.db h
      written (true ∷ rest) w a h x = absurd (cc)
      written (false ∷ rest) w a h x = k w.db h

module _ (chain : Chain) (o : Options) (before : Position) where
  -- Where the next pass starts after a pass from `before` that returned.
  pub record IsAdvanced (after : Option Position) : Type 0 where
    pub stats : ProtocolStats
    pub policy_count : ℕ
    pub policies : EventDelta
    pub templates : EventDelta
    pub stats_read : chain.get_protocol_stats ≡ ok stats
    pub count_read : chain.get_policy_event_count ≡ ok policy_count
    pub policies_read :
        read_event_delta o.max_records chain.get_policy_events
          (or_default before.counts.policy 0)
          policy_count
        ≡ ok policies
    pub templates_read :
        read_event_delta o.max_records chain.get_registry_events
          (or_default before.counts.registry 0)
          stats.event_count
        ≡ ok templates
    pub position_after :
        after
        ≡ some (record {
          counts = record {
            policy = some policies.next_offset;
            registry = some templates.next_offset;
          };
          last_request_id =
              before.last_request_id
              + min o.max_records (stats.request_count - before.last_request_id);
          last_resolution_id =
              before.last_resolution_id
              + min o.max_records (stats.resolution_count - before.last_resolution_id);
        })

module _ (chain : Chain) (o : Options) (clock : Clock) where
  -- The patch that is gathered moves the position from `s` to an advanced one.
  abbrev Moves : SyncState → SyncPatch → Type 0
  Moves s p =
      (t : SyncState)
      → IsAdvanced chain o (place_of s) (position_in (patch_row clock.finished p (some t)))

  gather_from-Moves : (s : SyncState) → Gives (Moves s) (gather_from chain o clock s)
  unfolding gather_from
  gather_from-Moves s = lift-Gives _ λ stats a. lift-Gives _ λ n b. bind-Gives _ λ p.
      bind-Gives _ λ c. lift-Gives _ λ policies d. lift-Gives _ λ templates e. bind-Gives _ λ f.
        bind-Gives _ λ g. bind-Gives _ λ h. bind-Gives _ λ i. bind-Gives _ λ j. bind-Gives _ λ k.
          bind-Gives _ λ l. pure-Gives _ λ t. record {
            stats = stats;
            policy_count = n;
            policies = policies;
            templates = templates;
            stats_read = a;
            count_read = b;
            policies_read = d;
            templates_read = e;
            position_after = rw (
              range-last o.max_records s.last_request_id stats.request_count,
              range-last o.max_records s.last_resolution_id stats.resolution_count,
            );
          }

  place_of-get_sync_status :
      (db : Database) (q : Position) → position db ≡ some q → place_of (get_sync_status db) ≡ q
  unfolding get_sync_status
  place_of-get_sync_status db q h = read db.sync h
    where
      read : (r : Option SyncState) → position_in r ≡ some q → place_of (read_status r) ≡ q
      read none h = absurd (cc)
      read (some s) h = cc

  -- The last write of a pass on the row that it read.
  set-IsAdvanced :
      (q : Position) (p : SyncPatch) (db : Database)
      → position db ≡ some q
      → ((t : SyncState) → IsAdvanced chain o q (position_in (patch_row clock.finished p (some t))))
      → IsAdvanced chain o q (position (set_sync_status clock.finished p db))
  unfolding set_sync_status
  set-IsAdvanced q p db h k = written db.sync h
    where
      written :
          (r : Option SyncState)
          → position_in r ≡ some q
          → IsAdvanced chain o q (position_in (patch_row clock.finished p r))
      written none h = absurd (cc)
      written (some t) h = k t

  gathered :
      (q : Position) (s : SyncState)
      → Does
          (λ db. (s ≡ get_sync_status db) × (position db ≡ some q))
          (λ p db. Moves s p × (place_of s ≡ q) × (position db ≡ some q))
          (gather_from chain o clock s)
  gathered q s = record {
    at = λ w p (e, h) x. (
      (gather_from-Moves s).at w p x,
      ap place_of e ∙ place_of-get_sync_status w.db q h,
      (gather_from_keeps chain o clock (λ r. position_in r ≡ some q) s).at w h,
    );
  }

  pub sync_pass-Does :
      (q : Position)
      → Does
          (λ db. position db ≡ some q)
          (λ u db. IsAdvanced chain o q (position db))
          (sync_pass chain o clock)
  unfolding sync_pass
  sync_pass-Does q = bind-Does (query-Does get_sync_status) λ s. bind-Does (gathered q s) λ p.
      store-Does _ λ db (moves, place, h). set-IsAdvanced q p db h λ t.
        subst (λ x. IsAdvanced chain o x (position_in (patch_row clock.finished p (some t)))) place
          (moves t)

  advance :
      (q : Position) (w : World)
      → position w.db ≡ some q
      → (released chain o clock (caught chain o clock (sync_pass chain o clock w))).0 ≡ ok tt
      → IsAdvanced chain o q (
          position (released chain o clock (caught chain o clock (sync_pass chain o clock w))).1.db)
  advance q w h = go (sync_pass chain o clock w) λ x. (sync_pass-Does q).at w tt h x
    where
      go :
          (p : Result Text (Unit {0}) × World)
          → (p.0 ≡ ok tt → IsAdvanced chain o q (position p.1.db))
          → (released chain o clock (caught chain o clock p)).0 ≡ ok tt
          → IsAdvanced chain o q (position (released chain o clock (caught chain o clock p)).1.db)
      go (ok tt, v) k x = k refl
      go (err e, v) k x =
          let y : err e ≡ ok tt = sym (on_failure-err chain o clock e v) ∙ x in absurd (cc)

-- A pass that runs and returns has moved the checkpoint from `q`: the request and resolution ids by as
-- many ids as the chain has beyond them, at most `max_records` of each, and the event counts to the ends
-- of the two deltas that it read from there. Conditions: the checkpoint is stored, no other pass is
-- running, and there is no cooldown.
pub sync_once-IsAdvanced :
    (chain : Chain) (o : Options) (clock : Clock) (w : World) (q : Position)
    → position w.db ≡ some q
    → w.indexer.syncing ≡ false
    → chain.cooling_at_start ≡ false
    → (sync_once chain o clock w).0 ≡ ok tt
    → IsAdvanced chain o q (position (sync_once chain o clock w).1.db)
unfolding sync_once
sync_once-IsAdvanced chain o clock w q h a b =
    subst (λ t. t.0 ≡ ok tt → IsAdvanced chain o q (position t.1.db))
      (runs _ _ _ w.indexer.syncing chain.cooling_at_start a b)
      (advance chain o clock q (begin chain o clock w).1
        ((begin_keeps chain o clock (some q)).at w h))
  where
    runs :
        (p q r : Result Text (Unit {0}) × World) (s c : Bool)
        → s ≡ false
        → c ≡ false
        → r ≡ (if s then p else if c then q else r)
    runs p q r s c e f = rw (e, f)
