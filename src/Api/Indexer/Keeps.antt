-- ===== src/Api/Indexer/Keeps.antt =====
-- What an action of apps/api/src/indexer.ts keeps, whether it returns or throws.
use evidra_protocol.Base.{
  ◌≡◌, refl, subst, Bool, true, false, Option, none, some, List, [], ◌∷◌, Text, Result, ok, err,
}
use evidra_protocol.Db.{Database}
use evidra_protocol.Api.Indexer.Effects.{
  World, Indexer, Action, pure, lift, continue, store, query, try_store, update_indexer, attempt,
  when, on_fault, or_keep, ◌>>=◌,
}

-- A predicate of the database that an action keeps.
pub record Keeps {A : Type 0} (P : Database → Type 0) (m : Action A) : Type 0 where
  pub at : (w : World) → P w.db → P (m w).1.db

fault_keeps :
    (P : Database → Type 0) {A : Type 0} (f : Database → Result Text A × Database)
    (faults : List Bool) (w : World)
    → P w.db
    → P (f w.db).1
    → P (on_fault f faults w).1.db
fault_keeps P f [] w h k = k
fault_keeps P f (true ∷ rest) w h k = h
fault_keeps P f (false ∷ rest) w h k = k

module _ {P : Database → Type 0} where
  continue_keeps :
      {A B : Type 0} (f : A → Action B) (r : Result Text A) (w : World)
      → ((a : A) → Keeps P (f a))
      → P w.db
      → P (continue f (r, w)).1.db
  continue_keeps f (ok a) w k h = (k a).at w h
  continue_keeps f (err e) w k h = h

  pub bind_keeps :
      {A B : Type 0} {m : Action A} {f : A → Action B}
      → Keeps P m
      → ((a : A) → Keeps P (f a))
      → Keeps P (m >>= f)
  unfolding ◌>>=◌
  bind_keeps {m = m} {f = f} k l = record {
    at = λ w h. continue_keeps f (m w).0 (m w).1 l (k.at w h);
  }

  pub pure_keeps : {A : Type 0} (a : A) → Keeps P (pure a)
  pure_keeps a = record { at = λ w h. h }

  pub lift_keeps : {A : Type 0} (r : Result Text A) → Keeps P (lift r)
  lift_keeps r = record { at = λ w h. h }

  pub update_keeps : (f : Indexer → Indexer) → Keeps P (update_indexer f)
  update_keeps f = record { at = λ w h. h }

  pub store_keeps :
      (f : Database → Database) → ((db : Database) → P db → P (f db)) → Keeps P (store f)
  unfolding store
  store_keeps f k = record { at = λ w h. fault_keeps P _ w.faults w h (k w.db h) }

  pub try_store_keeps :
      (f : Database → Option Database)
      → ((db db' : Database) → f db ≡ some db' → P db → P db')
      → Keeps P (try_store f)
  unfolding try_store
  try_store_keeps f k = record {
    at = λ w h. fault_keeps P _ w.faults w h (kept w.db (f w.db) refl h);
  }
    where
      kept : (db : Database) (o : Option Database) → f db ≡ o → P db → P (or_keep db o).1
      kept db none e h = h
      kept db (some db') e h = k db db' e h

  pub query_keeps : {A : Type 0} (f : Database → A) → Keeps P (query f)
  unfolding query
  query_keeps f = record { at = λ w h. fault_keeps P _ w.faults w h h }

  pub when_keeps : {m : Action (Unit {0})} (b : Bool) → Keeps P m → Keeps P (when b m)
  when_keeps true k = k
  when_keeps false k = pure_keeps tt

  pub attempt_keeps : {m : Action (Unit {0})} → Keeps P m → Keeps P (attempt m)
  attempt_keeps k = record { at = λ w h. k.at w h }

-- What an action that returns gives back.
pub record Gives {A : Type 0} (Q : A → Type 0) (m : Action A) : Type 0 where
  pub at : (w : World) (a : A) → (m w).0 ≡ ok a → Q a

ok_inj : {A : Type 0} (a b : A) → ◌≡◌ {A = Result Text A} (ok a) (ok b) → a ≡ b
ok_inj a b e = cc

module _ {B : Type 0} {Q : B → Type 0} where
  continue_gives :
      {A : Type 0} (f : A → Action B) (r : Result Text A) (w : World)
      → ((a : A) → r ≡ ok a → Gives Q (f a))
      → (b : B) → (continue f (r, w)).0 ≡ ok b
      → Q b
  continue_gives f (ok a) w k b e = (k a refl).at w b e
  continue_gives f (err x) w k b e = absurd (cc)

  pub bind-Gives :
      {A : Type 0} (m : Action A) {f : A → Action B} → ((a : A) → Gives Q (f a)) → Gives Q (m >>= f)
  unfolding ◌>>=◌
  bind-Gives m {f = f} k = record {
    at = λ w b e. continue_gives f (m w).0 (m w).1 (λ a h. k a) b e;
  }

  -- A chain read tells what it returned.
  pub lift-Gives :
      {A : Type 0} (r : Result Text A) {f : A → Action B}
      → ((a : A) → r ≡ ok a → Gives Q (f a))
      → Gives Q (lift r >>= f)
  unfolding ◌>>=◌
  lift-Gives r {f = f} k = record { at = λ w b e. continue_gives f r w k b e }

  pub pure-Gives : (b : B) → Q b → Gives Q (pure b)
  pure-Gives b q = record { at = λ w a e. subst Q (ok_inj _ _ e) q }

-- A predicate of the database that an action keeps when it throws.
pub record FailKeeps {A : Type 0} (P : Database → Type 0) (m : Action A) : Type 0 where
  pub at : (w : World) (e : Text) → P w.db → (m w).0 ≡ err e → P (m w).1.db

fault_fails :
    (P : Database → Type 0) (f : Database → Database) (faults : List Bool) (w : World) (e : Text)
    → P w.db
    → (on_fault (λ db. (ok tt, f db)) faults w).0 ≡ err e
    → P (on_fault (λ db. (ok tt, f db)) faults w).1.db
fault_fails P f [] w e h k = absurd (cc)
fault_fails P f (true ∷ rest) w e h k = h
fault_fails P f (false ∷ rest) w e h k = absurd (cc)

module _ {P : Database → Type 0} where
  continue_fails :
      {A B : Type 0} (f : A → Action B) (r : Result Text A) (w : World) (e : Text)
      → ((a : A) → FailKeeps P (f a))
      → P w.db
      → (continue f (r, w)).0 ≡ err e
      → P (continue f (r, w)).1.db
  continue_fails f (ok a) w e k h x = (k a).at w e h x
  continue_fails f (err y) w e k h x = h

  pub bind_fails :
      {A B : Type 0} {m : Action A} {f : A → Action B}
      → Keeps P m
      → ((a : A) → FailKeeps P (f a))
      → FailKeeps P (m >>= f)
  unfolding ◌>>=◌
  bind_fails {m = m} {f = f} k l = record {
    at = λ w e h x. continue_fails f (m w).0 (m w).1 e l (k.at w h) x;
  }

  -- A write that throws has not written.
  pub store_fails : (f : Database → Database) → FailKeeps P (store f)
  unfolding store
  store_fails f = record { at = λ w e h x. fault_fails P f w.faults w e h x }

-- The fields of the indexer are not the database's.
fault-indexer :
    {A : Type 0} (f : Database → Result Text A × Database) (faults : List Bool) (w : World)
    → (on_fault f faults w).1.indexer ≡ w.indexer
fault-indexer f [] w = refl
fault-indexer f (true ∷ rest) w = refl
fault-indexer f (false ∷ rest) w = refl

pub store-indexer : (f : Database → Database) (w : World) → (store f w).1.indexer ≡ w.indexer
unfolding store
store-indexer f w = fault-indexer _ w.faults w
