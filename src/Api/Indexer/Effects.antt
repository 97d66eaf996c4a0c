-- ===== src/Api/Indexer/Effects.antt =====
-- Actions of the indexer of apps/api/src/indexer.ts: they change its fields and the database and can
-- throw. A schedule of faults says which database calls fail; what was written before stays written.
use evidra_protocol.Base.{
  ℕ, Bool, true, false, Option, none, some, List, [], ◌∷◌, Text, lit, Result, ok, err,
}
use evidra_protocol.Protocol.Types.{ProtocolConfig, ResolverInfo}
use evidra_protocol.Db.{Database}

-- `IndexerStatus`; times are numbers.
pub record IndexerStatus : Type 0 where
  pub enabled : Bool
  pub running : Bool
  pub last_started_at : Option ℕ
  pub last_success_at : Option ℕ
  pub last_error : Option Text
  pub last_duration_ms : Option ℕ
  pub lag_seconds : Option ℕ

-- `ProtocolProjection`
pub record Projection : Type 0 where
  pub config : ProtocolConfig
  pub registry_version : Text
  pub resolver_version : Text
  pub policy_registry_version : Text
  pub resolver_info : ResolverInfo
  pub checked_at : ℕ

-- The fields of `ChainIndexer` that change.
pub record Indexer : Type 0 where
  pub status : IndexerStatus
  pub syncing : Bool
  pub projection : Option Projection

pub record World : Type 0 where
  pub indexer : Indexer
  pub db : Database
  pub faults : List Bool

abbrev pub Action : Type 0 → Type 0
Action A = World → Result Text A × World

abbrev pub pure : {A : Type 0} → A → Action A
pure a w = (ok a, w)

-- A chain read, or a throw.
abbrev pub lift : {A : Type 0} → Result Text A → Action A
lift r w = (r, w)

abbrev pub continue :
    {A B : Type 0} → (A → Action B) → Result Text A × World → Result Text B × World
continue f (ok a, w) = f a w
continue f (err e, w) = (err e, w)

infixl 5 ◌>>=◌ ◌>>◌
unfoldable pub ◌>>=◌ : {A B : Type 0} → Action A → (A → Action B) → Action B
◌>>=◌ m f w = continue f (m w)

abbrev pub ◌>>◌ : {B : Type 0} → Action (Unit {0}) → Action B → Action B
m >> k = m >>= λ _. k

abbrev pub update_indexer : (Indexer → Indexer) → Action (Unit {0})
update_indexer f w = (ok tt, record w { indexer = f w.indexer })

pub db_error : Text
db_error = lit "database error"

abbrev pub on_fault : {A : Type 0} → (Database → Result Text A × Database) → List Bool → Action A
on_fault f [] w = let (r, db) = f w.db in (r, record w { db = db })
on_fault f (true ∷ rest) w = (err db_error, record w { faults = rest })
on_fault f (false ∷ rest) w = let (r, db) = f w.db in (r, record w { db = db; faults = rest })

-- A call of the database.
abbrev pub db_call : {A : Type 0} → (Database → Result Text A × Database) → Action A
db_call f w = on_fault f w.faults w

unfoldable pub store : (Database → Database) → Action (Unit {0})
store f = db_call (λ db. (ok tt, f db))

unfoldable pub query : {A : Type 0} → (Database → A) → Action A
query f = db_call (λ db. (ok (f db), db))

abbrev pub or_keep : Database → Option Database → Result Text (Unit {0}) × Database
or_keep db none = (err db_error, db)
or_keep db (some db') = (ok tt, db')

-- A transaction that can be refused.
unfoldable pub try_store : (Database → Option Database) → Action (Unit {0})
try_store f = db_call (λ db. or_keep db (f db))

abbrev pub forget : Result Text (Unit {0}) × World → Result Text (Unit {0}) × World
forget (r, w) = (ok tt, w)

-- A call whose error is only logged.
abbrev pub attempt : Action (Unit {0}) → Action (Unit {0})
attempt m w = forget (m w)

-- `if (test) await m;`
abbrev pub when : Bool → Action (Unit {0}) → Action (Unit {0})
when true m = m
when false m = pure tt
