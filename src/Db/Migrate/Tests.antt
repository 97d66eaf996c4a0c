-- ===== src/Db/Migrate/Tests.antt =====
-- packages/db/src/migrate.ts over a database that counts the statements that it ran.
use evidra_protocol.Base.{
  ℕ, suc, true, Option, none, some, List, [], ◌∷◌, Text, lit, same, if◌then◌else◌,
}
use evidra_protocol.Db.Migrate.{File, Store, Answers, done, lost, migration_files, migrate}
use evidra_protocol.Db.Migrate.Replay.{replay}
use evidra_protocol.Db.Migrate.Again.{IsOutcome, Completes, migrate-IsOutcome}

abbrev count_sql : Text → ℕ → Option ℕ
count_sql sql n = if same sql (lit "bad") then none else some (suc n)

abbrev file : Text → Text → File
file name sql = record { filename = name; sql = some sql }

abbrev directory : List File
directory =
    file (lit "002_b.sql") (lit "create")
    ∷ file (lit "readme.md") (lit "bad")
    ∷ file (lit "001_a.sql") (lit "create")
    ∷ []

abbrev empty_store : Store ℕ
empty_store = record { applied = []; content = 0 }

-- The connection is lost while the second file is committed.
abbrev half : Answers
half = record {
  create_table = true;
  read_directory = true;
  calls = λ filename call. true;
  commit = λ filename. if same filename (lit "002_b.sql") then lost else done;
}

migrate-IsOutcome_example :
    IsOutcome count_sql directory empty_store (migrate count_sql half directory empty_store)
    × Completes count_sql directory empty_store
        (replay count_sql (migration_files directory) empty_store)
migrate-IsOutcome_example = migrate-IsOutcome count_sql half directory empty_store
