-- ===== src/Db/Migrate.antt =====
-- `migrate` of packages/db/src/migrate.ts. `run_sql` stands for the statements of a migration file that
-- the database runs: it is none where the file is at fault. Each other failure (of the directory, of a
-- query, of the connection, of COMMIT) is in `Answers`, as the run meets it.
pub mod Again
pub mod Replay
mod Tests
use evidra_protocol.Base.{
  Bool, true, false, ◌&&◌, Option, none, some, List, [], ◌∷◌, Text, lit, one_of, starts_with,
  keep_if, if◌then◌else◌,
}
use evidra_protocol.Db.Facts.{text_leb}
use evidra_protocol.Db.Facts.Sorted.{order_by}

-- A file of the directory; `sql` is none when it can never be read.
pub record File : Type 0 where
  pub filename : Text
  pub sql : Option Text

-- `schema_migrations`, and the rest of the database.
pub record Store (D : Type 0) : Type 0 where
  pub applied : List Text
  pub content : D

pub data Migration (D : Type 0) : Type 0 where
  finished failed : Store D → Migration D

abbrev reverse_text : Text → Text → Text
reverse_text [] acc = acc
reverse_text (c ∷ s) acc = reverse_text s (c ∷ acc)

-- `name.endsWith('.sql')`
abbrev pub is_sql : File → Bool
is_sql f = starts_with (reverse_text f.filename []) (lit "lqs.")

-- `(await readdir(directory)).filter(…).sort()`
unfoldable pub migration_files : List File → List File
migration_files directory =
    order_by (λ (a b : File). text_leb a.filename b.filename) (keep_if is_sql directory)

-- The calls that a file needs, other than COMMIT.
pub data DatabaseCall : Type 0 where
  select read_file connect begin statements insert : DatabaseCall

-- How COMMIT ends: it is done, it is refused, or it is done and its answer is lost.
pub data Commit : Type 0 where
  done refused lost : Commit

-- Which calls of one run are answered; any other fails, for a reason outside of the files.
pub record Answers : Type 0 where
  pub create_table : Bool
  pub read_directory : Bool
  pub calls : (filename : Text) → DatabaseCall → Bool
  pub commit : (filename : Text) → Commit

-- What the transaction of a file leaves when it is committed.
abbrev pub recorded : {D : Type 0} → File → Store D → D → Store D
recorded f s d = record { applied = f.filename ∷ s.applied; content = d }

abbrev pub on_commit : {D : Type 0} → File → Store D → D → Commit → Migration D
on_commit f s d done = finished (recorded f s d)
on_commit f s d refused = failed s
on_commit f s d lost = failed (recorded f s d)

module _ {D : Type 0} (run_sql : Text → D → Option D) (a : Answers) where
  -- The transaction once the statements of the file were run; a failure rolls them back.
  abbrev pub on_statements : File → Store D → Option D → Migration D
  on_statements f s none = failed s
  on_statements f s (some d) =
      if a.calls f.filename insert then on_commit f s d (a.commit f.filename) else failed s

  abbrev pub on_sql : File → Store D → Option Text → Migration D
  on_sql f s none = failed s
  on_sql f s (some sql) =
      if a.calls f.filename read_file
        && a.calls f.filename connect
        && a.calls f.filename begin
        && a.calls f.filename statements
      then on_statements f s (run_sql sql s.content)
      else failed s

  -- The body of the loop: `finished` goes on with the next file.
  unfoldable pub apply_file : File → Store D → Migration D
  apply_file f s =
      if a.calls f.filename select
      then if one_of s.applied f.filename then finished s else on_sql f s f.sql
      else failed s

  abbrev pub continue_with : (Store D → Migration D) → Migration D → Migration D
  continue_with rest (failed t) = failed t
  continue_with rest (finished t) = rest t

  unfoldable pub apply_files : List File → Store D → Migration D
  unfolding apply_file
  apply_files [] s = finished s
  apply_files (f ∷ fs) s = continue_with (apply_files fs) (apply_file f s)

  unfoldable pub migrate : List File → Store D → Migration D
  unfolding migration_files apply_files
  migrate directory s =
      if a.create_table && a.read_directory
      then apply_files (migration_files directory) s
      else failed s
