-- ===== src/Db/Migrate/Again.antt =====
-- What `migrate` of packages/db/src/migrate.ts leaves behind, whatever fails.
use evidra_protocol.Base.{
  ℕ, suc, ◌≡◌, refl, ap, sym, Bool, true, false, ◌&&◌, Option, none, some, List, [], ◌∷◌, Text,
  one_of, if◌then◌else◌, inl, inr, ◌⊎◌, All, take,
}
use mathlib.Core.Option.{some-injective}
use evidra_protocol.Db.Migrate.{
  File, Store, Migration, finished, failed, migration_files, apply_file, apply_files, migrate,
  continue_with, Answers, Commit, done, refused, lost, recorded, on_commit, on_statements, on_sql,
  select, read_file, connect, begin, statements, insert,
}
use evidra_protocol.Db.Migrate.Replay.{
  IsApplied, Keeps, replay_sql, replay_read, replay_file, replay, and_then-some, replay-Keeps,
  replay-replay, applied-replay,
}

-- A run in which every call is answered.
abbrev pub all_answered : Answers
all_answered = record {
  create_table = true;
  read_directory = true;
  calls = λ filename call. true;
  commit = λ filename. done;
}

module _ {D : Type 0} (run_sql : Text → D → Option D) where
  -- A file that the run has gone past is applied as a whole; one that it stops at is applied as a
  -- whole or not at all.
  abbrev FileOutcome : File → Store D → Migration D → Type 0
  FileOutcome f s (finished t) = replay_file run_sql f s ≡ some t
  FileOutcome f s (failed t) = (t ≡ s) ⊎ (replay_file run_sql f s ≡ some t)

  if_lem :
      (P : Migration D → Type 0) (b : Bool) (m n : Migration D) → P m → P n → P (if b then m else n)
  if_lem P true m n x y = x
  if_lem P false m n x y = y

  FileOutcome-apply_file :
      (a : Answers) (f : File) (s : Store D) → FileOutcome f s (apply_file run_sql a f s)
  unfolding apply_file
  FileOutcome-apply_file a f s =
      if_lem (FileOutcome f s) (a.calls f.filename select) _ _
        (found (one_of s.applied f.filename) refl) (inl refl)
    where
      committed :
          (d : D) (c : Commit)
          → replay_file run_sql f s ≡ some (recorded f s d)
          → FileOutcome f s (on_commit f s d c)
      committed d done h = h
      committed d refused h = inl refl
      committed d lost h = inr h

      run :
          (o : Option D)
          → replay_file run_sql f s ≡ replay_sql f s o
          → FileOutcome f s (on_statements run_sql a f s o)
      run none h = inl refl
      run (some d) h =
          if_lem (FileOutcome f s) (a.calls f.filename insert) _ _
            (committed d (a.commit f.filename) h) (inl refl)

      read :
          (o : Option Text)
          → replay_file run_sql f s ≡ replay_read run_sql f s o
          → FileOutcome f s (on_sql run_sql a f s o)
      read none h = inl refl
      read (some sql) h =
          if_lem (FileOutcome f s)
            (a.calls f.filename read_file
              && a.calls f.filename connect
              && a.calls f.filename begin
              && a.calls f.filename statements)
            _ _ (run (run_sql sql s.content) h) (inl refl)

      found :
          (b : Bool)
          → one_of s.applied f.filename ≡ b
          → FileOutcome f s (if b then finished s else on_sql run_sql a f s f.sql)
      found true e = rw e refl
      found false e = read f.sql (rw e refl)

  -- What a run over some files leaves.
  abbrev FilesOutcome : List File → Store D → Migration D → Type 0
  FilesOutcome fs s (finished t) = replay run_sql fs s ≡ some t
  FilesOutcome fs s (failed t) = (n : ℕ) × (replay run_sql (take n fs) s ≡ some t)

  FilesOutcome-apply_files :
      (a : Answers) (fs : List File) (s : Store D) → FilesOutcome fs s (apply_files run_sql a fs s)
  unfolding apply_files
  FilesOutcome-apply_files a [] s = refl
  FilesOutcome-apply_files a (f ∷ fs) s =
      first (apply_file run_sql a f s) (FileOutcome-apply_file a f s)
        (λ u. FilesOutcome-apply_files a fs u)
    where
      later :
          (u : Store D) (m : Migration D)
          → replay_file run_sql f s ≡ some u
          → FilesOutcome fs u m
          → FilesOutcome (f ∷ fs) s m
      later u (finished t) h k = rw h k
      later u (failed t) h (n, k) = (suc n, rw h k)

      first :
          (m : Migration D)
          → FileOutcome f s m
          → ((u : Store D) → FilesOutcome fs u (apply_files run_sql a fs u))
          → FilesOutcome (f ∷ fs) s (continue_with run_sql a (apply_files run_sql a fs) m)
      first (finished u) h k = later u (apply_files run_sql a fs u) h (k u)
      first (failed t) (inl e) k = (0, ap some (sym e))
      first (failed t) (inr h) k = (1, rw h refl)

  -- A run in which every call is answered applies the files.
  replay_file-answered :
      (f : File) (s t : Store D)
      → replay_file run_sql f s ≡ some t
      → apply_file run_sql all_answered f s ≡ finished t
  unfolding apply_file
  replay_file-answered f s t h = found (one_of s.applied f.filename) h
    where
      run :
          (o : Option D)
          → replay_sql f s o ≡ some t
          → on_statements run_sql all_answered f s o ≡ finished t
      run none h = absurd (cc)
      run (some d) h = ap finished (some-injective (recorded f s d) t h)

      read :
          (o : Option Text)
          → replay_read run_sql f s o ≡ some t
          → on_sql run_sql all_answered f s o ≡ finished t
      read none h = absurd (cc)
      read (some sql) h = run (run_sql sql s.content) h

      found :
          (b : Bool)
          → (if b then some s else replay_read run_sql f s f.sql) ≡ some t
          → (if b then finished s else on_sql run_sql all_answered f s f.sql) ≡ finished t
      found true h = ap finished (some-injective s t h)
      found false h = read f.sql h

  replay-answered :
      (fs : List File) (s t : Store D)
      → replay run_sql fs s ≡ some t
      → apply_files run_sql all_answered fs s ≡ finished t
  unfolding apply_files
  replay-answered [] s t h = ap finished (some-injective s t h)
  replay-answered (f ∷ fs) s t h =
      let (u, e, k) = and_then-some run_sql (replay run_sql fs) (replay_file run_sql f s) t h in
      rw (replay_file-answered f s u e) (replay-answered fs u t k)

  -- How a migration of a directory ends.
  abbrev pub IsOutcome : List File → Store D → Migration D → Type 0
  IsOutcome directory s (finished t) =
      (replay run_sql (migration_files directory) s ≡ some t)
      × All (IsApplied t) (migration_files directory)
      × (migrate run_sql all_answered directory t ≡ finished t)
  IsOutcome directory s (failed t) =
      ((n : ℕ) × (replay run_sql (take n (migration_files directory)) s ≡ some t))
      × (replay run_sql (migration_files directory) t
          ≡ replay run_sql (migration_files directory) s)
      × Keeps s t

  -- A run with every call answered finishes where the files can be applied.
  abbrev pub Completes : List File → Store D → Option (Store D) → Type 0
  Completes directory s none = Unit
  Completes directory s (some t) = migrate run_sql all_answered directory s ≡ finished t

-- Whatever calls a migration meets that fail, also a COMMIT that is done and not answered: if it
-- finishes, what is stored is what the files of the directory whose names end in .sql make of the
-- start, each applied as a whole in their order; each of them is recorded, and another run that is
-- answered finishes with the database unchanged. If it fails, what is stored is what some first part of
-- these files makes, no recorded name is lost, and to apply the files from there comes to the same as
-- from the start. If the files can be applied, a run with every call answered finishes with that.
pub migrate-IsOutcome :
    {D : Type 0} (run_sql : Text → D → Option D) (a : Answers) (directory : List File) (s : Store D)
    → IsOutcome run_sql directory s (migrate run_sql a directory s)
      × Completes run_sql directory s (replay run_sql (migration_files directory) s)
unfolding migrate
migrate-IsOutcome {D} run_sql a directory s =
    (ends (a.create_table && a.read_directory), completes (replay run_sql files s) refl)
  where
    files : List File
    files = migration_files directory

    outcome : (m : Migration D) → FilesOutcome run_sql files s m → IsOutcome run_sql directory s m
    outcome (finished t) h =
        let all = (replay-Keeps run_sql files s t h).0 in
        (h, all, replay-answered run_sql files t t (applied-replay run_sql files t all))
    outcome (failed t) (n, h) =
        ((n, h), replay-replay run_sql n files s t h, (replay-Keeps run_sql (take n files) s t h).1)

    ends :
        (b : Bool)
        → IsOutcome run_sql directory s (if b then apply_files run_sql a files s else failed s)
    ends true = outcome _ (FilesOutcome-apply_files run_sql a files s)
    ends false = ((0, refl), refl, λ name k. k)

    completes :
        (o : Option (Store D)) → replay run_sql files s ≡ o → Completes run_sql directory s o
    completes none h = tt
    completes (some t) h = replay-answered run_sql files s t h
