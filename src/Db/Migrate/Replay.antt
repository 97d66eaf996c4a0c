-- ===== src/Db/Migrate/Replay.antt =====
-- The files of a migration of packages/db/src/migrate.ts applied with no other failure than their own,
-- and what is recorded then.
use evidra_protocol.Base.{
  ℕ, zero, suc, ◌≡◌, refl, ap, sym, subst, Bool, true, false, ◌||◌, Option, none, some, List, [],
  ◌∷◌, Text, one_of, same, same_self, if◌then◌else◌, arith, All, take,
}
use mathlib.Core.Option.{some-injective}
use evidra_protocol.Db.Migrate.{File, Store, recorded}

-- A file of this name has been applied.
abbrev pub IsApplied : {D : Type 0} → Store D → File → Type 0
IsApplied s f = one_of s.applied f.filename ≡ true

-- Every name that one store has applied is applied in the other.
abbrev pub Keeps : {D : Type 0} → Store D → Store D → Type 0
Keeps s t = (name : Text) → one_of s.applied name ≡ true → one_of t.applied name ≡ true

module _ {D : Type 0} where
  abbrev pub replay_sql : File → Store D → Option D → Option (Store D)
  replay_sql f s none = none
  replay_sql f s (some d) = some (recorded f s d)

  abbrev pub and_then : (Store D → Option (Store D)) → Option (Store D) → Option (Store D)
  and_then rest none = none
  and_then rest (some t) = rest t

  module _ (run_sql : Text → D → Option D) where
    abbrev pub replay_read : File → Store D → Option Text → Option (Store D)
    replay_read f s none = none
    replay_read f s (some sql) = replay_sql f s (run_sql sql s.content)

    -- What is stored once a file is applied as a whole, or none if the file is at fault.
    abbrev pub replay_file : File → Store D → Option (Store D)
    replay_file f s = if one_of s.applied f.filename then some s else replay_read f s f.sql

    -- The files applied one after the other, with nothing else that fails.
    abbrev pub replay : List File → Store D → Option (Store D)
    replay [] s = some s
    replay (f ∷ fs) s = and_then (replay fs) (replay_file f s)

    pub replay_file-Keeps :
        (f : File) (s t : Store D) → replay_file f s ≡ some t → IsApplied t f × Keeps s t
    replay_file-Keeps f s t h = found (one_of s.applied f.filename) refl h
      where
        run : (o : Option D) → replay_sql f s o ≡ some t → IsApplied t f × Keeps s t
        run none h = absurd (cc)
        run (some d) h =
            subst (λ u. IsApplied u f × Keeps s u) (some-injective (recorded f s d) t h)
              (
                rw (same_self f.filename) refl,
                λ name k. or_true (same f.filename name) (one_of s.applied name) k,
              )
          where
            or_true : (a b : Bool) → b ≡ true → (a || b) ≡ true
            or_true a b h = ground (arith, h)

        read : (o : Option Text) → replay_read f s o ≡ some t → IsApplied t f × Keeps s t
        read none h = absurd (cc)
        read (some sql) h = run (run_sql sql s.content) h

        found :
            (b : Bool)
            → one_of s.applied f.filename ≡ b
            → (if b then some s else replay_read f s f.sql) ≡ some t
            → IsApplied t f × Keeps s t
        found true e h =
            subst (λ u. IsApplied u f × Keeps s u) (some-injective s t h) (e, λ name k. k)
        found false e h = read f.sql h

    pub and_then-some :
        (rest : Store D → Option (Store D)) (o : Option (Store D)) (t : Store D)
        → and_then rest o ≡ some t
        → (u : Store D) × (o ≡ some u) × (rest u ≡ some t)
    and_then-some rest none t h = absurd (cc)
    and_then-some rest (some u) t h = (u, refl, h)

    pub replay-Keeps :
        (fs : List File) (s t : Store D) → replay fs s ≡ some t → All (IsApplied t) fs × Keeps s t
    replay-Keeps [] s t h = (tt, subst (Keeps s) (some-injective s t h) (λ name k. k))
    replay-Keeps (f ∷ fs) s t h =
        let (u, e, k) = and_then-some (replay fs) (replay_file f s) t h in
        let (here, kept) = replay_file-Keeps f s u e in
        let (all, n) = replay-Keeps fs u t k in
        ((n f.filename here, all), λ name i. n name (kept name i))

    -- Files that were applied before a failure are gone past when the files are applied again.
    pub replay-replay :
        (n : ℕ) (fs : List File) (s t : Store D)
        → replay (take n fs) s ≡ some t
        → replay fs t ≡ replay fs s
    replay-replay zero fs s t h = ap (replay fs) (sym (some-injective s t h))
    replay-replay (suc n) [] s t h = ap some (sym (some-injective s t h))
    replay-replay (suc n) (f ∷ fs) s t h =
        let (u, e, k) = and_then-some (replay (take n fs)) (replay_file f s) t h in
        let applied = (replay-Keeps (take n fs) u t k).1 f.filename (replay_file-Keeps f s u e).0 in
        rw (e, applied) (replay-replay n fs u t k)

    pub applied-replay :
        (fs : List File) (t : Store D) → All (IsApplied t) fs → replay fs t ≡ some t
    applied-replay [] t h = refl
    applied-replay (f ∷ fs) t h = rw h.0 (applied-replay fs t h.1)
