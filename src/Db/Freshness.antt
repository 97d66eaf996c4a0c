-- ===== src/Db/Freshness.antt =====
-- `refreshFactFreshness` of packages/db/src/repository.ts.
use evidra_protocol.Base.{
  ℕ, ◌≡◌, refl, sym, subst, ap₂, Bool, true, false, not, List, [], ◌∷◌, map, if◌then◌else◌, arith,
  Bool-cases, inl, inr, All,
}
use evidra_protocol.Db.Table.{update_if, count_changed}
use evidra_protocol.Db.{
  Database, FactRow, refresh_fact_freshness, is_outdated, refreshed, fresh_at, same_flag,
}

-- A row that is not outdated has the flag of its fact.
same_flag→eq : (a b : Bool) → not (same_flag a b) ≡ false → a ≡ b
same_flag→eq true b h = ground arith
same_flag→eq false b h = ground arith

same_flag_self : (a : Bool) → same_flag a a ≡ true
same_flag_self true = refl
same_flag_self false = refl

abbrev IsCurrent : ℕ → FactRow → Type 0
IsCurrent now row = row.is_fresh ≡ fresh_at now row.fact

refreshed_if :
    (now : ℕ) (row : FactRow)
    → IsCurrent now (if is_outdated now row then refreshed now row else row)
refreshed_if now row = elim (Bool-cases (is_outdated now row)) [
  | inl e ↦ subst (λ b. IsCurrent now (if b then refreshed now row else row)) (sym e) refl
  | inr e ↦
      subst (λ b. IsCurrent now (if b then refreshed now row else row)) (sym e) (same_flag→eq _ _ e)
]

fact-refreshed_if :
    (now : ℕ) (row : FactRow)
    → (if is_outdated now row then refreshed now row else row).fact ≡ row.fact
fact-refreshed_if now row = either (is_outdated now row)
  where
    either : (b : Bool) → (if b then refreshed now row else row).fact ≡ row.fact
    either true = refl
    either false = refl

All-IsCurrent :
    (now : ℕ) (rows : List FactRow)
    → All (IsCurrent now) (update_if (is_outdated now) (refreshed now) rows)
unfolding update_if
All-IsCurrent now [] = tt
All-IsCurrent now (row ∷ rows) = (refreshed_if now row, All-IsCurrent now rows)

map-fact :
    (now : ℕ) (rows : List FactRow)
    → map (λ r. r.fact) (update_if (is_outdated now) (refreshed now) rows) ≡ map (λ r. r.fact) rows
unfolding update_if
map-fact now [] = refl
map-fact now (row ∷ rows) = ap₂ (λ x xs. x ∷ xs) (fact-refreshed_if now row) (map-fact now rows)

current→same : (now : ℕ) (row : FactRow) → IsCurrent now row → is_outdated now row ≡ false
current→same now row h = rw (h, same_flag_self (fresh_at now row.fact))

count-current :
    (now : ℕ) (rows : List FactRow)
    → All (IsCurrent now) rows
    → count_changed (is_outdated now) rows ≡ 0
unfolding count_changed
count-current now [] h = refl
count-current now (row ∷ rows) h = rw (current→same now row h.0, count-current now rows h.1)

-- After a refresh at `now` every fact has the freshness flag that `now` gives it, the facts themselves
-- are as before, and a second refresh at `now` changes no row.
pub refresh_fact_freshness-IsCurrent :
    (now : ℕ) (db : Database)
    → All (λ row. row.is_fresh ≡ fresh_at now row.fact) (refresh_fact_freshness now db).1.facts
      × (map (λ r. r.fact) (refresh_fact_freshness now db).1.facts ≡ map (λ r. r.fact) db.facts)
      × ((refresh_fact_freshness now (refresh_fact_freshness now db).1).0 ≡ 0)
unfolding refresh_fact_freshness
refresh_fact_freshness-IsCurrent now db = (
  All-IsCurrent now db.facts,
  map-fact now db.facts,
  count-current now _ (All-IsCurrent now db.facts),
)
