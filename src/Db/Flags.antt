-- ===== src/Db/Flags.antt =====
-- `setResolutionFlags` of packages/db/src/repository.ts and the resolutions that `getFact` shows by
-- those flags.
use evidra_protocol.Base.{
  ℕ, ◌≡◌, refl, sym, ◌∙◌, ap, subst, Bool, true, false, ◌&&◌, ◌||◌, Option, none, some, List, [],
  ◌∷◌, Text, same, to_lower, find_first, any, keep_if, if◌then◌else◌, arith, Bool-cases, inl, inr,
  All, ◌==◌, ==→eq,
}
use evidra_protocol.Protocol.Types.{ResolutionRecord}
use evidra_protocol.Db.Table.{update_if}
use evidra_protocol.Db.Order.{
  any-order_desc, any-keep_if, All-order_desc, All-keep_if, All-find_first, any-find_first,
}
use evidra_protocol.Db.{
  Database, ResolutionRow, FactRow, ProjectionFact, set_resolution_flags, get_fact, of_fact,
  flagged, has_id, head_rows, project, project_found, record_of, has_key,
}

-- A stored resolution of the fact has this id.
abbrev pub is_stored : Text → ℕ → Database → Bool
is_stored key id db = any db.resolutions (λ row. of_fact key row && has_id id row)

-- A resolution of the fact with this id.
abbrev pub IsOf : Text → ℕ → Option ResolutionRecord → Type 0
IsOf key id o =
    (r : ResolutionRecord) × (o ≡ some r) × (r.resolution_id ≡ id) × (same r.fact_key key ≡ true)

module _ (key : Text) (canonical latest : ℕ) where
  abbrev flag : ResolutionRow → ResolutionRow
  flag row = if of_fact key row then flagged canonical latest row else row

  -- The flags of a row of the fact are those of its id.
  abbrev IsFlagged : ResolutionRow → Type 0
  IsFlagged row =
      (of_fact key row ≡ true)
      × (row.is_canonical ≡ (row.resolution.resolution_id == canonical))
      × (row.is_latest ≡ (row.resolution.resolution_id == latest))

  abbrev FlaggedIf : ResolutionRow → Type 0
  FlaggedIf row = of_fact key row ≡ true → IsFlagged row

  flag_rows :
      (rows : List ResolutionRow)
      → All FlaggedIf (update_if (of_fact key) (flagged canonical latest) rows)
  unfolding update_if
  flag_rows [] = tt
  flag_rows (row ∷ rows) = (one (of_fact key row) refl, flag_rows rows)
    where
      one :
          (b : Bool)
          → of_fact key row ≡ b
          → FlaggedIf (if b then flagged canonical latest row else row)
      one true e h = (h, refl, refl)
      one false e h = absurd (cc)

  -- A row that passes is there after the flags are set.
  any-flag_rows :
      (p q : ResolutionRow → Bool) (rows : List ResolutionRow)
      → ((row : ResolutionRow) → p row ≡ true → q (flag row) ≡ true)
      → any rows p ≡ true
      → any (update_if (of_fact key) (flagged canonical latest) rows) q ≡ true
  unfolding update_if
  any-flag_rows p q [] k h = absurd (cc)
  any-flag_rows p q (row ∷ rows) k h = elim (Bool-cases (p row)) [
    | inl e ↦ rw (k row e)
    | inr e ↦ or_true _ _ (any-flag_rows p q rows k (false_or (p row) _ e h))
  ]
    where
      or_true : (a b : Bool) → b ≡ true → (a || b) ≡ true
      or_true a b h = ground (arith, h)

      false_or : (a b : Bool) → a ≡ false → (a || b) ≡ true → b ≡ true
      false_or a b e h = ground (arith, e, h)

  -- The row that a flag selects among the head rows.
  heads-IsFlagged :
      (db : Database)
      → All IsFlagged (
          head_rows key (record db {
            resolutions = update_if (of_fact key) (flagged canonical latest) db.resolutions;
          }))
  heads-IsFlagged db =
      All-order_desc _ _ _ (All-keep_if _ _ _ (weaken _ (flag_rows db.resolutions)))
    where
      and_left : (a b : Bool) → (a && b) ≡ true → a ≡ true
      and_left a b h = ground (arith, h)

      weaken :
          (rows : List ResolutionRow)
          → All FlaggedIf rows
          → All (λ r. (of_fact key r && (r.is_canonical || r.is_latest)) ≡ true → IsFlagged r) rows
      weaken [] h = tt
      weaken (r ∷ rs) h = ((λ e. h.0 (and_left _ _ e)), weaken rs h.1)

  abbrev flag_all : Database → Database
  flag_all db = record db {
    resolutions = update_if (of_fact key) (flagged canonical latest) db.resolutions;
  }

  abbrev is_head : ResolutionRow → Bool
  is_head row = of_fact key row && (row.is_canonical || row.is_latest)

  selected :
      (sel : ResolutionRow → Bool) (id : ℕ) (db : Database)
      → ((row : ResolutionRow) → IsFlagged row → sel row ≡ (row.resolution.resolution_id == id))
      → ((row : ResolutionRow)
          → has_id id row ≡ true
          → ((row.resolution.resolution_id == canonical)
              || (row.resolution.resolution_id == latest))
            ≡ true)
      → is_stored key id db ≡ true
      → IsOf key id (record_of (find_first sel (head_rows key (flag_all db))))
  selected sel id db s m h =
      let (r, found) = any-find_first sel (head_rows key (flag_all db)) there in
      let (f, t) =
        All-find_first IsFlagged sel (head_rows key (flag_all db)) r (heads-IsFlagged db) found in
      (r.resolution, ap record_of found, ==→eq _ _ (sym (s r f) ∙ t), f.0)
    where
      both : (a b : Bool) → a ≡ true → b ≡ true → (a && b) ≡ true
      both a b x y = ground (arith, x, y)

      first : (a b : Bool) → (a && b) ≡ true → (a ≡ true) × (b ≡ true)
      first a b x = (ground (arith, x), ground (arith, x))

      on_head :
          (row : ResolutionRow)
          → of_fact key row ≡ true
          → has_id id row ≡ true
          → (is_head (flagged canonical latest row) && sel (flagged canonical latest row)) ≡ true
      on_head row x y = both _ _ (both _ _ x (m row y)) (s _ (x, refl, refl) ∙ y)

      kept :
          (row : ResolutionRow)
          → (of_fact key row && has_id id row) ≡ true
          → (is_head (flag row) && sel (flag row)) ≡ true
      kept row x =
          let (a, b) = first (of_fact key row) (has_id id row) x in
          subst
            (λ c.
              (is_head (if c then flagged canonical latest row else row)
                && sel (if c then flagged canonical latest row else row))
              ≡ true)
            (sym a) (on_head row a b)

      there : any (head_rows key (flag_all db)) sel ≡ true
      there =
          any-order_desc _ sel (keep_if is_head (flag_all db).resolutions)
          ∙ any-keep_if sel is_head (flag_all db).resolutions
          ∙ any-flag_rows _ _ db.resolutions kept h

-- After the flags of a fact are set to two resolutions of it that are stored, `getFact` shows exactly
-- these two: the canonical and the latest resolution of the projection have the two ids and belong to
-- the fact.
pub set_resolution_flags-get_fact :
    (key : Text) (canonical latest : ℕ) (db : Database) (f : ProjectionFact)
    → is_stored (to_lower key) canonical db ≡ true
    → is_stored (to_lower key) latest db ≡ true
    → get_fact key (set_resolution_flags key canonical latest db) ≡ some f
    → IsOf (to_lower key) canonical f.canonical_resolution
      × IsOf (to_lower key) latest f.latest_resolution
unfolding set_resolution_flags get_fact
set_resolution_flags-get_fact key canonical latest db f c l h =
    shown (find_first (has_key (to_lower key)) db.facts) h
  where
    or_left : (a b : Bool) → a ≡ true → (a || b) ≡ true
    or_left a b x = ground (arith, x)

    or_right : (a b : Bool) → b ≡ true → (a || b) ≡ true
    or_right a b x = ground (arith, x)

    shown :
        (row : Option FactRow)
        → project_found (to_lower key) (flag_all (to_lower key) canonical latest db) row ≡ some f
        → IsOf (to_lower key) canonical f.canonical_resolution
          × IsOf (to_lower key) latest f.latest_resolution
    shown none e = absurd (cc)
    shown (some row) e =
        let same_fact : project (to_lower key) (flag_all (to_lower key) canonical latest db) row
            ≡ f =
          cc in
        subst
          (λ (x : ProjectionFact).
            IsOf (to_lower key) canonical x.canonical_resolution
            × IsOf (to_lower key) latest x.latest_resolution)
          same_fact
          (
            selected (to_lower key) canonical latest (λ r. r.is_canonical) canonical db (λ r i. i.1)
                (λ r i. or_left _ _ i) c,
            selected (to_lower key) canonical latest (λ r. r.is_latest) latest db (λ r i. i.2)
                (λ r i. or_right _ _ i) l,
          )
