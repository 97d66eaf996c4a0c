-- ===== src/Db/Facts/Listed.antt =====
-- Each item that `listFacts` of packages/db/src/repository.ts batches is the one that `getFact` reads.
use evidra_protocol.Base.{
  ℕ, suc, ◌-◌, min, ◌≡◌, refl, sym, ap, ◌∙◌, subst, Bool, true, ◌&&◌, ◌||◌, some, List, [], ◌∷◌,
  Text, same, same→eq, same_self, ==→eq, ==_self, length-map, All-map, All-imp, All-drop, All-any,
  ◌==◌, keep_if, find_first, length, length-take, length-drop, to_lower, arith, Bool-cases, inl,
  inr, All,
}
use evidra_protocol.Protocol.Types.{RequestRecord}
use evidra_protocol.Db.Order.{All-keep_if, All-take}
use evidra_protocol.Db.Table.{order_desc}
use evidra_protocol.Db.{
  Database, FactRow, ResolutionRow, ProjectionFact, has_key, of_fact, get_fact, get_request,
  head_rows,
}
use evidra_protocol.Db.Facts.{
  FactFilters, list_facts, fact_rows, head_rows_of, requests_of, group_of, group_rows, find_last,
  item, is_key_of, is_request_of, passes, in_order,
}
use evidra_protocol.Db.Facts.Sorted.{order_by, insert_by}
use evidra_protocol.Db.Facts.Grouped.{
  keep_if-and, keep_if-ext, keep_if-order_desc, group_of-group_rows, find_last_unique,
  find_last-keep_if,
}

-- The keys of the tables: each fact is the one found by its key, which is in lower case, and each
-- request is the one found by its id.
abbrev pub IsFactOf : Database → FactRow → Type 0
IsFactOf db row =
    (to_lower row.fact.fact_key ≡ row.fact.fact_key)
    × (find_first (has_key row.fact.fact_key) db.facts ≡ some row)

abbrev pub IsKeyed : Database → Type 0
IsKeyed db =
    All (IsFactOf db) db.facts
    × All (λ r. find_first (λ q. q.request_id == r.request_id) db.requests ≡ some r) db.requests

test_lem : (a b c : Bool) → (c ≡ true → a ≡ true) → ((a && b) && c) ≡ (c && b)
test_lem a b c h = ground (arith, h)

module _ (rows : List FactRow) (db : Database) where
  -- The rows of a key of the page, out of the batch.
  batch-head_rows :
      (key : Text)
      → is_key_of rows key ≡ true
      → group_of (group_rows [] (head_rows_of rows db)) key ≡ head_rows key db
  unfolding head_rows_of
  batch-head_rows key h =
      group_of-group_rows [] _ key
      ∙ keep_if-order_desc (λ r. r.resolution.resolution_version) (of_fact key) _
      ∙ ap (order_desc (λ r. r.resolution.resolution_version))
          (keep_if-and (of_fact key) _ db.resolutions ∙ keep_if-ext _ _ db.resolutions here)
    where
      here :
          (r : ResolutionRow)
          → ((is_key_of rows r.resolution.fact_key && (r.is_canonical || r.is_latest))
              && of_fact key r)
            ≡ (of_fact key r && (r.is_canonical || r.is_latest))
      here r =
          let listed : same r.resolution.fact_key key ≡ true
              → is_key_of rows r.resolution.fact_key ≡ true =
            λ e. subst (λ k. is_key_of rows k ≡ true) (sym (same→eq _ _ e)) h in
          test_lem _ _ _ listed

  batch-request :
      (id : ℕ)
      → is_request_of rows id ≡ true
      → All (λ r. find_first (λ q. q.request_id == r.request_id) db.requests ≡ some r) db.requests
      → find_last (λ r. r.request_id == id) (requests_of rows db) ≡ get_request id db
  unfolding requests_of get_request
  batch-request id h u =
      find_last-keep_if (λ r. r.request_id == id) (λ r. is_request_of rows r.request_id) db.requests
        here
      ∙ find_last_unique (λ r. r.request_id) id db.requests u
    where
      here :
          (r : RequestRecord) → (r.request_id == id) ≡ true → is_request_of rows r.request_id ≡ true
      here r e = subst (λ z. is_request_of rows z ≡ true) (sym (==→eq _ _ e)) h

  -- A row of the page, whose key and request the batch has read.
  item-get_fact :
      (row : FactRow)
      → IsKeyed db
      → IsFactOf db row
      → is_key_of rows row.fact.fact_key ≡ true
      → is_request_of rows row.fact.current_request_id ≡ true
      → get_fact row.fact.fact_key db
        ≡ some (item (group_rows [] (head_rows_of rows db)) (requests_of rows db) row)
  unfolding get_fact
  item-get_fact row u k h j =
      rw (k.0, k.1, batch-head_rows row.fact.fact_key h, batch-request _ j u.1) refl

module _ {ℓ} {A : Type ℓ} where
  All-insert_by :
      (P : A → Type 0) (t : A → A → Bool) (a : A) (xs : List A)
      → P a
      → All P xs
      → All P (insert_by t a xs)
  unfolding insert_by
  All-insert_by P t a [] h k = (h, k)
  All-insert_by P t a (x ∷ xs) h k = elim (Bool-cases (t a x)) [
    | inl e ↦ rw e (h, k)
    | inr e ↦ rw e (k.0, All-insert_by P t a xs h k.1)
  ]

  All-order_by :
      (P : A → Type 0) (t : A → A → Bool) (xs : List A) → All P xs → All P (order_by t xs)
  unfolding order_by
  All-order_by P t [] h = h
  All-order_by P t (x ∷ xs) h = All-insert_by P t x _ h.0 (All-order_by P t xs h.1)

  pub length-order_by : (t : A → A → Bool) (xs : List A) → length (order_by t xs) ≡ length xs
  unfolding order_by
  length-order_by t [] = refl
  length-order_by t (x ∷ xs) = inserted x (order_by t xs) ∙ ap suc (length-order_by t xs)
    where
      inserted : (a : A) (ys : List A) → length (insert_by t a ys) ≡ suc (length ys)
      inserted a [] = unfold insert_by in refl
      inserted a (y ∷ ys) = unfold insert_by in ground (arith, inserted a ys)

-- The row of the table that an item shows.
abbrev pub row_of : ProjectionFact → FactRow
row_of i = record { fact = i.fact; is_fresh = i.fresh; synced_at = i.synced_at }

module _ (f : FactFilters) (db : Database) where
  pub fact_rows-All :
      (P : FactRow → Type 0)
      → All P (keep_if (passes f db.requests) db.facts)
      → All P (fact_rows f db)
  unfolding fact_rows
  fact_rows-All P h =
      All-take P f.limit _ (All-drop P f.offset _ (All-order_by P (in_order f.sort) _ h))

  pub length-fact_rows :
      length (fact_rows f db)
      ≡ min f.limit (length (keep_if (passes f db.requests) db.facts) - f.offset)
  unfolding fact_rows
  length-fact_rows =
      length-take f.limit _
      ∙ ap (min f.limit)
          (length-drop f.offset _ ∙ ap (λ n. n - f.offset) (length-order_by (in_order f.sort) _))

-- In a database whose rows have their keys, each item of a page of facts is what the read of its fact
-- alone gives, and its row passes the filters; the page has as many items as the filters leave behind
-- the offset, but at most the limit.
pub list_facts-get_fact :
    (f : FactFilters) (db : Database)
    → IsKeyed db
    → All (λ i. get_fact i.fact.fact_key db ≡ some i) (list_facts f db).0
      × All (λ i. passes f db.requests (row_of i) ≡ true) (list_facts f db).0
      × (length (list_facts f db).0 ≡ min f.limit ((list_facts f db).1 - f.offset))
unfolding list_facts
list_facts-get_fact f db u =
    let rows = fact_rows f db in
    let stored : All (IsFactOf db) rows = fact_rows-All f db (IsFactOf db) (
      All-keep_if (IsFactOf db) (passes f db.requests) db.facts
        (All-imp db.facts (λ x h e. h) u.0)) in
    let passed : All (λ row. passes f db.requests row ≡ true) rows =
      fact_rows-All f db (λ row. passes f db.requests row ≡ true)
        (All-keep_if _ (passes f db.requests) db.facts (All-any_self db.facts)) in
    (
      All-map _ _ rows (
          each rows rows stored
            (All-any (λ x y. same y.fact.fact_key x.fact.fact_key) rows
              (λ x. same_self x.fact.fact_key))
            (All-any (λ x y. y.fact.current_request_id == x.fact.current_request_id) rows
              (λ x. ==_self x.fact.current_request_id))),
      All-map _ _ rows passed,
      length-map _ rows ∙ length-fact_rows f db,
    )
  where
    All-any_self :
        (xs : List FactRow)
        → All (λ x. passes f db.requests x ≡ true → passes f db.requests x ≡ true) xs
    All-any_self [] = tt
    All-any_self (x ∷ xs) = ((λ e. e), All-any_self xs)

    each :
        (all rows : List FactRow)
        → All (IsFactOf db) rows
        → All (λ row. is_key_of all row.fact.fact_key ≡ true) rows
        → All (λ row. is_request_of all row.fact.current_request_id ≡ true) rows
        → All
            (λ row.
              get_fact row.fact.fact_key db
              ≡ some (item (group_rows [] (head_rows_of all db)) (requests_of all db) row))
            rows
    each all [] h k j = tt
    each all (row ∷ rows) h k j =
        (item-get_fact all db row u h.0 k.0 j.0, each all rows h.1 k.1 j.1)
