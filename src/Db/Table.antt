-- ===== src/Db/Table.antt =====
-- What the SQL statements of packages/db/src/repository.ts do to the rows of a table.
use evidra_protocol.Base.{
  ℕ, ◌+◌, ◌≡◌, Bool, true, false, some, List, [], ◌∷◌, leb, find_first, if◌then◌else◌, arith,
  Bool-cases, inl, inr,
}

module _ {ℓ} {A : Type ℓ} where
  -- INSERT … ON CONFLICT DO UPDATE: the row with the key is replaced, or the row is added.
  unfoldable pub upsert_by : (A → Bool) → A → List A → List A
  upsert_by has row [] = row ∷ []
  upsert_by has row (x ∷ xs) = if has x then row ∷ xs else x ∷ upsert_by has row xs

  -- UPDATE … WHERE
  unfoldable pub update_if : (A → Bool) → (A → A) → List A → List A
  update_if test f [] = []
  update_if test f (x ∷ xs) = (if test x then f x else x) ∷ update_if test f xs

  unfoldable pub count_changed : (A → Bool) → List A → ℕ
  count_changed test [] = 0
  count_changed test (x ∷ xs) = (if test x then 1 else 0) + count_changed test xs

  -- ORDER BY key DESC
  unfoldable pub insert_desc : (A → ℕ) → A → List A → List A
  insert_desc key a [] = a ∷ []
  insert_desc key a (x ∷ xs) = if leb (key x) (key a) then a ∷ x ∷ xs else x ∷ insert_desc key a xs

  unfoldable pub order_desc : (A → ℕ) → List A → List A
  unfolding insert_desc
  order_desc key [] = []
  order_desc key (x ∷ xs) = insert_desc key x (order_desc key xs)

  -- The row that was written is the one that is found.
  pub find_first-upsert_by :
      (has : A → Bool) (row : A) (xs : List A)
      → has row ≡ true
      → find_first has (upsert_by has row xs) ≡ some row
  unfolding upsert_by
  find_first-upsert_by has row [] h = ground arith
  find_first-upsert_by has row (x ∷ xs) h = elim (Bool-cases (has x)) [
    | inl e ↦ rw (e, h)
    | inr e ↦ rw (e, e) (find_first-upsert_by has row xs h)
  ]

  -- A key that the write does not touch is found as before.
  pub find_first-upsert_by_other :
      (has test : A → Bool) (row : A) (xs : List A)
      → test row ≡ false
      → ((x : A) → has x ≡ true → test x ≡ false)
      → find_first test (upsert_by has row xs) ≡ find_first test xs
  unfolding upsert_by
  find_first-upsert_by_other has test row [] h d = rw h
  find_first-upsert_by_other has test row (x ∷ xs) h d = elim (Bool-cases (has x)) [
    | inl e ↦ rw (e, h, d x e)
    | inr e ↦ rw e (ground (arith, find_first-upsert_by_other has test row xs h d))
  ]
