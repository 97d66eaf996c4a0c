-- ===== src/Db/Mutable.antt =====
-- `listMutableRequestIds` of packages/db/src/repository.ts.
use evidra_protocol.Base.{
  ℕ, zero, suc, ◌≤◌, ◌&&◌, ◌||◌, ==_self, ◌≡◌, refl, ◌∙◌, ap, Bool, true, false, List, [], ◌∷◌, map,
  leb, length, take, keep_if, any, min, length-take, if◌then◌else◌, arith, Bool-cases, inl, inr,
  All, ◌==◌, length-map, All-map, All-imp,
}
use evidra_protocol.Protocol.Types.{RequestRecord}
use evidra_protocol.Db.Table.{insert_desc, order_desc}
use evidra_protocol.Db.Order.{All-order_desc, All-take, length-order_desc}
use evidra_protocol.Db.{Database, list_mutable_request_ids, is_mutable}

-- Ids from the greatest on.
abbrev pub IsDescending : List ℕ → Type 0
IsDescending [] = Unit
IsDescending (x ∷ xs) = All (λ y. y ≤ x) xs × IsDescending xs

module _ {ℓ} {A : Type ℓ} (key : A → ℕ) where
  abbrev keys : List A → List ℕ
  keys xs = map key xs

  All-keys-insert :
      (n : ℕ) (a : A) (xs : List A)
      → key a ≤ n
      → All (λ y. y ≤ n) (keys xs)
      → All (λ y. y ≤ n) (keys (insert_desc key a xs))
  unfolding insert_desc
  All-keys-insert n a [] h k = (h, tt)
  All-keys-insert n a (x ∷ xs) h k = elim (Bool-cases (leb (key x) (key a))) [
    | inl e ↦ rw e (h, k)
    | inr e ↦ rw e (k.0, All-keys-insert n a xs h k.1)
  ]

  All-le : (m n : ℕ) (xs : List ℕ) → m ≤ n → All (λ y. y ≤ m) xs → All (λ y. y ≤ n) xs
  All-le m n [] h k = tt
  All-le m n (x ∷ xs) h k = (omega (arith, k.0), All-le m n xs h k.1)

  insert-IsDescending :
      (a : A) (xs : List A) → IsDescending (keys xs) → IsDescending (keys (insert_desc key a xs))
  unfolding insert_desc
  insert-IsDescending a [] h = (tt, tt)
  insert-IsDescending a (x ∷ xs) h = elim (Bool-cases (leb (key x) (key a))) [
    | inl e ↦ rw e ((ground (arith, e), All-le _ _ (keys xs) (ground (arith, e)) h.0), h)
    | inr e ↦
        rw e (All-keys-insert (key x) a xs (ground (arith, e)) h.0, insert-IsDescending a xs h.1)
  ]

  pub order-IsDescending : (xs : List A) → IsDescending (keys (order_desc key xs))
  unfolding order_desc
  order-IsDescending [] = tt
  order-IsDescending (x ∷ xs) = insert-IsDescending x _ (order-IsDescending xs)

  All-keys-take :
      (P : ℕ → Type 0) (n : ℕ) (xs : List A) → All P (keys xs) → All P (keys (take n xs))
  All-keys-take P zero xs h = tt
  All-keys-take P (suc n) [] h = tt
  All-keys-take P (suc n) (x ∷ xs) h = (h.0, All-keys-take P n xs h.1)

  take-IsDescending :
      (n : ℕ) (xs : List A) → IsDescending (keys xs) → IsDescending (keys (take n xs))
  take-IsDescending zero xs h = tt
  take-IsDescending (suc n) [] h = tt
  take-IsDescending (suc n) (x ∷ xs) h = (All-keys-take _ n xs h.0, take-IsDescending n xs h.1)

-- A request of the table that is mutable has this id.
abbrev pub is_mutable_id : List RequestRecord → ℕ → Bool
is_mutable_id rs id = any rs (λ r. is_mutable r && (r.request_id == id))

module _ {A : Type 0} (p : A → Bool) (key : A → ℕ) where
  or_true : (a b : Bool) → b ≡ true → (a || b) ≡ true
  or_true a b h = ground (arith, h)

  -- What is kept is found among all the rows by its key.
  kept_rows : (xs : List A) → All (λ x. any xs (λ r. p r && (key r == key x)) ≡ true) (keep_if p xs)
  kept_rows [] = tt
  kept_rows (r ∷ rs) =
      let rest =
        All-imp {P = λ x. any rs (λ z. p z && (key z == key x)) ≡ true}
          {Q = λ x. any (r ∷ rs) (λ z. p z && (key z == key x)) ≡ true} (keep_if p rs)
          (λ x h. or_true _ _ h) (kept_rows rs) in
      either (p r) refl rest
    where
      here : (q : A → Bool) → q r ≡ true → any (r ∷ rs) q ≡ true
      here q h = rw h

      either :
          (b : Bool)
          → p r ≡ b
          → All (λ x. any (r ∷ rs) (λ z. p z && (key z == key x)) ≡ true) (keep_if p rs)
          → All
              (λ x. any (r ∷ rs) (λ z. p z && (key z == key x)) ≡ true)
              (if b then r ∷ keep_if p rs else keep_if p rs)
      either true e h = (here (λ z. p z && (key z == key r)) (rw (e, ==_self (key r))), h)
      either false e h = h

-- The mutable requests that a pass reads again: as many as are stored, but at most the limit and at
-- most 100; each listed id is that of a stored request that is mutable; the newest come first.
pub list_mutable_request_ids_lem :
    (limit : ℕ) (db : Database)
    → (length (list_mutable_request_ids limit db)
        ≡ min (min limit 100) (length (keep_if is_mutable db.requests)))
      × All (λ id. is_mutable_id db.requests id ≡ true) (list_mutable_request_ids limit db)
      × IsDescending (list_mutable_request_ids limit db)
unfolding list_mutable_request_ids
list_mutable_request_ids_lem limit db =
    let key : RequestRecord → ℕ = λ r. r.request_id in
    let rows = order_desc key (keep_if is_mutable db.requests) in
    (
      length-map key (take (min limit 100) rows)
          ∙ length-take (min limit 100) rows
          ∙ ap (min (min limit 100)) (length-order_desc key (keep_if is_mutable db.requests)),
      All-map _ key _
          (All-take _ _ rows (All-order_desc _ key _ (kept_rows is_mutable key db.requests))),
      take-IsDescending key (min limit 100) rows
          (order-IsDescending key (keep_if is_mutable db.requests)),
    )
