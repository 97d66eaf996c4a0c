-- ===== src/Db/Facts/Grouped.antt =====
-- The batch of `listFacts` in packages/db/src/repository.ts: the rows of one key in an ordered batch
-- and in the groups made of it, and the search in a Map of unique rows.
use evidra_protocol.Base.{
  ℕ, ◌≤◌, ◌≡◌, refl, sym, ap, ◌∙◌, subst, Bool, true, false, ◌&&◌, Option, none, some, List, [],
  ◌∷◌, ◌++◌, map, Text, same, same→eq, same_comm, leb, ◌==◌, keep_if, find_first, if◌then◌else◌,
  arith, Bool-cases, inl, inr, All,
}
use evidra_protocol.Db.Table.{insert_desc, order_desc}
use evidra_protocol.Db.Mutable.{IsDescending, order-IsDescending}
use evidra_protocol.Db.{ResolutionRow, of_fact}
use evidra_protocol.Db.Facts.{Groups, group_of, push_row, group_rows, find_last, or_else}

All-weak : (m n : ℕ) (ks : List ℕ) → m ≤ n → All (λ k. k ≤ m) ks → All (λ k. k ≤ n) ks
All-weak m n [] h k = tt
All-weak m n (x ∷ xs) h k = (omega (arith, k.0), All-weak m n xs h k.1)

module _ {ℓ} {A : Type ℓ} where
  pub keep_if-and :
      (p q : A → Bool) (xs : List A) → keep_if p (keep_if q xs) ≡ keep_if (λ x. q x && p x) xs
  keep_if-and p q [] = refl
  keep_if-and p q (x ∷ xs) = ground (arith, keep_if-and p q xs)

  pub keep_if-ext :
      (p q : A → Bool) (xs : List A) → ((x : A) → p x ≡ q x) → keep_if p xs ≡ keep_if q xs
  keep_if-ext p q [] h = refl
  keep_if-ext p q (x ∷ xs) h = ground (arith, h x, keep_if-ext p q xs h)

  -- What is inserted before keys that are not greater comes first.
  insert_desc-head :
      (key : A → ℕ) (a : A) (xs : List A)
      → All (λ k. k ≤ key a) (map key xs)
      → insert_desc key a xs ≡ a ∷ xs
  unfolding insert_desc
  insert_desc-head key a [] h = refl
  insert_desc-head key a (x ∷ xs) h = ground (arith, h.0)

  All-kept :
      (P : ℕ → Type 0) (key : A → ℕ) (q : A → Bool) (xs : List A)
      → All P (map key xs)
      → All P (map key (keep_if q xs))
  All-kept P key q [] h = tt
  All-kept P key q (x ∷ xs) h = elim (Bool-cases (q x)) [
    | inl e ↦ rw e (h.0, All-kept P key q xs h.1)
    | inr e ↦ rw e (All-kept P key q xs h.1)
  ]

  keep_if-insert_desc :
      (key : A → ℕ) (q : A → Bool) (a : A) (xs : List A)
      → IsDescending (map key xs)
      → keep_if q (insert_desc key a xs)
        ≡ (if q a then insert_desc key a (keep_if q xs) else keep_if q xs)
  unfolding insert_desc
  keep_if-insert_desc key q a [] h = ground arith
  keep_if-insert_desc key q a (x ∷ xs) h = elim (Bool-cases (leb (key x) (key a))) [
    | inl e ↦
        let small =
          All-kept (λ k. k ≤ key a) key q (x ∷ xs)
            (ground (arith, e), All-weak (key x) (key a) _ (ground (arith, e)) h.0) in
        rw (e, insert_desc-head key a (keep_if q (x ∷ xs)) small)
    | inr e ↦ rw e (ground (arith, e, keep_if-insert_desc key q a xs h.1))
  ]

  -- The rows of a test keep their order.
  pub keep_if-order_desc :
      (key : A → ℕ) (q : A → Bool) (xs : List A)
      → keep_if q (order_desc key xs) ≡ order_desc key (keep_if q xs)
  unfolding order_desc
  keep_if-order_desc key q [] = refl
  keep_if-order_desc key q (x ∷ xs) =
      keep_if-insert_desc key q x _ (order-IsDescending key xs)
      ∙ ground (arith, keep_if-order_desc key q xs)

  find_last-none : (p : A → Bool) (xs : List A) → find_last p xs ≡ none → find_first p xs ≡ none
  unfolding find_last
  find_last-none p [] h = refl
  find_last-none p (x ∷ xs) h = ground (arith, find_last-none p xs)

  -- A row that is found is the first of the rows in which it is the only one with its number.
  find_last-some :
      (id : A → ℕ) (n : ℕ) (ys xs : List A) (a : A)
      → All (λ x. find_first (λ y. id y == id x) ys ≡ some x) xs
      → find_last (λ y. id y == n) xs ≡ some a
      → find_first (λ y. id y == n) ys ≡ some a
  unfolding find_last
  find_last-some id n ys [] a u h = absurd (cc)
  find_last-some id n ys (x ∷ xs) a u h =
      either (find_last (λ y. id y == n) xs) (id x == n) refl (find_last-some id n ys xs a u.1) h
    where
      either :
          (o : Option A) (b : Bool)
          → (id x == n) ≡ b
          → (o ≡ some a → find_first (λ y. id y == n) ys ≡ some a)
          → or_else o (if b then some x else none) ≡ some a
          → find_first (λ y. id y == n) ys ≡ some a
      either (some z) b e k h = k h
      either none true e k h =
          subst (λ m. find_first (λ y. id y == m) ys ≡ some a) (ground (arith, e)) (u.0 ∙ h)
      either none false e k h = absurd (cc)

  -- In a table of unique rows the last row of a number is the first.
  pub find_last_unique :
      (id : A → ℕ) (n : ℕ) (xs : List A)
      → All (λ x. find_first (λ y. id y == id x) xs ≡ some x) xs
      → find_last (λ y. id y == n) xs ≡ find_first (λ y. id y == n) xs
  find_last_unique id n xs u = either (find_last (λ y. id y == n) xs) refl
    where
      either :
          (o : Option A)
          → find_last (λ y. id y == n) xs ≡ o
          → find_last (λ y. id y == n) xs ≡ find_first (λ y. id y == n) xs
      either none e = e ∙ sym (find_last-none (λ y. id y == n) xs e)
      either (some a) e = e ∙ sym (find_last-some id n xs xs a u e)

  -- A search among rows that a weaker test keeps.
  pub find_last-keep_if :
      (p t : A → Bool) (xs : List A)
      → ((x : A) → p x ≡ true → t x ≡ true)
      → find_last p (keep_if t xs) ≡ find_last p xs
  unfolding find_last
  find_last-keep_if p t [] h = refl
  find_last-keep_if p t (x ∷ xs) h = either (t x) (h x) (find_last-keep_if p t xs h)
    where
      or_else-none : (o : Option A) → or_else o none ≡ o
      or_else-none none = refl
      or_else-none (some a) = refl

      either :
          (c : Bool)
          → (p x ≡ true → c ≡ true)
          → find_last p (keep_if t xs) ≡ find_last p xs
          → find_last p (if c then x ∷ keep_if t xs else keep_if t xs)
            ≡ or_else (find_last p xs) (if p x then some x else none)
      either true k e = ap (λ o. or_else o (if p x then some x else none)) e
      either false k e =
          let f : p x ≡ false = ground (arith, k) in rw (f, or_else-none (find_last p xs)) e

append_assoc {ℓ} : {A : Type ℓ} (xs ys zs : List A) → (xs ++ ys) ++ zs ≡ xs ++ (ys ++ zs)
append_assoc [] ys zs = refl
append_assoc (x ∷ xs) ys zs = ap (λ t. x ∷ t) (append_assoc xs ys zs)

append_nil {ℓ} : {A : Type ℓ} (xs : List A) → xs ++ [] ≡ xs
append_nil [] = refl
append_nil (x ∷ xs) = ap (λ t. x ∷ t) (append_nil xs)

same_trans : (s t u : Text) → same s t ≡ true → same t u ≡ same s u
same_trans s t u h = ap (λ z. same z u) (sym (same→eq s t h))

group_of-push_row :
    (r : ResolutionRow) (gs : Groups) (key : Text)
    → group_of (push_row r gs) key ≡ group_of gs key ++ (if of_fact key r then r ∷ [] else [])
unfolding push_row
group_of-push_row r [] key = refl
group_of-push_row r ((k, rows) ∷ gs) key = elim (Bool-cases (same k r.resolution.fact_key)) [
  | inl e ↦ rw (e, sym (same_trans k r.resolution.fact_key key e)) (joined (of_fact key r))
  | inr e ↦ rw e (kept (same k key) refl e (group_of-push_row r gs key))
]
  where
    joined :
        (b : Bool)
        → (if b then rows ++ (r ∷ []) else group_of gs key)
          ≡ (if b then rows else group_of gs key) ++ (if b then r ∷ [] else [])
    joined true = refl
    joined false = sym (append_nil _)

    kept :
        (b : Bool)
        → same k key ≡ b
        → same k r.resolution.fact_key ≡ false
        → group_of (push_row r gs) key ≡ group_of gs key ++ (if of_fact key r then r ∷ [] else [])
        → (if b then rows else group_of (push_row r gs) key)
          ≡ (if b then rows else group_of gs key) ++ (if of_fact key r then r ∷ [] else [])
    kept true e f ih =
        let g : same r.resolution.fact_key k ≡ false = same_comm r.resolution.fact_key k ∙ f in
        let h : of_fact key r ≡ false =
          subst (λ z. same r.resolution.fact_key z ≡ false) (same→eq k key e) g in
        rw h (sym (append_nil rows))
    kept false e f ih = ih

pub group_of-group_rows :
    (gs : Groups) (rs : List ResolutionRow) (key : Text)
    → group_of (group_rows gs rs) key ≡ group_of gs key ++ keep_if (of_fact key) rs
unfolding group_rows
group_of-group_rows gs [] key = sym (append_nil _)
group_of-group_rows gs (r ∷ rs) key =
    group_of-group_rows (push_row r gs) rs key
    ∙ ap (λ t. t ++ keep_if (of_fact key) rs) (group_of-push_row r gs key)
    ∙ append_assoc (group_of gs key) _ _
    ∙ ground arith
