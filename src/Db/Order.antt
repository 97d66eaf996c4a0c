-- ===== src/Db/Order.antt =====
-- Rows kept, ordered and searched in packages/db/src/repository.ts.
use evidra_protocol.Base.{
  ℕ, zero, suc, ◌≡◌, refl, subst, ◌∙◌, ap, Bool, true, false, ◌&&◌, ◌||◌, some, List, [], ◌∷◌, leb,
  length, keep_if, find_first, any, take, if◌then◌else◌, arith, Bool-cases, inl, inr, All,
}
use evidra_protocol.Db.Table.{insert_desc, order_desc}

module _ {ℓ} {A : Type ℓ} where
  any-insert_desc :
      (key : A → ℕ) (p : A → Bool) (a : A) (xs : List A)
      → any (insert_desc key a xs) p ≡ (p a || any xs p)
  unfolding insert_desc
  any-insert_desc key p a [] = refl
  any-insert_desc key p a (x ∷ xs) = ground (arith, any-insert_desc key p a xs)

  pub any-order_desc :
      (key : A → ℕ) (p : A → Bool) (xs : List A) → any (order_desc key xs) p ≡ any xs p
  unfolding order_desc
  any-order_desc key p [] = refl
  any-order_desc key p (x ∷ xs) =
      any-insert_desc key p x (order_desc key xs) ∙ ap (λ b. p x || b) (any-order_desc key p xs)

  pub any-keep_if : (p q : A → Bool) (xs : List A) → any (keep_if q xs) p ≡ any xs (λ x. q x && p x)
  any-keep_if p q [] = refl
  any-keep_if p q (x ∷ xs) = elim (Bool-cases (q x)) [
    | inl e ↦ rw (e, any-keep_if p q xs)
    | inr e ↦ rw (e, any-keep_if p q xs)
  ]

  pub length-order_desc : (key : A → ℕ) (xs : List A) → length (order_desc key xs) ≡ length xs
  unfolding order_desc
  length-order_desc key [] = refl
  length-order_desc key (x ∷ xs) =
      inserted x (order_desc key xs) ∙ ap suc (length-order_desc key xs)
    where
      inserted : (a : A) (ys : List A) → length (insert_desc key a ys) ≡ suc (length ys)
      inserted a [] = refl
      inserted a (y ∷ ys) = ground (arith, inserted a ys)

  -- A predicate of the rows, through each of the operations.
  module _ (P : A → Type 0) where
    if_holds : (b : Bool) (xs ys : List A) → All P xs → All P ys → All P (if b then xs else ys)
    if_holds true xs ys h k = h
    if_holds false xs ys h k = k

    All-insert_desc :
        (key : A → ℕ) (a : A) (xs : List A) → P a → All P xs → All P (insert_desc key a xs)
    unfolding insert_desc
    All-insert_desc key a [] h k = (h, k)
    All-insert_desc key a (x ∷ xs) h k =
        if_holds (leb (key x) (key a)) _ _ (h, k) (k.0, All-insert_desc key a xs h k.1)

    pub All-order_desc : (key : A → ℕ) (xs : List A) → All P xs → All P (order_desc key xs)
    unfolding order_desc
    All-order_desc key [] h = h
    All-order_desc key (x ∷ xs) h = All-insert_desc key x _ h.0 (All-order_desc key xs h.1)

    pub All-keep_if :
        (q : A → Bool) (xs : List A) → All (λ x. q x ≡ true → P x) xs → All P (keep_if q xs)
    All-keep_if q [] h = tt
    All-keep_if q (x ∷ xs) h = elim (Bool-cases (q x)) [
      | inl e ↦ rw e (h.0 e, All-keep_if q xs h.1)
      | inr e ↦ rw e (All-keep_if q xs h.1)
    ]

    pub All-take : (n : ℕ) (xs : List A) → All P xs → All P (take n xs)
    All-take zero xs h = tt
    All-take (suc n) [] h = tt
    All-take (suc n) (x ∷ xs) h = (h.0, All-take n xs h.1)

    pub All-find_first :
        (p : A → Bool) (xs : List A) (a : A)
        → All P xs
        → find_first p xs ≡ some a
        → P a × (p a ≡ true)
    All-find_first p [] a h e = absurd (cc)
    All-find_first p (x ∷ xs) a h e = found (p x) refl e (All-find_first p xs a h.1)
      where
        found :
            (b : Bool)
            → p x ≡ b
            → (if b then some x else find_first p xs) ≡ some a
            → (find_first p xs ≡ some a → P a × (p a ≡ true))
            → P a × (p a ≡ true)
        found true f e k =
            let same_row : x ≡ a = cc in subst (λ z. P z × (p z ≡ true)) same_row (h.0, f)
        found false f e k = k e

  -- A search finds a row when there is one.
  pub any-find_first :
      (p : A → Bool) (xs : List A) → any xs p ≡ true → (a : A) × (find_first p xs ≡ some a)
  any-find_first p [] h = absurd (cc)
  any-find_first p (x ∷ xs) h = elim (Bool-cases (p x)) [
    | inl e ↦ (x, rw e)
    | inr e ↦ let (a, f) = any-find_first p xs (ground (arith, e, h)) in (a, rw e f)
  ]
