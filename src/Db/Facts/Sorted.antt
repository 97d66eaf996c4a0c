-- ===== src/Db/Facts/Sorted.antt =====
-- ORDER BY in packages/db/src/repository.ts: rows in an order that a test gives.
use evidra_protocol.Base.{Bool, List, [], ◌∷◌, if◌then◌else◌}

module _ {ℓ} {A : Type ℓ} where
  unfoldable pub insert_by : (A → A → Bool) → A → List A → List A
  insert_by in_order a [] = a ∷ []
  insert_by in_order a (x ∷ xs) = if in_order a x then a ∷ x ∷ xs else x ∷ insert_by in_order a xs

  unfoldable pub order_by : (A → A → Bool) → List A → List A
  unfolding insert_by
  order_by in_order [] = []
  order_by in_order (x ∷ xs) = insert_by in_order x (order_by in_order xs)
