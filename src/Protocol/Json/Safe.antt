-- ===== src/Protocol/Json/Safe.antt =====
-- `toJsonSafe` of packages/protocol/src/serialization.ts and the `normalize` of
-- scripts/phase1-read-certification.ts.
use evidra_protocol.Base.{ℕ, ◌+◌, ◌≤◌, ◌≡◌, refl, ap, ap₂, false, ltb, if◌then◌else◌, arith}
use evidra_protocol.Protocol.Json.{
  Json, leaf, bigint, array, object, Items, no_items, item, Fields, no_fields, field, to_json_safe,
  items_safe, fields_safe, normalize, items_normal, fields_normal, height, items_height,
  fields_height, has_bigint, items_bigint, fields_bigint,
}

mutual
  unfolding to_json_safe has_bigint

  safe_plain : (x : Json) → has_bigint (to_json_safe x) ≡ false
  safe_plain (leaf v) = refl
  safe_plain (bigint n) = refl
  safe_plain (array xs) = items_plain xs
  safe_plain (object fs) = fields_plain fs

  items_plain : (xs : Items) → items_bigint (items_safe xs) ≡ false
  items_plain no_items = refl
  items_plain (item x xs) = rw (safe_plain x) (items_plain xs)

  fields_plain : (fs : Fields) → fields_bigint (fields_safe fs) ≡ false
  fields_plain no_fields = refl
  fields_plain (field k x fs) = rw (safe_plain x) (fields_plain fs)

if_cut :
    (depth : ℕ) {A : Type 0} (a b c : A)
    → ltb 8 depth ≡ false
    → b ≡ c
    → (if ltb 8 depth then a else b) ≡ c
if_cut depth a b c h e = rw h e

mutual
  unfolding to_json_safe normalize height

  same_form : (x : Json) (depth : ℕ) → height x + depth ≤ 9 → normalize x depth ≡ to_json_safe x
  same_form (leaf v) depth h = refl
  same_form (bigint n) depth h = refl
  same_form (array xs) depth h =
      if_cut depth _ _ _ (ground (arith, h))
        (ap array (items_form xs (depth + 1) (omega (arith, h))))
  same_form (object fs) depth h =
      if_cut depth _ _ _ (ground (arith, h))
        (ap object (fields_form fs (depth + 1) (omega (arith, h))))

  items_form :
      (xs : Items) (depth : ℕ) → items_height xs + depth ≤ 9 → items_normal xs depth ≡ items_safe xs
  items_form no_items depth h = refl
  items_form (item x xs) depth h =
      ap₂ item (same_form x depth (omega (arith, h))) (items_form xs depth (omega (arith, h)))

  fields_form :
      (fs : Fields) (depth : ℕ)
      → fields_height fs + depth ≤ 9
      → fields_normal fs depth ≡ fields_safe fs
  fields_form no_fields depth h = refl
  fields_form (field k x fs) depth h =
      ap₂ (field k) (same_form x depth (omega (arith, h))) (fields_form fs depth (omega (arith, h)))

mutual
  unfolding to_json_safe

  safe_twice : (x : Json) → to_json_safe (to_json_safe x) ≡ to_json_safe x
  safe_twice (leaf v) = refl
  safe_twice (bigint n) = refl
  safe_twice (array xs) = ap array (items_twice xs)
  safe_twice (object fs) = ap object (fields_twice fs)

  items_twice : (xs : Items) → items_safe (items_safe xs) ≡ items_safe xs
  items_twice no_items = refl
  items_twice (item x xs) = ap₂ item (safe_twice x) (items_twice xs)

  fields_twice : (fs : Fields) → fields_safe (fields_safe fs) ≡ fields_safe fs
  fields_twice no_fields = refl
  fields_twice (field k x fs) = ap₂ (field k) (safe_twice x) (fields_twice fs)

-- What `toJsonSafe` returns has no bigint left, at any depth, and is left as it is when it is made safe
-- again.
pub to_json_safe-plain :
    (x : Json)
    → (has_bigint (to_json_safe x) ≡ false) × (to_json_safe (to_json_safe x) ≡ to_json_safe x)
to_json_safe-plain x = (safe_plain x, safe_twice x)

-- For a value of at most nine nested arrays and objects, the report of the certification shows what
-- `toJsonSafe` makes of it.
pub normalize-to_json_safe : (x : Json) → height x ≤ 9 → normalize x 0 ≡ to_json_safe x
normalize-to_json_safe x h = same_form x 0 (omega (arith, h))
