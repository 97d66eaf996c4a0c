-- ===== src/Protocol/Json.antt =====
-- JSON values and `toJsonSafe` of packages/protocol/src/serialization.ts, and `normalize` of
-- scripts/phase1-read-certification.ts.
pub mod Safe
pub mod Pages
mod Tests
use evidra_protocol.Base.{
  ℕ, zero, suc, ◌+◌, Bool, true, false, List, [], ◌∷◌, ◌++◌, Text, lit, same, ltb, if◌then◌else◌,
  max,
}
use evidra_protocol.Protocol.Values.{Value, nil, integer, string, other, Record, text}
use evidra_protocol.Protocol.Client.Calls.{number_text}

-- A value without objects, a bigint, an array, or an object with its entries in order.
mutual
  pub data Json : Type 0 where
    leaf : Value → Json
    bigint : ℕ → Json
    array : Items → Json
    object : Fields → Json

  pub data Items : Type 0 where
    no_items : Items
    item : Json → Items → Items

  pub data Fields : Type 0 where
    no_fields : Fields
    field : Text → Json → Fields → Fields

-- `toJsonSafe`
unfoldable mutual
  pub to_json_safe : Json → Json
  to_json_safe (leaf v) = leaf v
  to_json_safe (bigint n) = leaf (string (number_text n))
  to_json_safe (array xs) = array (items_safe xs)
  to_json_safe (object fs) = object (fields_safe fs)

  pub items_safe : Items → Items
  items_safe no_items = no_items
  items_safe (item x xs) = item (to_json_safe x) (items_safe xs)

  pub fields_safe : Fields → Fields
  fields_safe no_fields = no_fields
  fields_safe (field k x fs) = field k (to_json_safe x) (fields_safe fs)

-- `normalize` of the script: what lies deeper than eight levels is cut.
unfoldable mutual
  pub normalize : Json → (depth : ℕ) → Json
  normalize (leaf v) depth = leaf v
  normalize (bigint n) depth = leaf (string (number_text n))
  normalize (array xs) depth =
      if ltb 8 depth
      then leaf (string (lit "[depth limit]"))
      else array (items_normal xs (depth + 1))
  normalize (object fs) depth =
      if ltb 8 depth
      then leaf (string (lit "[depth limit]"))
      else object (fields_normal fs (depth + 1))

  pub items_normal : Items → (depth : ℕ) → Items
  items_normal no_items depth = no_items
  items_normal (item x xs) depth = item (normalize x depth) (items_normal xs depth)

  pub fields_normal : Fields → (depth : ℕ) → Fields
  fields_normal no_fields depth = no_fields
  fields_normal (field k x fs) depth = field k (normalize x depth) (fields_normal fs depth)

-- How many arrays and objects lie within one another.
unfoldable mutual
  pub height : Json → ℕ
  height (leaf v) = 0
  height (bigint n) = 0
  height (array xs) = suc (items_height xs)
  height (object fs) = suc (fields_height fs)

  pub items_height : Items → ℕ
  items_height no_items = 0
  items_height (item x xs) = max (height x) (items_height xs)

  pub fields_height : Fields → ℕ
  fields_height no_fields = 0
  fields_height (field k x fs) = max (height x) (fields_height fs)

-- `JSON.stringify` throws on a bigint.
unfoldable mutual
  pub has_bigint : Json → Bool
  has_bigint (leaf v) = false
  has_bigint (bigint n) = true
  has_bigint (array xs) = items_bigint xs
  has_bigint (object fs) = fields_bigint fs

  pub items_bigint : Items → Bool
  items_bigint no_items = false
  items_bigint (item x xs) = if has_bigint x then true else items_bigint xs

  pub fields_bigint : Fields → Bool
  fields_bigint no_fields = false
  fields_bigint (field k x fs) = if has_bigint x then true else fields_bigint fs

-- `String` of a value that is not null or undefined; an array joins its items, which may be.
unfoldable mutual
  pub json_text : Json → Text
  json_text (leaf v) = text v
  json_text (bigint n) = number_text n
  json_text (array xs) = items_text xs
  json_text (object fs) = lit "[object Object]"

  pub items_text : Items → Text
  items_text no_items = []
  items_text (item x xs) = json_text x ++ more_text xs

  pub more_text : Items → Text
  more_text no_items = []
  more_text (item x xs) = lit "," ++ (json_text x ++ more_text xs)

-- A property of an object as a value.
unfoldable pub value_of : Json → Value
value_of (leaf v) = v
value_of (bigint n) = integer n (number_text n)
value_of (array xs) = other (json_text (array xs)) true
value_of (object fs) = other (json_text (object fs)) true

unfoldable pub record_of : Fields → Record
record_of no_fields = []
record_of (field k x fs) = (k, value_of x) ∷ record_of fs

abbrev pub field_of : Fields → Text → Json
field_of no_fields key = leaf nil
field_of (field k x fs) key = if same k key then x else field_of fs key

abbrev pub item_list : Items → List Json
item_list no_items = []
item_list (item x xs) = x ∷ item_list xs
