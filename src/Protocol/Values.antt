-- ===== src/Protocol/Values.antt =====
-- The values that a contract read returns, and the conversions of
-- packages/protocol/src/serialization.ts and packages/protocol/src/client.ts.
use evidra_protocol.Base.{
  ℕ, Bool, true, false, not, ◌&&◌, ◌||◌, List, [], ◌∷◌, Text, lit, Result, ok, err, same, is_digit,
  decimal, ltb, leb, ◌==◌, if◌then◌else◌,
}

-- A JavaScript value: null or undefined, a boolean, a bigint or a safe number that is a natural number,
-- a string, or another one. `shown` is what `String` makes of it. Negative integers are left out: the
-- numbers of the contracts are unsigned.
pub data Value : Type 0 where
  nil : Value
  boolean : Bool → Value
  integer : ℕ → (shown : Text) → Value
  string : Text → Value
  other : (shown : Text) → (truthy : Bool) → Value

-- The object that a read returns: its fields, the first of a name counts.
abbrev pub Record : Type 0
Record = List (Text × Value)

abbrev pub get : Record → Text → Value
get [] key = nil
get ((k, v) ∷ r) key = if same k key then v else get r key

-- The white space that `trim` removes.
abbrev pub is_space : ℕ → Bool
is_space c =
    (leb 9 c && leb c 13)
    || (c == 32)
    || (c == 160)
    || (c == 5760)
    || (leb 8192 c && leb c 8202)
    || (c == 8232)
    || (c == 8233)
    || (c == 8239)
    || (c == 8287)
    || (c == 12288)
    || (c == 65279)

abbrev pub trim_start : Text → Text
trim_start [] = []
trim_start (c ∷ s) = if is_space c then trim_start s else c ∷ s

abbrev is_nil : Text → Bool
is_nil [] = true
is_nil (c ∷ s) = false

abbrev pub trim_end : Text → Text
trim_end [] = []
trim_end (c ∷ s) = if is_space c && is_nil (trim_end s) then [] else c ∷ trim_end s

-- `s.trim()`
unfoldable pub trim : Text → Text
trim s = trim_end (trim_start s)

abbrev pub all_digits : Text → Bool
all_digits [] = true
all_digits (c ∷ s) = is_digit c && all_digits s

-- `toBigInt`, with the name of the field as the error.
unfoldable pub to_big_int : Value → (field : Text) → Result Text ℕ
to_big_int (integer n shown) field = ok n
to_big_int (string s) field =
    if all_digits (trim s) && not (is_nil (trim s)) then ok (decimal (trim s)) else err field
to_big_int nil field = err field
to_big_int (boolean b) field = err field
to_big_int (other shown truthy) field = err field

-- `Number.MAX_SAFE_INTEGER`
abbrev pub max_safe_integer : ℕ
max_safe_integer = 9007199254740991

abbrev pub if_safe : Text → Result Text ℕ → Result Text ℕ
if_safe field (ok n) = if ltb max_safe_integer n then err field else ok n
if_safe field (err e) = err e

-- `toNumber`
unfoldable pub to_number : Value → (field : Text) → Result Text ℕ
unfolding to_big_int
to_number v field = if_safe field (to_big_int v field)

-- `text`
abbrev pub text : Value → Text
text nil = []
text (boolean true) = lit "true"
text (boolean false) = lit "false"
text (integer n shown) = shown
text (string s) = s
text (other shown truthy) = shown

-- `flag`
abbrev pub flag : Value → Bool
flag nil = false
flag (boolean b) = b
flag (integer n shown) = not (n == 0)
flag (string s) = not (is_nil s)
flag (other shown truthy) = truthy
