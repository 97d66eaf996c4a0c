-- ===== src/Protocol/Json/Tests.antt =====
-- packages/protocol/src/serialization.ts at concrete values.
use evidra_protocol.Base.{
  ◌≤◌, ◌≡◌, refl, Option, none, some, [], ◌∷◌, Text, lit, length, arith, decimal,
}
use evidra_protocol.Protocol.Types.{EventPage}
use evidra_protocol.Protocol.Values.{
  Record, integer, string, get, text, to_number, to_big_int, trim, max_safe_integer,
}
use evidra_protocol.Protocol.Json.{
  Json, leaf, bigint, array, object, no_items, item, no_fields, field, to_json_safe, normalize,
  height, record_of, value_of,
}
use evidra_protocol.Protocol.Json.Safe.{normalize-to_json_safe}
use evidra_protocol.Protocol.Json.Pages.{
  normalize_event_page, byte_length, or_value, max_json_bytes,
}
use evidra_protocol.Protocol.Json.Pages.Bounds.{normalize_event_page-bounds}

-- An object with a list of a bigint.
abbrev nested : Json
nested = object (field (lit "ids") (array (item (bigint 3) no_items)) no_fields)

normalize-to_json_safe_example : normalize nested 0 ≡ to_json_safe nested
unfolding height
normalize-to_json_safe_example = normalize-to_json_safe nested (omega arith)

-- A parser that knows one text.
abbrev parse_one : Text → Option Json
parse_one [] = none
parse_one (c ∷ s) = some (
    array (
      item
        (object (
          field (lit "index") (leaf (string (lit "7"))) (
            field (lit "topic") (leaf (string (lit "PolicyPublished")))
              (field (lit "timestamp") (leaf (integer 90 (lit "90"))) no_fields))))
        no_items))

abbrev raw_page : Record
raw_page =
    (lit "items_json", string (lit "[…]"))
    ∷ (lit "offset", integer 7 (lit "7"))
    ∷ (lit "limit", integer 1 (lit "1"))
    ∷ (lit "total", integer 9 (lit "9"))
    ∷ []

abbrev one_event : EventPage
one_event = record {
  offset = 7;
  limit = 1;
  total = 9;
  items =
      (record { index = 7; topic = lit "PolicyPublished"; payload = lit "{}"; timestamp = 90 })
      ∷ [];
}

normalize_event_page-bounds_example :
    (length one_event.items ≤ 50)
    × (byte_length (text (or_value (get raw_page (lit "items_json")) (string (lit "[]"))))
        ≤ max_json_bytes)
    × (one_event.offset ≤ max_safe_integer)
    × (one_event.limit ≤ max_safe_integer)
    × (one_event.total ≤ max_safe_integer)
unfolding normalize_event_page to_number to_big_int trim record_of value_of decimal
normalize_event_page-bounds_example = normalize_event_page-bounds parse_one raw_page one_event refl
