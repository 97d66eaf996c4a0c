-- ===== src/Protocol/Json/Pages.antt =====
-- The pages of packages/protocol/src/pagination.ts and the parsers of
-- packages/protocol/src/serialization.ts. `parse` stands for `JSON.parse`, which fails with none.
pub mod Bounds
use evidra_protocol.Base.{
  ℕ, ◌+◌, ◌*◌, Bool, true, false, not, ◌&&◌, ◌||◌, Option, none, some, List, [], ◌∷◌, map, Text,
  lit, Result, ok, err, ◌>>=◌, ◌>>◌, ensure, ltb, leb, length, any, if◌then◌else◌,
}
use evidra_protocol.Protocol.Types.{ProtocolEvent, EventPage, EvidenceEntry, EvidenceManifest}
use evidra_protocol.Protocol.Values.{
  Value, nil, boolean, integer, string, other, Record, get, text, flag, to_big_int, to_number,
}
use evidra_protocol.Protocol.Json.{
  Json, leaf, bigint, array, object, Fields, no_fields, record_of, value_of, field_of, item_list,
}

-- `MAX_PAGE_SIZE`
abbrev pub max_page_size : ℕ
max_page_size = 50

-- `Number(input)`: left out, a natural number, or something else.
pub data PageInput : Type 0 where
  left_out : PageInput
  natural : ℕ → PageInput
  no_natural : PageInput

abbrev offset_of : PageInput → Result Text ℕ
offset_of left_out = ok 0
offset_of (natural n) = ok n
offset_of no_natural = err (lit "offset must be a non-negative integer")

abbrev limit_of : PageInput → Result Text ℕ
limit_of left_out = ok 20
limit_of (natural n) =
    if ltb n 1 || ltb max_page_size n then err (lit "limit must be 1-50") else ok n
limit_of no_natural = err (lit "limit must be 1-50")

-- `boundedPage`
unfoldable pub bounded_page : (offset limit : PageInput) → Result Text (ℕ × ℕ)
bounded_page offset limit = do offset ← offset_of offset; limit ← limit_of limit; ok (offset, limit)

pub record Page (A : Type 0) : Type 0 where
  pub items : List A
  pub offset : ℕ
  pub limit : ℕ
  pub total : ℕ
  pub has_more : Bool

-- `pageOf`
unfoldable pub page_of : {A : Type 0} → List A → (offset limit total : ℕ) → Page A
page_of items offset limit total = record {
  items = items;
  offset = offset;
  limit = limit;
  total = total;
  has_more = ltb (offset + length items) total;
}

-- `MAX_JSON_BYTES`
abbrev pub max_json_bytes : ℕ
max_json_bytes = 128 * 1024

abbrev is_high : ℕ → Bool
is_high c = leb 55296 c && leb c 56319

abbrev is_low : ℕ → Bool
is_low c = leb 56320 c && leb c 57343

-- The bytes of a code unit in UTF-8; a low surrogate completes the four of its pair.
abbrev unit_bytes : (after_high : Bool) → ℕ → ℕ
unit_bytes after_high c =
    if ltb c 128 then 1 else if ltb c 2048 then 2 else if after_high && is_low c then 1 else 3

abbrev bytes_from : (after_high : Bool) → Text → ℕ
bytes_from after_high [] = 0
bytes_from after_high (c ∷ s) = unit_bytes after_high c + bytes_from (is_high c) s

-- `Buffer.byteLength(value, 'utf8')`
unfoldable pub byte_length : Text → ℕ
byte_length s = bytes_from false s

abbrev pub parsed_or : Option Json → Text → Result Text Json
parsed_or none field = err field
parsed_or (some x) field = ok x

-- The items of an array that is not too long.
abbrev pub bounded_items : (max : ℕ) → Json → (message : Text) → Result Text (List Json)
bounded_items max (array xs) message =
    if ltb max (length (item_list xs)) then err message else ok (item_list xs)
bounded_items max (leaf v) message = err message
bounded_items max (bigint n) message = err message
bounded_items max (object fs) message = err message

abbrev is_text : Json → Bool
is_text (leaf (string s)) = true
is_text _ = false

abbrev texts_of : List Json → List Text
texts_of [] = []
texts_of (x ∷ xs) = text (value_of x) ∷ texts_of xs

-- The object behind an event or an evidence record; another value has no fields that are read.
abbrev fields_of : Json → Fields
fields_of (object fs) = fs
fields_of (array xs) = no_fields
fields_of (leaf v) = no_fields
fields_of (bigint n) = no_fields

-- `raw && typeof raw === 'object'`
abbrev is_object : Json → Bool
is_object (object fs) = true
is_object (array xs) = true
is_object (leaf v) = false
is_object (bigint n) = false

-- `value ?? other`
abbrev pub or_value : Value → Value → Value
or_value nil b = b
or_value (boolean x) b = boolean x
or_value (integer n s) b = integer n s
or_value (string s) b = string s
or_value (other s t) b = other s t

-- `...(value ? { key: String(value) } : {})`
abbrev when_given : Value → Option Text
when_given v = if flag v then some (text v) else none

abbrev pub traverse : {A B : Type 0} → (A → Result Text B) → List A → Result Text (List B)
traverse f [] = ok []
traverse f (x ∷ xs) = do y ← f x; ys ← traverse f xs; ok (y ∷ ys)

-- `normalizeEvent`
unfoldable pub normalize_event : Json → Result Text ProtocolEvent
normalize_event x = do
  ensure (is_object x) (lit "Invalid event record")
  index ← to_big_int (get (record_of (fields_of x)) (lit "index")) (lit "event.index")
  timestamp ← to_big_int (get (record_of (fields_of x)) (lit "timestamp")) (lit "event.timestamp")
  ok (record {
    index = index;
    topic = text (get (record_of (fields_of x)) (lit "topic"));
    payload = text (or_value (get (record_of (fields_of x)) (lit "payload")) (string (lit "{}")));
    timestamp = timestamp;
  })

pub record HistoryPage : Type 0 where
  pub fact_key : Text
  pub offset : ℕ
  pub limit : ℕ
  pub total : ℕ
  pub resolution_ids : List ℕ

-- `(parsed as { sources?: unknown }).sources`, or the array itself.
abbrev array_items : Json → List Json
array_items (array xs) = item_list xs
array_items (object fs) = []
array_items (leaf v) = []
array_items (bigint n) = []

abbrev source_items : Json → List Json
source_items (array xs) = item_list xs
source_items (object fs) = array_items (field_of fs (lit "sources"))
source_items (leaf v) = []
source_items (bigint n) = []

unfoldable pub normalize_entry : Json → EvidenceEntry
normalize_entry x =
    let value = record_of (fields_of x) in
    record {
      url = text (get value (lit "url"));
      canonical = when_given (get value (lit "canonical"));
      host = when_given (get value (lit "host"));
      status = text (or_value (get value (lit "status")) (get value (lit "fetch_status")));
      error = when_given (get value (lit "error"));
      origin = text (or_value (get value (lit "origin")) (get value (lit "source_origin")));
      category = when_given (get value (lit "category"));
      provenance_group = text (get value (lit "provenance_group"));
      source_class = text (get value (lit "source_class"));
      is_primary = flag (get value (lit "is_primary"));
      is_independent = flag (get value (lit "is_independent"));
      policy_eligible = flag (get value (lit "policy_eligible"));
      evidence_hash = text (get value (lit "evidence_hash"));
      relevant_timestamp = when_given (get value (lit "relevant_timestamp"));
    }

module _ (parse : Text → Option Json) where
  -- `parseJsonBounded`
  unfoldable pub parse_json_bounded : Text → (field : Text) → Result Text Json
  unfolding byte_length
  parse_json_bounded s field = do
    ensure (not (ltb max_json_bytes (byte_length s))) field
    parsed_or (parse s) field

  -- `parseStringArray`
  unfoldable pub parse_string_array : Text → (field : Text) → (max : ℕ) → Result Text (List Text)
  unfolding parse_json_bounded
  parse_string_array s field max = do
    parsed ← parse_json_bounded s field
    items ← bounded_items max parsed field
    ensure (not (any items (λ x. not (is_text x)))) field
    ok (texts_of items)

  -- `parsePageItems`
  unfoldable pub parse_page_items : Text → Result Text (List Json)
  unfolding parse_json_bounded
  parse_page_items s = do
    parsed ← parse_json_bounded s (lit "items_json")
    bounded_items max_page_size parsed (lit "items_json must be a bounded array")

  -- `normalizeEventPage`
  unfoldable pub normalize_event_page : Record → Result Text EventPage
  unfolding parse_page_items normalize_event
  normalize_event_page raw = do
    found ← parse_page_items (text (or_value (get raw (lit "items_json")) (string (lit "[]"))))
    items ← traverse normalize_event found
    offset ← to_number (get raw (lit "offset")) (lit "offset")
    limit ← to_number (get raw (lit "limit")) (lit "limit")
    total ← to_number (get raw (lit "total")) (lit "total")
    ok (record { offset = offset; limit = limit; total = total; items = items })

  -- `normalizeHistoryPage`
  unfoldable pub normalize_history_page : Record → Result Text HistoryPage
  unfolding parse_json_bounded
  normalize_history_page raw = do
    parsed ←
        parse_json_bounded
          (text (or_value (get raw (lit "resolution_ids_json")) (string (lit "[]"))))
          (lit "resolution_ids_json")
    found ← bounded_items max_page_size parsed (lit "resolution_ids_json must be bounded")
    offset ← to_number (get raw (lit "offset")) (lit "offset")
    limit ← to_number (get raw (lit "limit")) (lit "limit")
    total ← to_number (get raw (lit "total")) (lit "total")
    ids ← traverse (λ x. to_big_int (value_of x) (lit "resolution_id")) found
    ok (record {
      fact_key = text (get raw (lit "fact_key"));
      offset = offset;
      limit = limit;
      total = total;
      resolution_ids = ids;
    })

  -- The entries of a manifest text, which may be empty.
  abbrev entries_of : Text → Result Text (List EvidenceEntry)
  entries_of [] = ok []
  entries_of (c ∷ s) = do
    parsed ← parse_json_bounded (c ∷ s) (lit "manifest_json")
    ok (map normalize_entry (source_items parsed))

  -- `normalizeEvidenceManifest`
  unfoldable pub normalize_evidence_manifest : Record → Result Text EvidenceManifest
  unfolding parse_json_bounded normalize_entry
  normalize_evidence_manifest raw = do
    entries ← entries_of (text (get raw (lit "manifest_json")))
    resolution_id ← to_big_int (get raw (lit "resolution_id")) (lit "resolution_id")
    ok (record {
      exists = flag (get raw (lit "exists"));
      resolution_id = resolution_id;
      manifest_hash = text (get raw (lit "manifest_hash"));
      manifest_json = text (get raw (lit "manifest_json"));
      entries = entries;
    })
