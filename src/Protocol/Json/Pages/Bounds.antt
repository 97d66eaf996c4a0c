-- ===== src/Protocol/Json/Pages/Bounds.antt =====
-- The bounds of the pages of packages/protocol/src/serialization.ts.
use evidra_protocol.Base.{
  ℕ, suc, ◌≤◌, ◌≡◌, refl, sym, ap, ◌∙◌, Bool, true, false, not, Option, List, [], ◌∷◌, Text, lit,
  Result, ok, err, ensure, bind_ok, then_ok, ensure_ok, ltb, length, if◌then◌else◌, arith, subst,
}
use evidra_protocol.Protocol.Types.{EventPage}
use evidra_protocol.Protocol.Values.{
  Record, Value, get, text, string, to_number, to_big_int, max_safe_integer, if_safe,
}
use evidra_protocol.Protocol.Json.{Json, leaf, bigint, array, object, item_list}
use evidra_protocol.Protocol.Json.Pages.{
  max_json_bytes, byte_length, bounded_items, parse_json_bounded, parse_page_items, normalize_event,
  normalize_event_page, traverse, or_value, parsed_or,
}

ok_inj : {A : Type 0} (a b : A) → ◌≡◌ {A = Result Text A} (ok a) (ok b) → a ≡ b
ok_inj a b e = cc

traverse-length :
    {A B : Type 0} (f : A → Result Text B) (xs : List A) (ys : List B)
    → traverse f xs ≡ ok ys
    → length ys ≡ length xs
traverse-length f [] ys h = sym (ap length (ok_inj _ ys h))
traverse-length f (x ∷ xs) ys h =
    let (y, e, g) = bind_ok (f x) _ ys h in
    let (rest, e2, g2) = bind_ok (traverse f xs) _ ys g in
    let k : y ∷ rest ≡ ys = ok_inj (y ∷ rest) ys g2 in
    sym (ap length k) ∙ ap suc (traverse-length f xs rest e2)

bounded_items-length :
    (max : ℕ) (x : Json) (m : Text) (xs : List Json)
    → bounded_items max x m ≡ ok xs
    → length xs ≤ max
bounded_items-length max (array xs) m ys h = either (ltb max (length (item_list xs))) refl h
  where
    either :
        (b : Bool)
        → ltb max (length (item_list xs)) ≡ b
        → (if b then err m else ok (item_list xs)) ≡ ok ys
        → length ys ≤ max
    either true e h = absurd (cc)
    either false e h =
        let k : length (item_list xs) ≡ length ys = ap length (ok_inj (item_list xs) ys h) in
        ground (arith, e, k)
bounded_items-length max (leaf v) m ys h = absurd (cc)
bounded_items-length max (bigint n) m ys h = absurd (cc)
bounded_items-length max (object fs) m ys h = absurd (cc)

to_number-max : (v : Value) (field : Text) (n : ℕ) → to_number v field ≡ ok n → n ≤ max_safe_integer
unfolding to_number
to_number-max v field n h = either (to_big_int v field) h
  where
    either : (r : Result Text ℕ) → if_safe field r ≡ ok n → n ≤ max_safe_integer
    either (ok m) h = ground (arith, h)
    either (err e) h = absurd (cc)

module _ (parse : Text → Option Json) where
  parse_json_bounded-length :
      (s field : Text) (x : Json)
      → parse_json_bounded parse s field ≡ ok x
      → byte_length s ≤ max_json_bytes
  unfolding parse_json_bounded
  parse_json_bounded-length s field x h =
      let (small, e) =
        then_ok (ensure (not (ltb max_json_bytes (byte_length s))) field)
          (parsed_or (parse s) field) x h in
      ground (arith, ensure_ok (not (ltb max_json_bytes (byte_length s))) field small)

  parse_page_items-length :
      (s : Text) (xs : List Json)
      → parse_page_items parse s ≡ ok xs
      → (length xs ≤ 50) × (byte_length s ≤ max_json_bytes)
  unfolding parse_page_items parse_json_bounded
  parse_page_items-length s xs h =
      let (parsed, e, g) = bind_ok (parse_json_bounded parse s (lit "items_json")) _ xs h in
      (
        bounded_items-length 50 parsed _ xs g,
        parse_json_bounded-length s (lit "items_json") parsed e,
      )

  -- A page of events that is accepted has at most fifty events, out of a text of at most 131,072 bytes,
  -- and its numbers are safe integers.
  pub normalize_event_page-bounds :
      (raw : Record) (page : EventPage)
      → normalize_event_page parse raw ≡ ok page
      → (length page.items ≤ 50)
        × (byte_length (text (or_value (get raw (lit "items_json")) (string (lit "[]"))))
            ≤ max_json_bytes)
        × (page.offset ≤ max_safe_integer)
        × (page.limit ≤ max_safe_integer)
        × (page.total ≤ max_safe_integer)
  unfolding normalize_event_page
  normalize_event_page-bounds raw page h =
      let s = text (or_value (get raw (lit "items_json")) (string (lit "[]"))) in
      let (found, e, h1) = bind_ok (parse_page_items parse s) _ page h in
      let (items, e1, h2) = bind_ok (traverse normalize_event found) _ page h1 in
      let (offset, e2, h3) =
        bind_ok (to_number (get raw (lit "offset")) (lit "offset")) _ page h2 in
      let (limit, e3, h4) = bind_ok (to_number (get raw (lit "limit")) (lit "limit")) _ page h3 in
      let (total, e4, h5) = bind_ok (to_number (get raw (lit "total")) (lit "total")) _ page h4 in
      let made : EventPage = record {
        offset = offset;
        limit = limit;
        total = total;
        items = items;
      } in
      let k : made ≡ page = ok_inj made page h5 in
      let (few, small) = parse_page_items-length s found e in
      subst
        (λ p.
          (length p.items ≤ 50)
          × (byte_length s ≤ max_json_bytes)
          × (p.offset ≤ max_safe_integer)
          × (p.limit ≤ max_safe_integer)
          × (p.total ≤ max_safe_integer))
        k
        (
          subst (λ n. n ≤ 50) (sym (traverse-length normalize_event found items e1)) few,
          small,
          to_number-max _ _ offset e2,
          to_number-max _ _ limit e3,
          to_number-max _ _ total e4,
        )
