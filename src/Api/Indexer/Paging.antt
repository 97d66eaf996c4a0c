-- ===== src/Api/Indexer/Paging.antt =====
-- `readEventDelta` of apps/api/src/indexer.ts reads a contiguous part of the log.
use Prim.Native.Nat.add
use evidra_protocol.Base.{
  ℕ, zero, suc, ◌+◌, ◌-◌, ◌≤◌, ◌<◌, min, ◌≡◌, refl, sym, subst, ◌∙◌, ap, Bool, true, false, ◌&&◌,
  inl, inr, ◌⊎◌, List, [], ◌∷◌, ◌++◌, Text, Result, ok, err, ltb, leb, length, take, drop,
  length-append, length-take, length-drop, arith, Bool-cases, if◌then◌else◌,
}
use evidra_protocol.Protocol.Types.{ProtocolEvent, EventPage}
use evidra_protocol.Api.Indexer.{EventDelta, delta_loop, read_event_delta, then_page, no_items}

module _ {ℓ} {A : Type ℓ} where
  take-append-take : (a b : ℕ) (xs : List A) → take a xs ++ take b (drop a xs) ≡ take (a + b) xs
  take-append-take zero b xs = rw add.zero
  take-append-take (suc a) zero [] = rw add.suc
  take-append-take (suc a) (suc b) [] = rw add.suc
  take-append-take (suc a) b (x ∷ xs) = rw add.suc (ap (λ t. x ∷ t) (take-append-take a b xs))

  drop-nil : (a : ℕ) → drop {A = A} a [] ≡ []
  drop-nil zero = refl
  drop-nil (suc a) = refl

  drop-drop : (a b : ℕ) (xs : List A) → drop a (drop b xs) ≡ drop (b + a) xs
  drop-drop a zero xs = rw add.zero
  drop-drop a (suc b) [] = rw add.suc (drop-nil a)
  drop-drop a (suc b) (x ∷ xs) = rw add.suc (drop-drop a b xs)

  take_all : (xs : List A) (n : ℕ) → length xs ≤ n → take n xs ≡ xs
  take_all [] zero h = refl
  take_all [] (suc n) h = refl
  take_all (x ∷ xs) zero h = elim h [ ]
  take_all (x ∷ xs) (suc n) h = ap (λ t. x ∷ t) (take_all xs n (omega arith))

  -- A prefix is known by its length.
  take-length : (k : ℕ) (xs ys : List A) → ys ≡ take k xs → ys ≡ take (length ys) xs
  take-length k xs ys e = rw e (sym (go k xs))
    where
      go : (n : ℕ) (l : List A) → take (length (take n l)) l ≡ take n l
      go zero l = refl
      go (suc n) [] = refl
      go (suc n) (x ∷ l) = ap (λ t. x ∷ t) (go n l)

-- Every page that is returned holds the next events of the log, as many as were asked for or as there
-- are.
abbrev pub Serves : List ProtocolEvent → (ℕ → ℕ → Result Text EventPage) → Type 0
Serves log get =
    (offset limit : ℕ) (page : EventPage)
    → get offset limit ≡ ok page
    → page.items ≡ take limit (drop offset log)

-- The events from `previous` on, without a gap, and the offset behind them.
pub record IsSlice (log : List ProtocolEvent) (previous room : ℕ) (d : EventDelta) : Type 0 where
  pub contiguous : d.events ≡ take (length d.events) (drop previous log)
  pub next : d.next_offset ≡ previous + length d.events
  pub bounded : length d.events ≤ room

-- How far the loop goes: to the count that was read, or until the room is used up.
abbrev pub IsComplete : (current room : ℕ) → EventDelta → Type 0
IsComplete current room d = (current ≤ d.next_offset) ⊎ (length d.events ≡ room)

module _ (log : List ProtocolEvent) (get : ℕ → ℕ → Result Text EventPage) (serves : Serves log get)
    (previous room current : ℕ) where
  extended :
      (d : EventDelta) (page : EventPage)
      → IsSlice log previous room d
      → get d.next_offset (min 50 (room - length d.events)) ≡ ok page
      → IsSlice log previous room (record {
        events = d.events ++ take (room - length d.events) page.items;
        next_offset = d.next_offset + length page.items;
      })
  extended d page v g =
      let n = length d.events in
      let l = min 50 (room - n) in
      let items : page.items ≡ take l (drop d.next_offset log) = serves d.next_offset l page g in
      let size : length page.items ≤ l =
        rw items (omega (arith, length-take l (drop d.next_offset log))) in
      let whole : take (room - n) page.items ≡ page.items =
        take_all page.items (room - n) (omega arith) in
      let rest : page.items ≡ take l (drop n (drop previous log)) =
        rw drop-drop (rw (← v.next) items) in
      let joined : d.events ++ page.items ≡ take (n + l) (drop previous log) =
        (λ i. v.contiguous i ++ rest i) ∙ take-append-take n l (drop previous log) in
      rw whole (record {
        contiguous = take-length (n + l) (drop previous log) _ joined;
        next = omega (arith, v.next, length-append d.events page.items);
        bounded = omega (arith, length-append d.events page.items, v.bounded);
      })

  -- What the loop returns.
  abbrev IsRead : Result Text EventDelta → Type 0
  IsRead r = (d : EventDelta) → r ≡ ok d → IsSlice log previous room d × IsComplete current room d

  is_read :
      (d : EventDelta) → IsSlice log previous room d → IsComplete current room d → IsRead (ok d)
  is_read d v c d' e =
      let p : d ≡ d' = cc in
      subst (λ (x : EventDelta). IsSlice log previous room x × IsComplete current room x) p (v, c)

  no_items→length : (es : List ProtocolEvent) → no_items es ≡ true → length es ≡ 0
  no_items→length [] h = refl
  no_items→length (e ∷ es) h = absurd (cc)

  items→length : (es : List ProtocolEvent) → no_items es ≡ false → 1 ≤ length es
  items→length [] h = absurd (cc)
  items→length (e ∷ es) h = omega arith

  -- A page that is asked for before the end of the log is not empty.
  page-length :
      (offset n : ℕ) (page : EventPage)
      → get offset (min 50 (room - n)) ≡ ok page
      → offset < length log
      → n < room
      → 1 ≤ length page.items
  page-length offset n page g a b =
      rw (serves offset (min 50 (room - n)) page g)
        (omega (arith, length-take (min 50 (room - n)) (drop offset log), length-drop offset log))

  page_reads :
      (fuel offset : ℕ) (output : List ProtocolEvent)
      → IsSlice log previous room (record { events = output; next_offset = offset })
      → ((offset' : ℕ) (output' : List ProtocolEvent)
          → IsSlice log previous room (record { events = output'; next_offset = offset' })
          → current ≤ offset' + fuel
          → IsRead (delta_loop fuel room current get offset' output'))
      → current ≤ offset + suc fuel
      → current ≤ length log
      → offset < current
      → length output < room
      → (r : Result Text EventPage) → get offset (min 50 (room - length output)) ≡ r
      → IsRead (
          then_page
            (λ page.
              let output' = output ++ take (room - length output) page.items in
              elim (no_items page.items) [
                | true ↦ ok (record { events = output'; next_offset = offset })
                | false ↦ delta_loop fuel room current get (offset + length page.items) output'
              ])
            r)
  page_reads fuel offset output v loop f c a b (err e) g = λ d h. absurd (cc)
  page_reads fuel offset output v loop f c a b (ok page) g =
      let more = page-length offset (length output) page g (omega arith) b in
      elim (Bool-cases (no_items page.items)) [
        | inl e ↦ absurd (omega (arith, more, no_items→length page.items e))
        | inr e ↦ rw (then_page, e) (loop _ _ (extended _ page v g) (omega (arith, more)))
      ]

  loop_reads :
      (fuel offset : ℕ) (output : List ProtocolEvent)
      → IsSlice log previous room (record { events = output; next_offset = offset })
      → current ≤ offset + fuel
      → current ≤ length log
      → IsRead (delta_loop fuel room current get offset output)
  unfolding delta_loop
  loop_reads zero offset output v f c = is_read _ v (inl (omega arith))
  loop_reads (suc fuel) offset output v f c =
      elim (Bool-cases (ltb offset current && ltb (length output) room)) [
        | inl e ↦
            rw (delta_loop, e)
              (page_reads fuel offset output v (λ a b v' f'. loop_reads fuel a b v' f' c) f c
                (ground (arith, e)) (ground (arith, e)) _ refl)
        | inr e ↦ rw (delta_loop, e) (is_read _ v (ground (arith, e, v.bounded)))
      ]

-- A delta that is read holds the events of the log from `previous` on, in order and without a gap, at
-- most `room` of them; its next offset is behind the last of them, and it ends only at the count that
-- was read or with the room used up. Conditions: every page that is returned holds the events at its
-- offset, as many as were asked for or as there are, the log has the events that were counted, and the
-- delta starts at or before the count.
pub read_event_delta-IsSlice :
    (log : List ProtocolEvent) (get : ℕ → ℕ → Result Text EventPage) (room previous current : ℕ)
    (d : EventDelta)
    → Serves log get
    → previous ≤ current
    → current ≤ length log
    → read_event_delta room get previous current ≡ ok d
    → IsSlice log previous room d × IsComplete current room d
unfolding read_event_delta
read_event_delta-IsSlice log get room previous current d s h c e =
    read (leb current previous) refl e
  where
    none_read : IsSlice log previous room (record { events = []; next_offset = previous })
    none_read = record { contiguous = refl; next = omega arith; bounded = omega arith }

    read :
        (b : Bool)
        → leb current previous ≡ b
        → (if b
            then ok (record { events = []; next_offset = previous })
            else delta_loop (current - previous) room current get previous [])
          ≡ ok d
        → IsSlice log previous room d × IsComplete current room d
    read true t r =
        is_read log get s previous room current _ none_read (inl (ground (arith, t))) d r
    read false f r =
        loop_reads log get s previous room current (current - previous) previous [] none_read
          (omega (arith, h)) c d r
