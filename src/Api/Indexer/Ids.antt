-- ===== src/Api/Indexer/Ids.antt =====
-- `range` of apps/api/src/indexer.ts and the checkpoint that `syncOnce` takes from its last id.
use evidra_protocol.Base.{
  ℕ, zero, suc, ◌+◌, ◌-◌, min, ◌≡◌, refl, sym, ◌∙◌, true, false, inl, inr, none, some, List, [],
  ◌∷◌, ltb, leb, length, get_elem?, last?, or_default, arith, Bool-cases, if◌then◌else◌,
}
use evidra_protocol.Api.Indexer.{range}

range_in :
    (room start end_ : ℕ)
    → leb start end_ ≡ true
    → range (suc room) start end_ ≡ start ∷ range room (start + 1) end_
unfolding range
range_in room start end_ e = rw (range, e)

range_out : (room start end_ : ℕ) → leb start end_ ≡ false → range (suc room) start end_ ≡ []
unfolding range
range_out room start end_ e = rw (range, e)

-- The ids from `start` on that are at most `end_`, and at most `room` of them: none is left out.
pub range-get_elem? :
    (room start end_ i : ℕ)
    → get_elem? (range room start end_) i
      ≡ (if ltb i (min room (end_ + 1 - start)) then some (start + i) else none)
unfolding range
range-get_elem? zero start end_ i = ground arith
range-get_elem? (suc room) start end_ zero = elim (Bool-cases (leb start end_)) [
  | inl e ↦ rw (range_in room start end_ e) (ground (arith, e))
  | inr e ↦ rw (range_out room start end_ e) (ground (arith, e))
]
range-get_elem? (suc room) start end_ (suc i) = elim (Bool-cases (leb start end_)) [
  | inl e ↦
      rw (range_in room start end_ e) (ground (arith, e, range-get_elem? room (start + 1) end_ i))
  | inr e ↦ rw (range_out room start end_ e) (ground (arith, e))
]

pub range-length :
    (room start end_ : ℕ) → length (range room start end_) ≡ min room (end_ + 1 - start)
unfolding range
range-length zero start end_ = ground arith
range-length (suc room) start end_ = elim (Bool-cases (leb start end_)) [
  | inl e ↦ rw (range_in room start end_ e) (ground (arith, e, range-length room (start + 1) end_))
  | inr e ↦ rw (range_out room start end_ e) (ground (arith, e))
]

last-cons :
    (x previous : ℕ) (xs : List ℕ) → or_default (last? (x ∷ xs)) previous ≡ or_default (last? xs) x
last-cons x previous [] = refl
last-cons x previous (y ∷ []) = refl
last-cons x previous (y ∷ z ∷ zs) = last-cons y previous (z ∷ zs) ∙ sym (last-cons y x (z ∷ zs))

-- The last id of a range, or the one before its start when it is empty.
pub range-last :
    (room previous end_ : ℕ)
    → or_default (last? (range room (previous + 1) end_)) previous
      ≡ previous + min room (end_ - previous)
unfolding range
range-last zero previous end_ = ground arith
range-last (suc room) previous end_ = elim (Bool-cases (leb (previous + 1) end_)) [
  | inl e ↦ rw (range_in room (previous + 1) end_ e) (
      last-cons (previous + 1) previous (range room (previous + 1 + 1) end_)
      ∙ range-last room (previous + 1) end_
      ∙ ground (arith, e))
  | inr e ↦ rw (range_out room (previous + 1) end_ e) (ground (arith, e))
]
