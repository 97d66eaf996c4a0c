-- ===== src/Protocol/Regex.antt =====
-- The regular expressions of the sources, with the backtracking order of JavaScript: `ends` lists
-- the places where a match can end, the preferred one first.
use evidra_protocol.Base.{
  ℕ, zero, suc, ◌-◌, Bool, true, false, not, ◌||◌, Option, none, some, List, [], ◌∷◌, ◌++◌, Text,
  length, take, ltb, ◌==◌, is_upper, is_lower, is_digit, lower_unit, upper_unit, if◌then◌else◌,
}

pub data Regex : Type 0 where
  eps : Regex
  unit_in : (ℕ → Bool) → Regex
  then_ : Regex → Regex → Regex
  either : Regex → Regex → Regex
  many : Regex → Regex
  group : Regex → Regex
  word_edge text_start text_end : Regex

-- A place in the text: the unit before it, the rest, and what the last group matched.
pub record Cursor : Type 0 where
  pub before : Option ℕ
  pub rest : Text
  pub captured : Option Text

-- \w
abbrev pub is_word : ℕ → Bool
is_word c = is_upper c || is_lower c || is_digit c || (c == b'_')

abbrev word_here : Option ℕ → Bool
word_here none = false
word_here (some c) = is_word c

abbrev first : Text → Option ℕ
first [] = none
first (c ∷ s) = some c

abbrev differ : Bool → Bool → Bool
differ true b = not b
differ false b = b

abbrev when : Bool → Cursor → List Cursor
when true c = c ∷ []
when false c = []

abbrev empty_text : Text → Bool
empty_text [] = true
empty_text (c ∷ s) = false

abbrev each : (Cursor → List Cursor) → List Cursor → List Cursor
each f [] = []
each f (c ∷ cs) = f c ++ each f cs

-- The rounds of a greedy star; a round that consumes nothing is given up.
repeat : (Cursor → List Cursor) → ℕ → Cursor → List Cursor
repeat f zero c = c ∷ []
repeat f (suc n) c =
    each (λ c'. if ltb (length c'.rest) (length c.rest) then repeat f n c' else []) (f c) ++ c ∷ []

abbrev one_unit : (ℕ → Bool) → Cursor → Text → List Cursor
one_unit p c [] = []
one_unit p c (x ∷ s) = when (p x) (record c { before = some x; rest = s })

abbrev capture : Cursor → Cursor → Cursor
capture from to = record to { captured = some (take (length from.rest - length to.rest) from.rest) }

-- The flag `i` compares units after case mapping.
abbrev folded : Bool → (ℕ → Bool) → ℕ → Bool
folded false p x = p x
folded true p x = p (lower_unit x) || p (upper_unit x)

ends : Bool → Regex → Cursor → List Cursor
ends i eps c = c ∷ []
ends i (unit_in p) c = one_unit (folded i p) c c.rest
ends i (then_ r q) c = each (ends i q) (ends i r c)
ends i (either r q) c = ends i r c ++ ends i q c
ends i (many r) c = repeat (ends i r) (suc (length c.rest)) c
ends i (group r) c = each (λ c'. capture c c' ∷ []) (ends i r c)
ends i word_edge c = when (differ (word_here c.before) (word_here (first c.rest))) c
ends i text_start c = elim c.before [ none ↦ c ∷ [] | some x ↦ [] ]
ends i text_end c = when (empty_text c.rest) c

abbrev best : List Cursor → Option Cursor
best [] = none
best (c ∷ cs) = some c

abbrev or_else : Option Cursor → Option Cursor → Option Cursor
or_else none d = d
or_else (some c) d = some c

-- The leftmost match.
search_from : Bool → Regex → Option ℕ → Text → Option Cursor
search_from i r before [] = best (ends i r (record { before = before; rest = []; captured = none }))
search_from i r before (x ∷ s) =
    let later = search_from i r (some x) s in
    elim (best (ends i r (record { before = before; rest = x ∷ s; captured = none }))) [
      | none ↦ later
      | some c ↦ some c
    ]

-- `text.match(r)?.[1]`
unfoldable pub match_group : Bool → Regex → Text → Option Text
unfolding search_from ends repeat lower_unit upper_unit
match_group i r s = elim (search_from i r none s) [ none ↦ none | some c ↦ c.captured ]

-- `r.test(text)`
unfoldable pub test : Bool → Regex → Text → Bool
unfolding search_from ends repeat lower_unit upper_unit
test i r s = elim (search_from i r none s) [ none ↦ false | some c ↦ true ]

-- Notation of the sources.
abbrev pub chr : ℕ → Regex
chr d = unit_in (λ x. x == d)

-- \d
abbrev pub digit : Regex
digit = unit_in is_digit

-- \s
abbrev pub space : Regex
space = unit_in (λ x.
    (x == 32)
    || (x == 9)
    || (x == 10)
    || (x == 11)
    || (x == 12)
    || (x == 13)
    || (x == 160)
    || (x == 65279)
    || (x == 8232)
    || (x == 8233))

-- .
abbrev pub any_unit : Regex
any_unit = unit_in (λ x. not ((x == 10) || (x == 13) || (x == 8232) || (x == 8233)))

abbrev pub word : Text → Regex
word [] = eps
word (c ∷ s) = then_ (chr c) (word s)

-- r+
abbrev pub some_of : Regex → Regex
some_of r = then_ r (many r)

-- r?
abbrev pub maybe : Regex → Regex
maybe r = either r eps

-- r{n}
abbrev pub times : ℕ → Regex → Regex
times zero r = eps
times (suc n) r = then_ r (times n r)
