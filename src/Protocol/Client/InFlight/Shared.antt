-- ===== src/Protocol/Client/InFlight/Shared.antt =====
-- The reads in flight of packages/protocol/src/client.ts are shared: one operation for a key.
use evidra_protocol.Base.{
  ℕ, zero, suc, ◌≡◌, refl, sym, ap, subst, ◌∙◌, Bool, true, false, Option, none, some, List, [],
  ◌∷◌, ◌++◌, Text, Result, same, same_self, same→eq, same_comm, ==→eq, ◌==◌, length, get_elem?, set,
  if◌then◌else◌, arith, Bool-cases, inl, inr, ◌⊎◌,
}
use mathlib.Core.Option.{some-injective}
use evidra_protocol.Protocol.Errors.{Thrown}
use evidra_protocol.Protocol.Json.{Json}
use evidra_protocol.Protocol.Client.{ReadMode}
use evidra_protocol.Protocol.Client.Calls.{Call, read_key}
use evidra_protocol.Protocol.Client.InFlight.{
  Operation, Outcome, ReadState, no_reads, lookup, remove, begun, start, raw_read, outcome_of,
  settle, cleanup, is_number, reads, settles, cleans, Reachable, at_start, then_step,
}

-- An operation that has not settled is the one in flight under its key.
abbrev IsTracked : ReadState → Type 0
IsTracked s =
    (n : ℕ) (op : Operation)
    → get_elem? s.operations n ≡ some op
    → op.outcome ≡ none
    → lookup s.in_flight (read_key op.call) ≡ some n

-- What is in flight under a key is an operation of that key.
abbrev IsKeyed : ReadState → Type 0
IsKeyed s =
    (key : Text) (n : ℕ)
    → lookup s.in_flight key ≡ some n
    → (op : Operation) × (get_elem? s.operations n ≡ some op) × (read_key op.call ≡ key)

pub record IsShared (s : ReadState) : Type 0 where
  pub tracked : IsTracked s
  pub keyed : IsKeyed s

module _ {A : Type 0} where
  get_elem?-append_old :
      (xs ys : List A) (n : ℕ) (a : A) → get_elem? xs n ≡ some a → get_elem? (xs ++ ys) n ≡ some a
  get_elem?-append_old [] ys n a h = absurd (cc)
  get_elem?-append_old (x ∷ xs) ys zero a h = h
  get_elem?-append_old (x ∷ xs) ys (suc n) a h = get_elem?-append_old xs ys n a h

  get_elem?-append_new : (xs : List A) (a : A) → get_elem? (xs ++ (a ∷ [])) (length xs) ≡ some a
  get_elem?-append_new [] a = refl
  get_elem?-append_new (x ∷ xs) a = get_elem?-append_new xs a

  -- An element of a list with one more at the end.
  get_elem?-append_cases :
      (xs : List A) (a b : A) (n : ℕ)
      → get_elem? (xs ++ (a ∷ [])) n ≡ some b
      → (get_elem? xs n ≡ some b) ⊎ ((n ≡ length xs) × (a ≡ b))
  get_elem?-append_cases [] a b zero h = inr (refl, some-injective _ _ h)
  get_elem?-append_cases [] a b (suc n) h = absurd (cc)
  get_elem?-append_cases (x ∷ xs) a b zero h = inl h
  get_elem?-append_cases (x ∷ xs) a b (suc n) h = elim (get_elem?-append_cases xs a b n h) [
    | inl e ↦ inl e
    | inr e ↦ inr (ap suc e.0, e.1)
  ]

  get_elem?-set_cases :
      (xs : List A) (m n : ℕ) (a b : A)
      → get_elem? (set xs m a) n ≡ some b
      → (get_elem? xs n ≡ some b) ⊎ ((m ≡ n) × (a ≡ b))
  get_elem?-set_cases [] m n a b h = inl h
  get_elem?-set_cases (x ∷ xs) zero zero a b h = inr (refl, some-injective _ _ h)
  get_elem?-set_cases (x ∷ xs) zero (suc n) a b h = inl h
  get_elem?-set_cases (x ∷ xs) (suc m) zero a b h = inl h
  get_elem?-set_cases (x ∷ xs) (suc m) (suc n) a b h = elim (get_elem?-set_cases xs m n a b h) [
    | inl e ↦ inl e
    | inr e ↦ inr (ap suc e.0, e.1)
  ]

  get_elem?-set_same :
      (xs : List A) (m : ℕ) (a b : A) → get_elem? xs m ≡ some b → get_elem? (set xs m a) m ≡ some a
  get_elem?-set_same [] m a b h = absurd (cc)
  get_elem?-set_same (x ∷ xs) zero a b h = refl
  get_elem?-set_same (x ∷ xs) (suc m) a b h = get_elem?-set_same xs m a b h

  get_elem?-set_other :
      (xs : List A) (m n : ℕ) (a : A) → (m == n) ≡ false → get_elem? (set xs m a) n ≡ get_elem? xs n
  get_elem?-set_other [] m n a h = refl
  get_elem?-set_other (x ∷ xs) zero zero a h = absurd (cc)
  get_elem?-set_other (x ∷ xs) zero (suc n) a h = refl
  get_elem?-set_other (x ∷ xs) (suc m) zero a h = refl
  get_elem?-set_other (x ∷ xs) (suc m) (suc n) a h =
      get_elem?-set_other xs m n a (ground (arith, h))

lookup-remove :
    (m : List (Text × ℕ)) (key other : Text)
    → lookup (remove m key) other ≡ (if same key other then none else lookup m other)
unfolding remove
lookup-remove [] key other = ground arith
lookup-remove ((k, n) ∷ m) key other =
    either (same k key) refl (same k other) refl (lookup-remove m key other)
  where
    none_twice :
        (b : Bool) (o : Option ℕ)
        → (if b then none else o) ≡ (if b then none else (if b then some n else o))
    none_twice true o = refl
    none_twice false o = refl

    either :
        (b : Bool)
        → same k key ≡ b
        → (c : Bool) → same k other ≡ c
        → lookup (remove m key) other ≡ (if same key other then none else lookup m other)
        → lookup (if b then remove m key else (k, n) ∷ remove m key) other
          ≡ (if same key other then none else (if c then some n else lookup m other))
    either true e c f ih =
        let g : same key other ≡ c = ap (λ z. same z other) (sym (same→eq k key e)) ∙ f in
        ih ∙ rw g (none_twice c (lookup m other))
    either false e true f ih =
        let g : same key other ≡ false =
          subst (λ z. same key z ≡ false) (same→eq k other f) (same_comm key k ∙ e) in
        rw (f, g) refl
    either false e false f ih = rw f ih

lookup_miss :
    (k key : Text) (n : ℕ) (m : List (Text × ℕ)) (o : Option ℕ)
    → same k key ≡ false
    → lookup m key ≡ o
    → lookup ((k, n) ∷ m) key ≡ o
lookup_miss k key n m o e f = rw e f

lookup_hit : (key : Text) (n : ℕ) (m : List (Text × ℕ)) → lookup ((key, n) ∷ m) key ≡ some n
lookup_hit key n m = rw (same_self key) refl

-- What has an outcome is not one that has none.
settled_op : {A B : Type 0} (a b : Option A) (x : A) → a ≡ b → a ≡ some x → b ≡ none → B
settled_op a b x e f g = absurd (cc)

-- A key that is not in flight is another one than a key that is.
other_key :
    (m : List (Text × ℕ)) (j k : Text) (n : ℕ)
    → lookup m j ≡ none
    → lookup m k ≡ some n
    → same j k ≡ false
other_key m j k n e f = elim (Bool-cases (same j k)) [
  | inl g ↦ (settled_op (lookup m k) (lookup m j) n (ap (lookup m) (sym (same→eq j k g))) f e)
  | inr g ↦ g
]

-- The state after a start.
IsShared-start :
    (c : Call) (mode : ReadMode) (o : Option ℕ) (s : ReadState)
    → lookup s.in_flight (read_key c) ≡ o
    → IsShared s
    → IsShared (start c mode o s).1
IsShared-start c mode (some n) s e h = h
IsShared-start c mode none s e h = record { tracked = tracked; keyed = keyed }
  where
    new : ReadState
    new = (start c mode none s).1

    tracked : IsTracked new
    tracked n op f g = elim (get_elem?-append_cases s.operations _ op n f) [
      | inl old ↦
          let e2 = h.tracked n op old g in
          lookup_miss _ _ _ s.in_flight (some n) (other_key s.in_flight _ _ n e e2) e2
      | inr last ↦
          subst (λ i. lookup new.in_flight (read_key op.call) ≡ some i) (sym last.0)
            (subst (λ o. lookup new.in_flight (read_key o.call) ≡ some (length s.operations)) last.1
              (lookup_hit (read_key c) (length s.operations) s.in_flight))
    ]

    keyed : IsKeyed new
    keyed key n f = either (same (read_key c) key) refl f
      where
        either :
            (b : Bool)
            → same (read_key c) key ≡ b
            → (if b then some (length s.operations) else lookup s.in_flight key) ≡ some n
            → (op : Operation) × (get_elem? new.operations n ≡ some op) × (read_key op.call ≡ key)
        either true e f = (
          begun c mode,
          subst (λ i. get_elem? new.operations i ≡ some (begun c mode)) (some-injective _ _ f)
              (get_elem?-append_new s.operations (begun c mode)),
          same→eq _ _ e,
        )
        either false e f =
            let (op, g, k) = h.keyed key n f in (op, get_elem?-append_old s.operations _ n op g, k)

IsShared-settle :
    (n : ℕ) (op : Operation) (r : Result Thrown Json) (s : ReadState)
    → get_elem? s.operations n ≡ some op
    → IsShared s
    → IsShared (settle n op r s)
unfolding settle
IsShared-settle n op r s e h = record { tracked = tracked; keyed = keyed }
  where
    new : ReadState
    new = settle n op r s

    tracked : IsTracked new
    tracked m op2 f g = elim (get_elem?-set_cases s.operations n m _ op2 f) [
      | inl old ↦ h.tracked m op2 old g
      | inr here ↦ (settled_op _ op2.outcome (outcome_of r) (ap (λ o. o.outcome) here.1) refl g)
    ]

    keyed : IsKeyed new
    keyed key m f = let (op2, g, k) = h.keyed key m f in either op2 g k (n == m) refl
      where
        either :
            (op2 : Operation)
            → get_elem? s.operations m ≡ some op2
            → read_key op2.call ≡ key
            → (b : Bool) → (n == m) ≡ b
            → (op3 : Operation) × (get_elem? new.operations m ≡ some op3)
              × (read_key op3.call ≡ key)
        either op2 g k true i =
            let same_place : n ≡ m = ==→eq n m i in
            let same_op : op ≡ op2 =
              some-injective _ _ (sym e ∙ ap (get_elem? s.operations) same_place ∙ g) in
            (
              record op { outcome = some (outcome_of r) },
              subst
                  (λ j.
                    get_elem? new.operations j ≡ some (record op { outcome = some (outcome_of r) }))
                  same_place (get_elem?-set_same s.operations n _ op e),
              ap (λ o. read_key o.call) same_op ∙ k,
            )
        either op2 g k false i = (op2, get_elem?-set_other s.operations n m _ i ∙ g, k)

IsShared-cleanup :
    (n : ℕ) (op : Operation) (o : Outcome) (s : ReadState)
    → get_elem? s.operations n ≡ some op
    → op.outcome ≡ some o
    → IsShared s
    → IsShared (cleanup n (read_key op.call) s)
unfolding cleanup
IsShared-cleanup n op o s e f h = either (lookup s.in_flight (read_key op.call)) refl
  where
    key : Text
    key = read_key op.call

    dropped : ReadState
    dropped = record s { in_flight = remove s.in_flight key }

    kept : (t : Text) (i : ℕ) → lookup dropped.in_flight t ≡ some i → lookup s.in_flight t ≡ some i
    kept t i g = known (same key t) refl (sym (lookup-remove s.in_flight key t) ∙ g)
      where
        known :
            (b : Bool)
            → same key t ≡ b
            → (if b then none else lookup s.in_flight t) ≡ some i
            → lookup s.in_flight t ≡ some i
        known true j k = absurd (cc)
        known false j k = k

    -- The operation in flight under the key has settled: another key is not touched.
    tracked : lookup s.in_flight key ≡ some n → IsTracked dropped
    tracked l m op2 g u = elim (Bool-cases (same key (read_key op2.call))) [
      | inl j ↦
          let there : lookup s.in_flight key ≡ some m =
            ap (lookup s.in_flight) (same→eq _ _ j) ∙ h.tracked m op2 g u in
          let same_place : n ≡ m = some-injective _ _ (sym l ∙ there) in
          let same_op : op ≡ op2 =
            some-injective _ _ (sym e ∙ ap (get_elem? s.operations) same_place ∙ g) in
          settled_op op.outcome op2.outcome o (ap (λ p. p.outcome) same_op) f u
      | inr j ↦ lookup-remove s.in_flight key (read_key op2.call) ∙ rw j (h.tracked m op2 g u)
    ]

    either :
        (i : Option ℕ)
        → lookup s.in_flight key ≡ i
        → IsShared (if is_number n i then dropped else s)
    either none j = h
    either (some i) j = elim (Bool-cases (i == n)) [
      | inl k ↦ rw k (record {
        tracked = tracked (j ∙ ap some (==→eq i n k));
        keyed = λ t i g. h.keyed t i (kept t i g);
      })
      | inr k ↦ rw k h
    ]

IsShared-none : IsShared no_reads
IsShared-none = record { tracked = λ n op f g. absurd (cc); keyed = λ key n f. absurd (cc) }

Reachable-IsShared : {s : ReadState} → Reachable s → IsShared s
unfolding raw_read
Reachable-IsShared at_start = IsShared-none
Reachable-IsShared (then_step r (reads c mode s)) =
    IsShared-start c mode (lookup s.in_flight (read_key c)) s refl (Reachable-IsShared r)
Reachable-IsShared (then_step r (settles n op o s e f)) =
    IsShared-settle n op o s e (Reachable-IsShared r)
Reachable-IsShared (then_step r (cleans n op o s e f)) =
    IsShared-cleanup n op o s e f (Reachable-IsShared r)

-- In each state that reads, settlements and cleanups in any order can lead to, two operations of one
-- key that have both not settled are the same operation.
pub Reachable-single :
    {s : ReadState} (m n : ℕ) (p q : Operation)
    → Reachable s
    → get_elem? s.operations m ≡ some p
    → get_elem? s.operations n ≡ some q
    → p.outcome ≡ none
    → q.outcome ≡ none
    → read_key p.call ≡ read_key q.call
    → m ≡ n
Reachable-single {s} m n p q r e f u v k =
    let h = Reachable-IsShared r in
    some-injective _ _ (sym (h.tracked m p e u) ∙ ap (lookup s.in_flight) k ∙ h.tracked n q f v)

-- While an operation has not settled, a read of its key, in either mode, starts nothing and returns
-- that operation.
pub raw_read-shared :
    {s : ReadState} (n : ℕ) (op : Operation) (c : Call) (mode : ReadMode)
    → Reachable s
    → get_elem? s.operations n ≡ some op
    → op.outcome ≡ none
    → read_key c ≡ read_key op.call
    → raw_read c mode s ≡ (n, s)
unfolding raw_read
raw_read-shared {s} n op c mode r e u k =
    ap (λ o. start c mode o s) (ap (lookup s.in_flight) k ∙ (Reachable-IsShared r).tracked n op e u)
