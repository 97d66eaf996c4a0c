-- ===== src/Scripts/ReadCertification/Complete.antt =====
-- The payload of scripts/read-certification.mjs is complete.
use evidra_protocol.Base.{
  ◌+◌, ◌≡◌, refl, ap₂, ◌∙◌, ◌↔◌, Bool, true, false, Option, none, some, List, [], ◌∷◌, map, Text,
  Result, ok, err, length, keep_if, arith,
}
use evidra_protocol.Protocol.Constants.{contract_address}
use evidra_protocol.Protocol.Json.{Json}
use evidra_protocol.Protocol.Methods.{PublicViewMethod, public_view_methods}
use evidra_protocol.Scripts.Certification.Complete.{
  labelled, map-map, length-keep_if, exit_code_of-zero,
}
use evidra_protocol.Scripts.ReadCertification.{
  ReadContract, ReadResult, read_result, is_failed, certify_reads, read_view, probe, lookup,
}
use evidra_protocol.Protocol.Client.{ReadMode}
use evidra_protocol.Scripts.ReadCertification.Semantics.{expected_semantics}
use evidra_protocol.Scripts.ReadCertification.Views.{ViewCall, view_calls}

-- The address and the name of the view that a call reads.
abbrev pub target_of : PublicViewMethod → Text × Text
target_of m = (contract_address m.contract, m.function_name)

abbrev pub name_of : ReadResult → Text × Text
name_of r = (r.contract, r.method)

abbrev pub is_described : Option Text → Bool
is_described none = false
is_described (some s) = true

-- The read of a view fails.
abbrev pub fails : ReadContract → ReadMode → ViewCall → Bool
fails read_contract mode c = elim (read_contract c.target c.method c.args mode) [
  | ok a ↦ false
  | err e ↦ true
]

module _ {A : Type 0} where
  map-ext : {B : Type 0} (f g : A → B) (xs : List A) → ((x : A) → f x ≡ g x) → map f xs ≡ map g xs
  map-ext f g [] h = refl
  map-ext f g (x ∷ xs) h = ap₂ (λ y ys. y ∷ ys) (h x) (map-ext f g xs h)

  length-keep_if-map :
      {B : Type 0} (p : B → Bool) (f : A → B) (q : A → Bool) (xs : List A)
      → ((x : A) → p (f x) ≡ q x)
      → length (keep_if p (map f xs)) ≡ length (keep_if q xs)
  length-keep_if-map p f q [] h = refl
  length-keep_if-map p f q (x ∷ xs) h =
      let e = h x in let rest = length-keep_if-map p f q xs h in ground (arith, e, rest)

module _ (read_contract : ReadContract) (mode : ReadMode) where
  read_view-name_of :
      (c : ViewCall) → name_of (read_view read_contract mode c) ≡ (c.contract, c.method)
  unfolding read_view
  read_view-name_of c =
      either (lookup expected_semantics c.method) (read_contract c.target c.method c.args mode)
    where
      either :
          (s : Option Text) (r : Result Text Json)
          → name_of (read_result c s r) ≡ (c.contract, c.method)
      either s (ok a) = refl
      either s (err e) = refl

  read_view-expected :
      (c : ViewCall)
      → is_described (read_view read_contract mode c).expected
        ≡ is_described (lookup expected_semantics c.method)
  unfolding read_view
  read_view-expected c =
      either (lookup expected_semantics c.method) (read_contract c.target c.method c.args mode)
    where
      either :
          (s : Option Text) (r : Result Text Json)
          → is_described (read_result c s r).expected ≡ is_described s
      either s (ok a) = refl
      either s (err e) = refl

  read_view-is_failed :
      (c : ViewCall) → is_failed (read_view read_contract mode c) ≡ fails read_contract mode c
  unfolding read_view
  read_view-is_failed c =
      either (lookup expected_semantics c.method) (read_contract c.target c.method c.args mode)
    where
      either :
          (s : Option Text) (r : Result Text Json)
          → is_failed (read_result c s r) ≡ elim r [ ok a ↦ false | err e ↦ true ]
      either s (ok a) = refl
      either s (err e) = refl

-- Whatever the reads answer, the payload names each of the 64 public views in their order, and the
-- reads go to the frozen addresses of the views; each view has its expected semantics; as many
-- results fail as reads of the views in the variant of the probe do; passed and failed add up to all;
-- and the exit code is 0 exactly when none failed, the scenarios not counted.
pub certify_reads_complete :
    (read_contract : ReadContract)
    → (map name_of (certify_reads read_contract).results ≡ map labelled public_view_methods)
      × (map (λ (c : ViewCall). (c.target, c.method)) view_calls
          ≡ map target_of public_view_methods)
      × (map (λ r. is_described r.expected) (certify_reads read_contract).results
          ≡ map (λ m. true) public_view_methods)
      × ((certify_reads read_contract).failed
          ≡ length (keep_if (fails read_contract (probe read_contract).variant) view_calls))
      × ((certify_reads read_contract).passed + (certify_reads read_contract).failed
          ≡ length public_view_methods)
      × (((certify_reads read_contract).exit_code ≡ 0) ↔ ((certify_reads read_contract).failed ≡ 0))
unfolding certify_reads
certify_reads_complete read_contract =
    let mode = (probe read_contract).variant in
    let results = map (read_view read_contract mode) view_calls in
    (
      map-map name_of (read_view read_contract mode) view_calls
          ∙ map-ext _ (λ (c : ViewCall). (c.contract, c.method)) view_calls
              (read_view-name_of read_contract mode),
      refl,
      map-map (λ (r : ReadResult). is_described r.expected) (read_view read_contract mode)
            view_calls
          ∙ map-ext _ (λ (c : ViewCall). is_described (lookup expected_semantics c.method))
              view_calls (read_view-expected read_contract mode),
      length-keep_if-map is_failed (read_view read_contract mode) (fails read_contract mode)
          view_calls (read_view-is_failed read_contract mode),
      omega (arith, length-keep_if is_failed results),
      exit_code_of-zero (length (keep_if is_failed results)),
    )
