-- ===== src/Web/Validation.antt =====
-- apps/web/src/lib/validation.ts. `parse_url` stands for `new URL`, which fails with none. A check
-- returns the message of what it refuses.
use evidra_protocol.Base.{
  ℕ, ◌-◌, Bool, true, false, not, ◌&&◌, ◌||◌, Option, none, some, List, [], ◌∷◌, ◌++◌, Text, lit,
  same, to_lower, is_upper, is_lower, is_digit, starts_with, includes, ltb, leb, ◌==◌, length, drop,
  any, last?, if◌then◌else◌,
}
use evidra_protocol.Protocol.Values.{trim, all_digits}
use evidra_protocol.Protocol.Constants.{all_hex}
use evidra_protocol.Protocol.Client.Calls.{number_text}

-- What is read of a `URL`.
pub record Url : Type 0 where
  pub protocol : Text
  pub username : Text
  pub password : Text
  pub hash : Text
  pub hostname : Text

abbrev pub is_nil : Text → Bool
is_nil [] = true
is_nil (c ∷ s) = false

-- CONTROL_OR_SPACE
abbrev has_control : Text → Bool
has_control s = any s (λ c. leb c 32 || (c == 127))

abbrev is_alnum : ℕ → Bool
is_alnum c = is_digit c || is_upper c || is_lower c

abbrev all_units : (ℕ → Bool) → Text → Bool
all_units p [] = true
all_units p (c ∷ s) = p c && all_units p s

abbrev first_is : (ℕ → Bool) → Text → Bool
first_is p [] = false
first_is p (c ∷ s) = p c

abbrev last_is : (ℕ → Bool) → Option ℕ → Bool
last_is p none = false
last_is p (some c) = p c

-- LABEL
abbrev is_label : Text → Bool
is_label s =
    leb (length s) 63
    && all_units (λ c. is_alnum c || (c == b'-')) s
    && first_is is_alnum s
    && last_is is_alnum (last? s)

abbrev push_first : ℕ → List Text → List Text
push_first c [] = (c ∷ []) ∷ []
push_first c (s ∷ ss) = (c ∷ s) ∷ ss

-- `s.split(separator)` at a character.
abbrev pub split : ℕ → Text → List Text
split d [] = [] ∷ []
split d (c ∷ s) = if c == d then [] ∷ split d s else push_first c (split d s)

abbrev all_texts : (Text → Bool) → List Text → Bool
all_texts p [] = true
all_texts p (s ∷ ss) = p s && all_texts p ss

abbrev ends_with : Text → Text → Bool
ends_with s t = leb (length t) (length s) && same (drop (length s - length t) s) t

-- `hostname.toLowerCase().replace(/\.$/, '')`
abbrev without_dot : Text → Text
without_dot [] = []
without_dot (c ∷ s) = if (c == b'.') && is_nil s then [] else c ∷ without_dot s

-- The digits and dots of an address, or a hexadecimal number.
abbrev is_ip : Text → Bool
is_ip s =
    (leb (length (split b'.' s)) 4
      && all_texts (λ part. all_digits part && not (is_nil part)) (split b'.' s))
    || (all_hex s && not (is_nil s))

-- What stands behind `//`, or behind the first character.
abbrev behind_slashes : Text → Option Text
behind_slashes [] = none
behind_slashes (c ∷ s) =
    if starts_with (c ∷ s) (lit "//") then some (drop 1 s) else behind_slashes s

abbrev until_path : Text → Text
until_path [] = []
until_path (c ∷ s) = if (c == b'/') || (c == b'?') || (c == 35) then [] else c ∷ until_path s

abbrev or_rest : Text → Option Text → Text
or_rest input none = drop 1 input
or_rest input (some s) = s

unfoldable pub authority_of : Text → Text
authority_of input = until_path (or_rest input (behind_slashes input))

-- `authority.match(/:(\d+)$/)`
abbrev port_of : Text → Option Text
port_of [] = none
port_of (c ∷ s) = if (c == b':') && all_digits s && not (is_nil s) then some s else port_of s

abbrev port_message : Text → Option Text → Option Text
port_message authority none =
    if includes authority (lit ":") then some (lit "The URL authority is malformed.") else none
port_message authority (some port) =
    if same port (lit "443")
    then none
    else some (lit "Only the implicit HTTPS port or explicit port 443 is allowed.")

abbrev host_message : (input hostname : Text) → Option Text
host_message input hostname =
    if same hostname (lit "localhost") || ends_with hostname (lit ".localhost")
    then some (lit "Localhost hosts are not allowed.")
    else if ltb 253 (length hostname) || not (all_texts is_label (split b'.' hostname))
    then some (lit "Use a normal DNS hostname.")
    else if is_ip hostname
    then some (lit "Direct IP-literal hosts are not allowed.")
    else port_message (authority_of input) (port_of (authority_of input))

abbrev url_message : Text → Option Url → Option Text
url_message input none = some (lit "Enter a complete HTTPS URL.")
url_message input (some u) =
    if not (same u.protocol (lit "https:"))
    then some (lit "Evidence sources must use HTTPS.")
    else if not (is_nil u.username) || not (is_nil u.password)
    then some (lit "Credentials in evidence URLs are not allowed.")
    else if not (is_nil u.hash)
    then some (lit "Fragments are not part of an evidence source.")
    else if is_nil u.hostname || starts_with u.hostname (lit "[") || includes u.hostname (lit ":")
    then some (lit "IP-literal hosts are not allowed.")
    else host_message input (without_dot (to_lower u.hostname))

-- `validateEvidenceUrl`
unfoldable pub validate_evidence_url : (Text → Option Url) → Text → Option Text
unfolding authority_of
validate_evidence_url parse_url input =
    if is_nil input || ltb 2048 (length input)
    then some (lit "Enter a URL under 2048 characters.")
    else if has_control input
    then some (lit "Whitespace and control characters are not allowed.")
    else url_message input (parse_url input)

abbrev pub or_message : Option Text → Option Text → Option Text
or_message none b = b
or_message (some m) b = some m

abbrev first_message : (Text → Option Text) → List Text → Option Text
first_message check [] = none
first_message check (s ∷ ss) = or_message (check s) (first_message check ss)

-- `validateUrlList`
unfoldable pub validate_url_list : (Text → Option Url) → List Text → (max : ℕ) → Option Text
unfolding validate_evidence_url
validate_url_list parse_url urls max =
    if ltb max (length urls)
    then some (lit "Use no more than " ++ (number_text max ++ lit " sources."))
    else first_message (validate_evidence_url parse_url) urls

-- `templateMutabilityRule`
unfoldable pub template_mutability_rule : Text → Option Text
template_mutability_rule fact_type =
    if includes (to_lower fact_type) (lit "immutable")
    then some (lit "IMMUTABLE")
    else if includes (to_lower fact_type) (lit "ttl")
        || includes (to_lower fact_type) (lit "mutable")
    then some (lit "MUTABLE_WITH_TTL")
    else none

-- `TEMPLATE_FIELD_LABELS`
abbrev template_field_labels : List (Text × Text)
template_field_labels =
    (lit "description", lit "description")
    ∷ (lit "mutability", lit "freshness mode")
    ∷ (lit "object_value", lit "object / value")
    ∷ (lit "predicate", lit "predicate")
    ∷ (lit "qualifiers", lit "qualifiers")
    ∷ (lit "subject", lit "subject")
    ∷ (lit "temporal", lit "temporal constraint")
    ∷ []

abbrev label_of : List (Text × Text) → Text → Option Text
label_of [] field = none
label_of ((k, label) ∷ labels) field = if same k field then some label else label_of labels field

abbrev is_found : Option Text → Bool
is_found none = false
is_found (some label) = true

abbrev shown_label : Option Text → Text
shown_label none = lit "undefined"
shown_label (some label) = label

-- The labels of the fields with nothing in them, joined by commas.
abbrev joined : List Text → Text
joined [] = []
joined (s ∷ []) = s
joined (s ∷ t ∷ ss) = s ++ (lit ", " ++ joined (t ∷ ss))

abbrev missing_labels : (Text → Text) → List Text → List Text
missing_labels values [] = []
missing_labels values (field ∷ fields) =
    if is_nil (trim (values field))
    then shown_label (label_of template_field_labels field) ∷ missing_labels values fields
    else missing_labels values fields

abbrev missing_message : List Text → Option Text
missing_message [] = none
missing_message (s ∷ ss) =
    some
      (lit "This template requires " ++ (joined (s ∷ ss) ++ lit ". Add them in Define the fact."))

abbrev trimmed : List Text → List Text
trimmed [] = []
trimmed (s ∷ ss) = if is_nil (trim s) then trimmed ss else trim s ∷ trimmed ss

-- `split`, `trim` and `filter(Boolean)`
abbrev pub parts_of : (separator : ℕ) → Text → List Text
parts_of d s = trimmed (split d s)

-- `validateTemplateRequiredFields`
unfoldable pub validate_template_required_fields : Text → (Text → Text) → Option Text
validate_template_required_fields required values =
    if all_texts (λ field. is_found (label_of template_field_labels field)) (parts_of b',' required)
    then missing_message (missing_labels values (parts_of b',' required))
    else some (
        lit
          "This template has required fields the form cannot collect. Choose another template or a custom fact.")
