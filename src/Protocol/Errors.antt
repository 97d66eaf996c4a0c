-- ===== src/Protocol/Errors.antt =====
-- packages/protocol/src/errors.ts, with the detection of hard quotas of
-- packages/protocol/src/scheduler.ts. Status codes and retry delays are natural numbers.
pub mod Classes
mod Tests
use evidra_protocol.Base.{
  ℕ, zero, ◌+◌, ◌*◌, Bool, true, false, not, ◌&&◌, ◌||◌, Option, none, some, List, [], ◌∷◌, ◌++◌,
  Text, lit, same, one_of, to_lower, includes, decimal, ltb, ◌==◌, is_upper, is_digit, or_default,
  is_some, if◌then◌else◌,
}
use evidra_protocol.Protocol.Regex.{
  Regex, unit_in, then_, either, many, group, eps, word_edge, match_group, test, chr, digit, space,
  any_unit, word, some_of, maybe,
}

pub data ErrorKind : Type 0 where
  contract rpc execution decode configuration unknown : ErrorKind

pub record NormalizedError : Type 0 where
  pub kind : ErrorKind
  pub code : Option Text
  pub retryable : Bool
  pub user_message : Text
  pub detail : Text
  pub status_code : Option ℕ
  pub retry_after_ms : Option ℕ

-- A property of a thrown object: absent (or null), a number, or something else.
pub data Attr : Type 0 where
  absent : Attr
  number : ℕ → Attr
  other : Attr

pub record Attrs : Type 0 where
  pub status_code : Attr
  pub status : Attr
  pub retry_after_ms : Attr
  pub retry_after : Attr

abbrev pub no_attrs : Attrs
no_attrs = record {
  status_code = absent;
  status = absent;
  retry_after_ms = absent;
  retry_after = absent;
}

-- What a `catch` can receive: an `Error` by its message, a `ProtocolReadError`, a string, or another
-- object by its `JSON.stringify` and its `String`. `undefined`, a function and a symbol, which have no
-- JSON text, are left out.
pub data Thrown : Type 0 where
  plain_error : Text → Attrs → Thrown
  read_error : NormalizedError → Thrown
  text : Text → Thrown
  object : (json shown : Text) → Attrs → Thrown

abbrev pub non_retryable_codes : List Text
non_retryable_codes =
    lit "INVALID_PARAM"
    ∷ lit "INVALID_URL"
    ∷ lit "INVALID_PAGINATION"
    ∷ lit "UNKNOWN_FACT"
    ∷ lit "UNKNOWN_REQUEST"
    ∷ lit "UNKNOWN_POLICY"
    ∷ lit "UNKNOWN_TEMPLATE"
    ∷ lit "NOT_OWNER"
    ∷ lit "UNAUTHORIZED"
    ∷ lit "BINDING_MISMATCH"
    ∷ []

abbrev pub error_text : Thrown → Text
error_text (plain_error message p) = message
error_text (read_error n) = n.user_message
error_text (text s) = s
error_text (object json shown p) = json

-- The properties that are read from a thrown value that is an object.
abbrev attrs : Thrown → Attrs
attrs (plain_error message p) = p
attrs (read_error n) = no_attrs
attrs (text s) = no_attrs
attrs (object json shown p) = p

-- [A-Z0-9_]
abbrev code_unit : Regex
code_unit = unit_in (λ c. is_upper c || is_digit c || (c == b'_'))

abbrev code_regex : Regex
code_regex = then_ word_edge (
    then_ (group (then_ (unit_in is_upper) (then_ code_unit (then_ code_unit (many code_unit)))))
      word_edge)

pub extract_code : Text → Option Text
extract_code s = match_group false code_regex s

abbrev status_regex : Regex
status_regex = then_ word_edge (
    then_
      (group (
        either (word (lit "429")) (
          either (word (lit "500"))
            (either (word (lit "502")) (either (word (lit "503")) (word (lit "504")))))))
      word_edge)

-- `a ?? b`
abbrev first_attr : Attr → Attr → Attr
first_attr absent b = b
first_attr (number n) b = number n
first_attr other b = other

abbrev numeric : Attr → Option ℕ
numeric absent = none
numeric (number n) = some n
numeric other = none

abbrev number_of : Option Text → Option ℕ
number_of none = none
number_of (some s) = some (decimal s)

abbrev or_try : Option ℕ → Option ℕ → Option ℕ
or_try none b = b
or_try (some n) b = some n

pub extract_status : Thrown → Text → Option ℕ
extract_status error s =
    or_try (numeric (first_attr (attrs error).status_code (attrs error).status))
      (number_of (match_group false status_regex s))

abbrev retry_after_regex : Regex
retry_after_regex = then_ (word (lit "retry")) (
    then_ (maybe (unit_in (λ c. (c == b'-') || (c == b' ') || (c == b'_')))) (
      then_ (word (lit "after"))
        (then_ (many (unit_in (λ c. not (is_digit c)))) (group (some_of digit)))))

abbrev seconds_regex : Regex
seconds_regex = then_ (group (some_of digit)) (
    then_ (many space)
      (then_ (either (then_ (word (lit "second")) (maybe (chr b's'))) (chr b's')) word_edge))

abbrev in_ms : Option ℕ → Option ℕ
in_ms none = none
in_ms (some n) = some (if ltb n 1000 then n * 1000 else n)

abbrev text_or : Option Text → Option Text → Option Text
text_or none b = b
text_or (some s) b = some s

abbrev retry_after_of : Text → Option Text → Option ℕ
retry_after_of s (some (d ∷ ds)) = some (decimal (d ∷ ds) * 1000)
retry_after_of s _ = if includes (to_lower s) (lit "rate limit") then some 60000 else none

pub extract_retry_after : Thrown → Text → Option ℕ
extract_retry_after error s =
    or_try (in_ms (numeric (first_attr (attrs error).retry_after_ms (attrs error).retry_after))) (
      retry_after_of s
        (text_or (match_group true retry_after_regex s) (match_group true seconds_regex s)))

abbrev pub is_status : ℕ → Option ℕ → Bool
is_status n none = false
is_status n (some m) = m == n

-- The truth value of an optional number: 0 is falsy.
abbrev truthy : Option ℕ → Bool
truthy none = false
truthy (some n) = not (n == 0)

abbrev when_truthy : Option ℕ → Option ℕ
when_truthy o = if truthy o then o else none

abbrev is_contract_code : Option Text → Bool
is_contract_code none = false
is_contract_code (some c) = one_of non_retryable_codes c

abbrev transient : Option ℕ → Text → Bool
transient status lower =
    is_status 429 status
    || is_status 502 status
    || is_status 503 status
    || is_status 504 status
    || includes lower (lit "timeout")
    || includes lower (lit "rate limit")
    || includes lower (lit "temporarily unavailable")

abbrev kind_of : Bool → Bool → Bool → ErrorKind
kind_of known_code transport decode_error =
    if known_code
    then contract
    else if transport
    then rpc
    else if decode_error
    then decode
    else unknown

abbrev message_of : Option Text → Bool → Text
message_of (some c) retry = lit "Protocol operation failed (" ++ (c ++ lit ").")
message_of none retry =
    if retry
    then lit "The protocol read is temporarily unavailable."
    else lit "Protocol read failed."

unfoldable pub normalize_error : Thrown → NormalizedError
normalize_error error =
    let detail = error_text error in
    let code = extract_code detail in
    let status = extract_status error detail in
    let retry_after = extract_retry_after error detail in
    let lower = to_lower detail in
    let retry = transient status lower in
    record {
      kind =
          kind_of (is_contract_code code) (truthy status || retry) (includes lower (lit "decode"));
      code = code;
      retryable = not (is_contract_code code) && retry;
      user_message = message_of code retry;
      detail = detail;
      status_code = when_truthy status;
      retry_after_ms = when_truthy retry_after;
    }

-- `new ProtocolReadError(error)`
abbrev pub protocol_read_error : Thrown → Thrown
protocol_read_error error = read_error (normalize_error error)

-- `errorDetail` of the scheduler
abbrev pub error_detail : Thrown → Text
error_detail (plain_error message p) = message
error_detail (read_error n) = n.detail
error_detail (text s) = s
error_detail (object json shown p) = shown

abbrev spaces : Regex
spaces = some_of space

abbrev requests_per_regex : Regex
requests_per_regex = then_ (word (lit "rate limit exceeded")) (
    then_ (many space) (
      then_ (chr b':') (
        then_ (many space) (
          then_ (some_of digit) (
            then_ spaces (
              then_ (word (lit "request")) (
                then_ (maybe (chr b's')) (
                  then_ spaces (
                    then_ (word (lit "per")) (
                      then_ spaces (
                        either (word (lit "hour")) (
                          either (word (lit "day"))
                            (either (word (lit "week")) (word (lit "month")))))))))))))))

abbrev daily_quota_regex : Regex
daily_quota_regex =
    then_ (word (lit "daily"))
      (then_ spaces (then_ (maybe (then_ (word (lit "rpc")) spaces)) (word (lit "quota"))))

abbrev quota_used_regex : Regex
quota_used_regex =
    then_ (word (lit "quota"))
      (then_ (many any_unit) (either (word (lit "exhausted")) (word (lit "exceeded"))))

unfoldable pub is_hard_quota_error : Thrown → Bool
is_hard_quota_error error =
    let detail = error_detail error in
    test true requests_per_regex detail
    || test true daily_quota_regex detail
    || test true quota_used_regex detail
