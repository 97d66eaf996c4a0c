-- ===== src/Protocol/Errors/Tests.antt =====
-- Errors at concrete messages.
use evidra_protocol.Base.{
  ℕ, ◌≡◌, ◌≢◌, ◌↔◌, ◌⊎◌, refl, true, false, some, Text, lit, to_lower, includes, decimal,
}
use evidra_protocol.Protocol.Regex.{match_group, test}
use evidra_protocol.Protocol.Errors.{
  ErrorKind, contract, Attrs, number, is_contract_code, Thrown, plain_error, rpc, no_attrs,
  normalize_error, extract_code, extract_status, extract_retry_after, is_hard_quota_error,
}
use evidra_protocol.Protocol.Errors.Classes.{normalize_error_sorts, normalize_error-status}

abbrev said : Text → Thrown
said s = plain_error s no_attrs

hard : is_hard_quota_error (said (lit "Rate limit exceeded: 5000 requests per day")) ≡ true
unfolding is_hard_quota_error test
hard = refl

soft : is_hard_quota_error (said (lit "Rate limit exceeded: 30 requests per minute")) ≡ false
unfolding is_hard_quota_error test
soft = refl

code_found : extract_code (lit "revert UNKNOWN_FACT: x") ≡ some (lit "UNKNOWN_FACT")
unfolding extract_code match_group
code_found = refl

seconds :
    extract_retry_after (said (lit "Retry-After: 12 please")) (lit "Retry-After: 12 please")
    ≡ some 12000
unfolding extract_retry_after match_group includes to_lower decimal
seconds = refl

status_found : (normalize_error (said (lit "HTTP 503"))).status_code ≡ some 503
unfolding normalize_error extract_status match_group decimal
status_found = refl

abbrev unavailable : Thrown
unavailable = said (lit "HTTP 503")

abbrev seen_status : ℕ
seen_status = 503

abbrev asks_to_wait : Attrs
asks_to_wait = record no_attrs { retry_after_ms = number 250 }

normalize_error_sorts_example :
    (((normalize_error unavailable).kind ≡ contract)
      ↔ (is_contract_code (normalize_error unavailable).code ≡ true))
    × (is_contract_code (normalize_error unavailable).code ≡ true
        → (normalize_error unavailable).retryable ≡ false)
    × ((normalize_error unavailable).retryable ≡ true → (normalize_error unavailable).kind ≡ rpc)
    × ((normalize_error unavailable).kind ≢ ErrorKind.execution)
    × ((normalize_error unavailable).kind ≢ ErrorKind.configuration)
normalize_error_sorts_example = normalize_error_sorts unavailable

normalize_error-status_example :
    ((seen_status ≡ 429) ⊎ (seen_status ≡ 502) ⊎ (seen_status ≡ 503) ⊎ (seen_status ≡ 504)
      → ((normalize_error unavailable).retryable ≡ true)
        × ((normalize_error unavailable).kind ≡ rpc))
    × (seen_status ≡ 500 → (normalize_error unavailable).kind ≡ rpc)
unfolding normalize_error extract_status extract_code match_group decimal
normalize_error-status_example = normalize_error-status unavailable seen_status refl refl
