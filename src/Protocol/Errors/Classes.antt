-- ===== src/Protocol/Errors/Classes.antt =====
-- How packages/protocol/src/errors.ts sorts errors: what is final and what may be retried.
use evidra_protocol.Base.{ℕ, ◌≡◌, ◌≢◌, ◌↔◌, ◌⊎◌, not, ◌&&◌, ◌||◌, Bool, true, false, some, arith}
use evidra_protocol.Protocol.Errors.{
  ErrorKind, contract, rpc, Thrown, is_contract_code, kind_of, normalize_error, extract_status,
  error_text,
}

-- The sorting, over the tests that it makes.
sorts :
    (known transport decoding retry : Bool)
    → ((kind_of known (transport || retry) decoding ≡ contract) ↔ (known ≡ true))
      × (known ≡ true → (not known && retry) ≡ false)
      × ((not known && retry) ≡ true → kind_of known (transport || retry) decoding ≡ rpc)
      × (kind_of known (transport || retry) decoding ≢ ErrorKind.execution)
      × (kind_of known (transport || retry) decoding ≢ ErrorKind.configuration)
sorts k t d r = (
  (λ h. ground arith, λ h. ground arith),
  λ h. ground arith,
  λ h. ground arith,
  λ h. ground arith,
  λ h. ground arith,
)

-- Every error falls in one of four kinds, and the kind and the retry flag agree: the kind is
-- `contract` exactly when the code found in the text is one of the listed contract codes, such an
-- error is never retryable, and an error that is retryable is of kind `rpc`.
pub normalize_error_sorts :
    (e : Thrown)
    → (((normalize_error e).kind ≡ contract) ↔ (is_contract_code (normalize_error e).code ≡ true))
      × (is_contract_code (normalize_error e).code ≡ true → (normalize_error e).retryable ≡ false)
      × ((normalize_error e).retryable ≡ true → (normalize_error e).kind ≡ rpc)
      × ((normalize_error e).kind ≢ ErrorKind.execution)
      × ((normalize_error e).kind ≢ ErrorKind.configuration)
unfolding normalize_error
normalize_error_sorts e = sorts _ _ _ _

-- An error whose status is 429, 502, 503 or 504 is retryable and of kind `rpc`, unless its text has a
-- contract code; with status 500 it is of kind `rpc` then too.
pub normalize_error-status :
    (e : Thrown) (s : ℕ)
    → extract_status e (error_text e) ≡ some s
    → is_contract_code (normalize_error e).code ≡ false
    → ((s ≡ 429) ⊎ (s ≡ 502) ⊎ (s ≡ 503) ⊎ (s ≡ 504)
        → ((normalize_error e).retryable ≡ true) × ((normalize_error e).kind ≡ rpc))
      × (s ≡ 500 → (normalize_error e).kind ≡ rpc)
unfolding normalize_error
normalize_error-status e s h c = (λ w. (ground arith, ground arith), λ w. ground arith)
