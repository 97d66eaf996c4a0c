-- ===== src/Protocol/Constants.antt =====
-- packages/protocol/src/constants.ts: the frozen deployment and the form of an address.
use evidra_protocol.Base.{
  ℕ, Bool, true, ◌&&◌, ◌||◌, [], ◌∷◌, Text, lit, Result, ok, err, to_lower, is_digit, starts_with,
  drop, length, leb, ◌==◌, if◌then◌else◌,
}
use evidra_protocol.Protocol.Values.{Value, text, trim}

-- `FROZEN_NETWORK.chainId`
abbrev pub frozen_chain_id : ℕ
frozen_chain_id = 61997

-- `ContractName`
pub data ContractName : Type 0 where
  policy_registry registry resolver consumer_probe : ContractName

-- `CONTRACT_ADDRESSES`
abbrev pub contract_address : ContractName → Text
contract_address policy_registry = lit "0x8583F226DB262a97dba3f00c3D2A0D13D08B6c71"
contract_address registry = lit "0xB18f84F0dE3F7aB600C6A07Ec85408a7000b93b6"
contract_address resolver = lit "0xD21E9e95CBd59058fbCC2599C3A28a3faE44C477"
contract_address consumer_probe = lit "0x5B73a45BA6b3560B6ECd020FefF95c5Fa0693C2F"

abbrev pub is_hex : ℕ → Bool
is_hex c = is_digit c || (leb b'a' c && leb c b'f') || (leb b'A' c && leb c b'F')

abbrev pub all_hex : Text → Bool
all_hex [] = true
all_hex (c ∷ s) = is_hex c && all_hex s

-- `ADDRESS_RE`
unfoldable pub is_address : Text → Bool
is_address s = starts_with (to_lower s) (lit "0x") && all_hex (drop 2 s) && (length s == 42)

-- `String(value ?? '').trim().replace(/^addr#/i, '')`
unfoldable pub address_text : Value → Text
unfolding trim
address_text v =
    if starts_with (to_lower (trim (text v))) (lit "addr#")
    then drop 5 (trim (text v))
    else trim (text v)

-- `normalizeAddress`
unfoldable pub normalize_address : Value → Result Text Text
unfolding is_address address_text
normalize_address v =
    if is_address (address_text v)
    then ok (to_lower (address_text v))
    else err (lit "Invalid GenLayer address")

-- `assertAddress`
unfoldable pub assert_address : Value → (field : Text) → Result Text Text
unfolding is_address address_text
assert_address v field = if is_address (address_text v) then ok (address_text v) else err field
