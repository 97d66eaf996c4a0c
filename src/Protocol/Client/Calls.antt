-- ===== src/Protocol/Client/Calls.antt =====
-- The calls of contract methods in packages/protocol/src/client.ts and packages/protocol/src/methods.ts:
-- their arguments, the key that `rawRead` makes of them, and the public views.
use evidra_protocol.Base.{
  ℕ, zero, suc, ◌+◌, ◌/◌, ◌%◌, Bool, true, false, ◌||◌, List, [], ◌∷◌, ◌++◌, Text, lit, ltb, ◌==◌,
  if◌then◌else◌,
}
use evidra_protocol.Protocol.Constants.{
  ContractName, policy_registry, registry, resolver, consumer_probe,
}

-- An argument of a read.
pub data Arg : Type 0 where
  text_arg : Text → Arg
  number_arg : ℕ → Arg
  bigint_arg : ℕ → Arg
  boolean_arg : Bool → Arg

pub record Call : Type 0 where
  pub contract : ContractName
  pub function_name : Text
  pub args : List Arg

-- The name that a contract has in the source.
abbrev pub contract_text : ContractName → Text
contract_text policy_registry = lit "policyRegistry"
contract_text registry = lit "registry"
contract_text resolver = lit "resolver"
contract_text consumer_probe = lit "consumerProbe"

-- The decimal digits of a number, the last one first.
unfoldable digits : ℕ → ℕ → Text
digits zero n = []
digits (suc fuel) n =
    let rest = digits fuel (n / 10) in (b'0' + n % 10) ∷ (if ltb n 10 then [] else rest)

abbrev reverse_onto : Text → Text → Text
reverse_onto [] acc = acc
reverse_onto (c ∷ s) acc = reverse_onto s (c ∷ acc)

-- `String(n)`
unfoldable pub number_text : ℕ → Text
unfolding digits
number_text n = reverse_onto (digits (suc n) n) []

abbrev hex_digit : ℕ → ℕ
hex_digit n = if ltb n 10 then b'0' + n else 87 + n

-- A code unit in a JSON string; surrogates are taken to stand in pairs.
abbrev quoted_unit : ℕ → Text
quoted_unit c =
    if (c == 34) || (c == 92)
    then 92 ∷ c ∷ []
    else if c == 8
    then 92 ∷ b'b' ∷ []
    else if c == 9
    then 92 ∷ b't' ∷ []
    else if c == 10
    then 92 ∷ b'n' ∷ []
    else if c == 12
    then 92 ∷ b'f' ∷ []
    else if c == 13
    then 92 ∷ b'r' ∷ []
    else if ltb c 32
    then 92 ∷ b'u' ∷ b'0' ∷ b'0' ∷ hex_digit (c / 16) ∷ hex_digit (c % 16) ∷ []
    else c ∷ []

abbrev quoted_units : Text → Text
quoted_units [] = []
quoted_units (c ∷ s) = quoted_unit c ++ quoted_units s

unfoldable pub quote : Text → Text
quote s = 34 ∷ (quoted_units s ++ (34 ∷ []))

-- `JSON.stringify` with the replacer, which writes a bigint as a string with an `n` behind it.
abbrev arg_json : Arg → Text
arg_json (text_arg s) = quote s
arg_json (number_arg n) = number_text n
arg_json (bigint_arg n) = quote (number_text n ++ lit "n")
arg_json (boolean_arg true) = lit "true"
arg_json (boolean_arg false) = lit "false"

abbrev join_args : List Arg → Text
join_args [] = []
join_args (a ∷ []) = arg_json a
join_args (a ∷ b ∷ args) = arg_json a ++ (lit "," ++ join_args (b ∷ args))

-- `key` of `rawRead`
unfoldable pub read_key : Call → Text
read_key c =
    lit "["
    ++ (quote (contract_text c.contract)
        ++ (lit "," ++ (quote c.function_name ++ (lit ",[" ++ (join_args c.args ++ lit "]]")))))
