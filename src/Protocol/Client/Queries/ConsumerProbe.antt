-- ===== src/Protocol/Client/Queries/ConsumerProbe.antt =====
-- `ConsumerProbeClient` of packages/protocol/src/client.ts.
use evidra_protocol.Base.{ℕ, Bool, [], ◌∷◌, Text, lit, ok}
use evidra_protocol.Protocol.Constants.{consumer_probe}
use evidra_protocol.Protocol.Client.Calls.{text_arg}
use evidra_protocol.Protocol.Client.Queries.{
  Query, query, read, text_of, flag_of, integer_of, address_of,
}

abbrev pub get_trusted_registry : Query Text
get_trusted_registry =
    query (ok (read consumer_probe (lit "get_trusted_registry") ([])))
      (address_of (lit "trusted_registry"))

abbrev pub get_last_request_id : Query ℕ
get_last_request_id =
    query (ok (read consumer_probe (lit "get_last_request_id") ([])))
      (integer_of (lit "last_request_id"))

abbrev pub get_last_fact_key : Query Text
get_last_fact_key = query (ok (read consumer_probe (lit "get_last_fact_key") ([]))) text_of

abbrev pub get_last_resolution_id : Query ℕ
get_last_resolution_id =
    query (ok (read consumer_probe (lit "get_last_resolution_id") ([])))
      (integer_of (lit "last_resolution_id"))

abbrev pub get_last_outcome : Query Text
get_last_outcome = query (ok (read consumer_probe (lit "get_last_outcome") ([]))) text_of

abbrev pub get_last_resolved_at : Query ℕ
get_last_resolved_at =
    query (ok (read consumer_probe (lit "get_last_resolved_at") ([])))
      (integer_of (lit "last_resolved_at"))

abbrev pub get_last_valid_until : Query ℕ
get_last_valid_until =
    query (ok (read consumer_probe (lit "get_last_valid_until") ([])))
      (integer_of (lit "last_valid_until"))

abbrev pub get_last_callback_id : Query Text
get_last_callback_id = query (ok (read consumer_probe (lit "get_last_callback_id") ([]))) text_of

abbrev pub get_callback_count : Query ℕ
get_callback_count =
    query (ok (read consumer_probe (lit "get_callback_count") ([])))
      (integer_of (lit "callback_count"))

abbrev pub get_duplicate_ignored_count : Query ℕ
get_duplicate_ignored_count =
    query (ok (read consumer_probe (lit "get_duplicate_ignored_count") ([])))
      (integer_of (lit "duplicate_ignored_count"))

abbrev pub has_processed_callback : (callback_id : Text) → Query Bool
has_processed_callback callback_id =
    query (ok (read consumer_probe (lit "has_processed_callback") (text_arg callback_id ∷ [])))
      flag_of
