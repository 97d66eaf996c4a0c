-- ===== src/Protocol/Client/Queries/Resolver.antt =====
-- `ResolverClient` of packages/protocol/src/client.ts.
use evidra_protocol.Base.{[], Text, lit, ok}
use evidra_protocol.Protocol.Constants.{resolver}
use evidra_protocol.Protocol.Client.Queries.{
  Query, ResolverCapabilities, query, read, normalize_capabilities, text_of, address_of, decoded,
}

abbrev pub get_resolver_version : Query Text
get_resolver_version = query (ok (read resolver (lit "get_resolver_version") ([]))) text_of

abbrev pub get_registry : Query Text
get_registry =
    query (ok (read resolver (lit "get_registry") ([]))) (address_of (lit "resolver.registry"))

abbrev pub get_capabilities : Query ResolverCapabilities
get_capabilities =
    query (ok (read resolver (lit "get_capabilities") ([])))
      (decoded (lit "get_capabilities") normalize_capabilities)

abbrev pub get_capabilities_json : Query Text
get_capabilities_json = query (ok (read resolver (lit "get_capabilities_json") ([]))) text_of
