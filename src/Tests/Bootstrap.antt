-- ===== src/Tests/Bootstrap.antt =====
-- The theorems on the bootstrap configuration applied to the sample.
use open_api_gateway.Prelude.{
  ◌≤◌, String, ◌==◌, some, List, [], ◌∷◌, All, find, ◌≡◌, ◌≢◌, refl, arith,
}
use open_api_gateway.Prelude.Text.{parse_u16, rsplit_colon}
use open_api_gateway.Prelude.Text.Colon.{with_colon}
use open_api_gateway.Prelude.Text.{decimal}
use open_api_gateway.Prelude.Result.{ok}
use open_api_gateway.Config.Types.{RouteConfig}
use open_api_gateway.Config.Validity.{IsUnique, IsHostPort}
use open_api_gateway.Envoy.Endpoint.{parse_endpoint}
use open_api_gateway.Envoy.Endpoint.Laws.{parse_endpoint_roundtrip, parse_endpoint_sound}
use open_api_gateway.Envoy.Routes.{sort, group_routes, build_virtual_hosts}
use open_api_gateway.Envoy.Routes.Groups.{build_virtual_hosts_total}
use open_api_gateway.Envoy.Routes.Entries.{
  HasUniqueKeys, entries_of, entries_for, group_routes-entries_for, group_routes-domains,
}
use open_api_gateway.Tests.Sample.{platform, config}

group_routes-entries_for_example :
    HasUniqueKeys (group_routes platform config.routes)
    × ((key : List String)
        → entries_of key (group_routes platform config.routes)
          ≡ entries_for platform key config.routes)
group_routes-entries_for_example = group_routes-entries_for platform config.routes

names-IsUnique : IsUnique ("home" ∷ "orders" ∷ [])
names-IsUnique = ((λ h. (cc), tt), (tt, tt))

group_routes-domains_example :
    All
      (λ g.
        (r : RouteConfig platform) × (find (λ q. q.name == g.name) config.routes ≡ some r)
        × (sort r.hostnames ≡ g.key))
      (group_routes platform config.routes)
group_routes-domains_example = group_routes-domains platform config.routes names-IsUnique

build_virtual_hosts_total_example :
    (vhosts : List platform.Value) × (build_virtual_hosts platform config.routes ≡ some vhosts)
build_virtual_hosts_total_example = build_virtual_hosts_total config.routes

host_named : ◌≢◌ {A = String} "::1" ""
host_named h = cc

parse_endpoint_roundtrip_example :
    parse_endpoint (with_colon "::1" (decimal 8080)) ≡ ok ("::1", 8080)
parse_endpoint_roundtrip_example = parse_endpoint_roundtrip "::1" 8080 host_named (omega arith)

endpoint_parsed : parse_endpoint "[::1]:080" ≡ ok ("[::1]", 80)
unfolding parse_endpoint rsplit_colon parse_u16
endpoint_parsed = refl

parse_endpoint_sound_example :
    IsHostPort "[::1]:080"
    × (80 ≤ 65535)
    × ((digits : String) × ("[::1]:080" ≡ with_colon "[::1]" digits) × (parse_u16 digits ≡ some 80))
parse_endpoint_sound_example = parse_endpoint_sound "[::1]:080" "[::1]" 80 endpoint_parsed
