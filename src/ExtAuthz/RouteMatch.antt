-- ===== src/ExtAuthz/RouteMatch.antt =====
-- `match_route` of controlplane/src/extauthz/helpers.rs.
pub mod Best
use open_api_gateway.Prelude.{
  String, ◌==◌, Bool, ◌&&◌, ◌||◌, Option, none, some, List, [], ◌∷◌, any, filter, leb,
  if◌then◌else◌,
}
use open_api_gateway.Prelude.Text.{byte_len}
use text.Mathlib.Text.{starts_with}
use open_api_gateway.Config.Types.{Platform, RouteConfig}

module _ {p : Platform} where
  unfoldable pub host_matches : String → RouteConfig p → Bool
  host_matches host r = any (λ h. h == "*" || h == host) r.hostnames

  unfoldable pub path_matches : String → RouteConfig p → Bool
  path_matches path r = starts_with path r.path_prefix

  -- `max_by_key` keeps the last of the greatest items.
  unfoldable pub longest : RouteConfig p → List (RouteConfig p) → RouteConfig p
  unfolding byte_len
  longest best [] = best
  longest best (r ∷ rs) =
      longest (if leb (byte_len best.path_prefix) (byte_len r.path_prefix) then r else best) rs

  unfoldable pub max_by_prefix_len : List (RouteConfig p) → Option (RouteConfig p)
  unfolding longest
  max_by_prefix_len [] = none
  max_by_prefix_len (r ∷ rs) = some (longest r rs)

  unfoldable pub match_route : List (RouteConfig p) → String → String → Option (RouteConfig p)
  unfolding host_matches path_matches max_by_prefix_len
  match_route routes host path =
      max_by_prefix_len (filter (path_matches path) (filter (host_matches host) routes))
