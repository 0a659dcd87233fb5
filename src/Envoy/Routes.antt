-- ===== src/Envoy/Routes.antt =====
-- The virtual hosts of controlplane/src/config/envoy_gen.rs: routes with the same set of host names
-- are merged into one. `expect` on a route that is not found is `none`.
pub mod Groups
pub mod Entries
use Prim.Native.String
use Prim.Native.Nat.{Ordering}
use mathlib.Core.Option
use open_api_gateway.Prelude.{
  ℕ, String, ◌==◌, Bool, true, false, ◌&&◌, Option, none, some, List, [], ◌∷◌, ◌++◌, map, find, ltb,
  if◌then◌else◌,
}
use open_api_gateway.Config.Types.{Platform, RouteConfig}
use open_api_gateway.Envoy.Values.{duration_string}

-- `Vec<String>::sort`, by `str`'s order
unfoldable pub insert_sorted : String → List String → List String
insert_sorted x [] = x ∷ []
insert_sorted x (y ∷ ys) = elim (String.compare x y) [
  | Ordering.gt ↦ y ∷ insert_sorted x ys
  | _ ↦ x ∷ y ∷ ys
]

unfoldable pub sort : List String → List String
unfolding insert_sorted
sort [] = []
sort (x ∷ xs) = insert_sorted x (sort xs)

-- `Vec<String> == Vec<String>`
unfoldable pub same_texts : List String → List String → Bool
same_texts [] [] = true
same_texts [] (y ∷ ys) = false
same_texts (x ∷ xs) [] = false
same_texts (x ∷ xs) (y ∷ ys) = x == y && same_texts xs ys

-- `(key, name, route_entries)` of the source's `groups`
pub record Group (V : Type 0) : Type 0 where
  pub key : List String
  pub name : String
  pub entries : List V

-- One round of the loop: the entry joins the first group with its key, or opens a group at the end.
unfoldable pub add_entry : {V : Type 0} → List String → String → V → List (Group V) → List (Group V)
unfolding same_texts
add_entry key name entry [] = record { key = key; name = name; entries = entry ∷ [] } ∷ []
add_entry key name entry (g ∷ gs) =
    if same_texts g.key key
    then record g { entries = g.entries ++ entry ∷ [] } ∷ gs
    else g ∷ add_entry key name entry gs

module _ (p : Platform) where
  open p use {Value, string, number, sequence, mapping}

  unfoldable pub retry_entries : ℕ → List (String × Value)
  retry_entries retries =
      if ltb 0 retries
      then (
        "retry_policy",
        mapping (("retry_on", string "5xx,connect-failure") ∷ ("num_retries", number retries) ∷ []),
      )
        ∷ []
      else []

  unfoldable pub build_route_entry : RouteConfig p → Value
  unfolding retry_entries
  build_route_entry route = mapping (
      ("match", mapping (("prefix", string route.path_prefix) ∷ []))
      ∷ (
        "route",
        mapping (
            ("cluster", string route.upstream.service)
            ∷ ("timeout", string (duration_string route.upstream.request_timeout_ms))
            ∷ retry_entries route.upstream.retries),
      )
      ∷ [])

  -- The loop over the routes, from the groups made so far.
  unfoldable pub group_routes_from : List (Group Value) → List (RouteConfig p) → List (Group Value)
  unfolding add_entry sort build_route_entry
  group_routes_from groups [] = groups
  group_routes_from groups (r ∷ routes) =
      group_routes_from (add_entry (sort r.hostnames) r.name (build_route_entry r) groups) routes

  unfoldable pub group_routes : List (RouteConfig p) → List (Group Value)
  unfolding group_routes_from
  group_routes = group_routes_from []

  unfoldable pub virtual_host : String → List String → List Value → Value
  virtual_host name domains entries = mapping (
      ("name", string name)
      ∷ ("domains", sequence (map string domains))
      ∷ ("routes", sequence entries)
      ∷ [])

  -- The map over the groups, each with the host names of the first route of the group's name.
  unfoldable pub render_groups : List (RouteConfig p) → List (Group Value) → Option (List Value)
  unfolding virtual_host
  render_groups routes [] = some []
  render_groups routes (g ∷ groups) = elim (find (λ r. r.name == g.name) routes) [
    | none ↦ none
    | some matching ↦
        Option.map (λ vhosts. virtual_host g.name matching.hostnames g.entries ∷ vhosts)
          (render_groups routes groups)
  ]

  unfoldable pub build_virtual_hosts : List (RouteConfig p) → Option (List Value)
  unfolding group_routes render_groups
  build_virtual_hosts routes = render_groups routes (group_routes routes)
