-- ===== src/Xds/Resources/Hosts.antt =====
-- Every route stands in one virtual host, the one of its host names.
use Prim.Native.Nat.{Ordering}
use mathlib.Core.List.{Perm, perm_middle, append_assoc, append-nil, map-append}
use mathlib.Core.List.Perm
use text.Mathlib.TextEquality.{path_by_compare}
use open_api_gateway.Prelude.{
  String, none, some, List, [], ◌∷◌, ◌++◌, map, ◌≡◌, refl, sym, ap, subst, arith,
}
use open_api_gateway.Config.Types.{Platform, RouteConfig}
use open_api_gateway.Envoy.Routes.{sort}
use open_api_gateway.Xds.Resources.{
  Route, VirtualHost, compare_keys, entry, push, or_insert, route_entry, group_hosts, host_of,
  hosts_of, build_virtual_hosts,
}

compare_keys_eq : (s t : List String) → compare_keys s t ≡ Ordering.eq → s ≡ t
unfolding compare_keys
compare_keys_eq [] [] h = refl
compare_keys_eq [] (t ∷ ts) h = absurd (cc)
compare_keys_eq (s ∷ ss) [] h = absurd (cc)
compare_keys_eq (s ∷ ss) (t ∷ ts) h = ground (arith, path_by_compare s t, compare_keys_eq ss ts)

-- The routes of the groups, each with its group's key.
abbrev tagged : List String → List Route → List (List String × Route)
tagged key routes = map (λ r. (key, r)) routes

abbrev spread : List (List String × List Route) → List (List String × Route)
spread [] = []
spread ((key, routes) ∷ groups) = tagged key routes ++ spread groups

entry-spread :
    (r : Route) (key : List String) (groups : List (List String × List Route))
    → Perm (spread (entry (push r) key groups)) ((key, r) ∷ spread groups)
unfolding entry
entry-spread r key [] = Perm.refl ((key, r) ∷ [])
entry-spread r key ((k, v) ∷ rest) =
    placed (compare_keys key k) (compare_keys_eq key k) (entry-spread r key rest)
  where
    placed :
        (o : Ordering)
        → (o ≡ Ordering.eq → key ≡ k)
        → Perm (spread (entry (push r) key rest)) ((key, r) ∷ spread rest)
        → Perm
            (spread (elim o [
              | Ordering.lt ↦ (key, push r none) ∷ (k, v) ∷ rest
              | Ordering.eq ↦ (k, push r (some v)) ∷ rest
              | Ordering.gt ↦ (k, v) ∷ entry (push r) key rest
            ]))
            ((key, r) ∷ (tagged k v ++ spread rest))
    placed Ordering.lt same ih = Perm.refl ((key, r) ∷ (tagged k v ++ spread rest))
    placed Ordering.eq same ih =
        subst
          (λ a. Perm (tagged k (v ++ r ∷ []) ++ spread rest) ((a, r) ∷ (tagged k v ++ spread rest)))
          (sym (same refl))
          (rw
            (
              map-append {B = List String × Route} (λ (x : Route). (k, x)) v (r ∷ []),
              append_assoc (tagged k v) ((k, r) ∷ []) (spread rest),
            )
            (perm_middle (tagged k v) (spread rest)))
    placed Ordering.gt same ih =
        Perm.trans (Perm.append_left (tagged k v) ih) (perm_middle (tagged k v) (spread rest))

module _ {p : Platform} where
  -- A route's host names in order, with its entry.
  abbrev pub tagged_route : RouteConfig p → List String × Route
  tagged_route r = (sort r.hostnames, route_entry r)

  group_hosts-spread :
      (groups : List (List String × List Route)) (names : List (List String × String))
      (routes : List (RouteConfig p))
      → Perm (spread (group_hosts groups names routes).0) (map tagged_route routes ++ spread groups)
  unfolding group_hosts
  group_hosts-spread groups names [] = Perm.refl (spread groups)
  group_hosts-spread groups names (r ∷ routes) =
      let key = sort r.hostnames in
      Perm.trans
        (group_hosts-spread (entry (push (route_entry r)) key groups)
          (entry (or_insert r.name) key names) routes)
        (Perm.trans
          (Perm.append_left (map tagged_route routes) (entry-spread (route_entry r) key groups))
          (perm_middle (map tagged_route routes) (spread groups)))

-- The routes of the virtual hosts, each with the domains it is served under.
abbrev pub served : List VirtualHost → List (List String × Route)
served [] = []
served (h ∷ hosts) = map (λ r. (h.domains, r)) h.routes ++ served hosts

hosts_of-served :
    (names : List (List String × String)) (groups : List (List String × List Route))
    → served (hosts_of names groups) ≡ spread groups
unfolding hosts_of host_of
hosts_of-served names [] = refl
hosts_of-served names ((key, routes) ∷ groups) =
    ap (◌++◌ (tagged key routes)) (hosts_of-served names groups)

-- The virtual hosts of a snapshot serve each route once, under its own host names and no others.
pub build_virtual_hosts-served :
    {p : Platform} (routes : List (RouteConfig p))
    → Perm (served (build_virtual_hosts routes)) (map tagged_route routes)
unfolding build_virtual_hosts
build_virtual_hosts-served routes =
    let (groups, names) = group_hosts [] [] routes in
    subst (λ xs. Perm xs (map tagged_route routes)) (sym (hosts_of-served names groups))
      (subst (Perm (spread groups)) (append-nil (map tagged_route routes))
        (group_hosts-spread [] [] routes))
