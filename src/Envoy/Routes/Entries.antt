-- ===== src/Envoy/Routes/Entries.antt =====
-- The groups of controlplane/src/config/envoy_gen.rs against the routes: their keys, entries and
-- domains.
use mathlib.Core.List.{append_assoc, append-nil}
use open_api_gateway.Prelude.{
  String, ◌==◌, eq_iff, true, List, [], ◌∷◌, ◌++◌, map, find, All, some, ◌≡◌, refl, sym, ◌∙◌, ◌≢◌,
  ◌↔◌, arith, Bool-cases, inl, inr, if◌then◌else◌,
}
use open_api_gateway.Config.Types.{Platform, RouteConfig}
use open_api_gateway.Config.Validity.{IsUnique}
use open_api_gateway.Envoy.Routes.{
  Group, sort, same_texts, add_entry, build_route_entry, group_routes_from, group_routes,
}
use open_api_gateway.Envoy.Routes.Groups.{group_routes_from-All, All-found_self, All-map}

pub same_texts_iff : (xs ys : List String) → (same_texts xs ys ≡ true) ↔ (xs ≡ ys)
unfolding same_texts
same_texts_iff [] [] = (λ _. refl, λ _. refl)
same_texts_iff [] (y ∷ ys) = (λ h. (cc), λ h. (cc))
same_texts_iff (x ∷ xs) [] = (λ h. (cc), λ h. (cc))
same_texts_iff (x ∷ xs) (y ∷ ys) = ground (arith, eq_iff x y, same_texts_iff xs ys)

module _ {V : Type 0} where
  -- The entries of the first group with a key.
  pub entries_of : List String → List (Group V) → List V
  entries_of key [] = []
  entries_of key (g ∷ gs) = if same_texts g.key key then g.entries else entries_of key gs

  entries_of-add_entry :
      (key : List String) (name : String) (entry : V) (other : List String)
      (groups : List (Group V))
      → entries_of other (add_entry key name entry groups)
        ≡ entries_of other groups ++ (if same_texts key other then entry ∷ [] else [])
  unfolding entries_of add_entry
  entries_of-add_entry key name entry other [] = ground arith
  entries_of-add_entry key name entry other (g ∷ gs) = ground (
    arith,
    entries_of-add_entry key name entry other gs,
    same_texts_iff g.key key,
    same_texts_iff g.key other,
    same_texts_iff key other,
    append-nil g.entries,
    append-nil (entries_of other gs),
  )

  abbrev pub HasNoKey : List String → List (Group V) → Type 0
  HasNoKey key = All λ g. g.key ≢ key

  -- No two groups have the same key.
  abbrev pub HasUniqueKeys : List (Group V) → Type 0
  HasUniqueKeys [] = Unit
  HasUniqueKeys (g ∷ gs) = HasNoKey g.key gs × HasUniqueKeys gs

  HasNoKey-add_entry :
      (key : List String) (name : String) (entry : V) (other : List String)
      (groups : List (Group V))
      → key ≢ other
      → HasNoKey other groups
      → HasNoKey other (add_entry key name entry groups)
  unfolding add_entry
  HasNoKey-add_entry key name entry other [] ne h = (ne, tt)
  HasNoKey-add_entry key name entry other (g ∷ gs) ne h =
      ground (arith, HasNoKey-add_entry key name entry other gs ne h.1)

  HasUniqueKeys-add_entry :
      (key : List String) (name : String) (entry : V) (groups : List (Group V))
      → HasUniqueKeys groups
      → HasUniqueKeys (add_entry key name entry groups)
  unfolding add_entry
  HasUniqueKeys-add_entry key name entry [] h = (tt, tt)
  HasUniqueKeys-add_entry key name entry (g ∷ gs) h = elim (Bool-cases (same_texts g.key key)) [
    | inl same ↦ rw same h
    | inr other ↦
        let ne : key ≢ g.key = λ e. (let t = (same_texts_iff g.key key).1 (sym e) in cc) in
        rw other (
          HasNoKey-add_entry key name entry g.key gs ne h.0,
          HasUniqueKeys-add_entry key name entry gs h.1,
        )
  ]

module _ (p : Platform) where
  -- The entries of the routes whose host names are those of the key, in the order of the routes.
  pub entries_for : List String → List (RouteConfig p) → List p.Value
  entries_for key [] = []
  entries_for key (r ∷ routes) =
      (if same_texts (sort r.hostnames) key then build_route_entry p r ∷ [] else [])
      ++ entries_for key routes

  entries_of-group_routes_from :
      (groups : List (Group p.Value)) (routes : List (RouteConfig p)) (key : List String)
      → entries_of key (group_routes_from p groups routes)
        ≡ entries_of key groups ++ entries_for key routes
  unfolding group_routes_from entries_for
  entries_of-group_routes_from groups [] key = sym (append-nil _)
  entries_of-group_routes_from groups (r ∷ routes) key =
      entries_of-group_routes_from
        (add_entry (sort r.hostnames) r.name (build_route_entry p r) groups) routes key
      ∙ rw (entries_of-add_entry (sort r.hostnames) r.name (build_route_entry p r) key groups) (
          append_assoc (entries_of key groups)
            (if same_texts (sort r.hostnames) key then build_route_entry p r ∷ [] else [])
            (entries_for key routes))

  HasUniqueKeys-group_routes_from :
      (groups : List (Group p.Value)) (routes : List (RouteConfig p))
      → HasUniqueKeys groups
      → HasUniqueKeys (group_routes_from p groups routes)
  unfolding group_routes_from
  HasUniqueKeys-group_routes_from groups [] h = h
  HasUniqueKeys-group_routes_from groups (r ∷ routes) h =
      HasUniqueKeys-group_routes_from
        (add_entry (sort r.hostnames) r.name (build_route_entry p r) groups) routes
        (HasUniqueKeys-add_entry (sort r.hostnames) r.name (build_route_entry p r) groups h)

  -- Grouping neither loses nor duplicates nor reorders a route of a set of host names: no two groups
  -- have the same set, and the group of a set holds exactly the entries of the routes with it, in
  -- the order of the configuration.
  pub group_routes-entries_for :
      (routes : List (RouteConfig p))
      → HasUniqueKeys (group_routes p routes)
        × ((key : List String) → entries_of key (group_routes p routes) ≡ entries_for key routes)
  unfolding group_routes entries_of
  group_routes-entries_for routes =
      (HasUniqueKeys-group_routes_from [] routes tt, entries_of-group_routes_from [] routes)

  -- With distinct route names, the route by which a group is rendered has the group's host names.
  pub group_routes-domains :
      (routes : List (RouteConfig p))
      → IsUnique (map (λ r. r.name) routes)
      → All
          (λ g.
            (r : RouteConfig p) × (find (λ q. q.name == g.name) routes ≡ some r)
            × (sort r.hostnames ≡ g.key))
          (group_routes p routes)
  unfolding group_routes
  group_routes-domains routes unique =
      group_routes_from-All
        (λ name key.
          (r : RouteConfig p) × (find (λ q. q.name == name) routes ≡ some r)
          × (sort r.hostnames ≡ key))
        p [] routes tt (All-map _ _ routes (λ r e. (r, e, refl)) (All-found_self routes unique))
