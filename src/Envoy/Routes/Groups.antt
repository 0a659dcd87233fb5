-- ===== src/Envoy/Routes/Groups.antt =====
-- The groups of controlplane/src/config/envoy_gen.rs: what holds of every group's name and key, and
-- the lookup of a group's first route.
use text.Mathlib.TextPositions.{eq_refl}
use open_api_gateway.Prelude.{
  String, ◌==◌, eq_iff, Bool, some, List, [], ◌∷◌, map, find, All, ◌≡◌, refl, ◌≢◌, arith,
  Bool-cases, inl, inr,
}
use open_api_gateway.Config.Types.{Platform, RouteConfig}
use open_api_gateway.Config.Validity.{IsUnique}
use open_api_gateway.Envoy.Routes.{
  Group, sort, add_entry, build_route_entry, group_routes_from, group_routes, virtual_host,
  render_groups, build_virtual_hosts,
}

pub All-map {ℓ} :
    {A : Type ℓ} (P Q : A → Type 0) (xs : List A) → ((x : A) → P x → Q x) → All P xs → All Q xs
All-map P Q [] f h = tt
All-map P Q (x ∷ xs) f h = (f x h.0, All-map P Q xs f h.1)

module _ (P : String → List String → Type 0) where
  add_entry-All :
      {V : Type 0} (key : List String) (name : String) (entry : V) (groups : List (Group V))
      → P name key
      → All (λ g. P g.name g.key) groups
      → All (λ g. P g.name g.key) (add_entry key name entry groups)
  unfolding add_entry
  add_entry-All key name entry [] new h = (new, tt)
  add_entry-All key name entry (g ∷ gs) new h =
      ground (arith, add_entry-All key name entry gs new h.1)

  pub group_routes_from-All :
      (p : Platform) (groups : List (Group p.Value)) (routes : List (RouteConfig p))
      → All (λ g. P g.name g.key) groups
      → All (λ r. P r.name (sort r.hostnames)) routes
      → All (λ g. P g.name g.key) (group_routes_from p groups routes)
  unfolding group_routes_from
  group_routes_from-All p groups [] h k = h
  group_routes_from-All p groups (r ∷ routes) h k =
      group_routes_from-All p (add_entry (sort r.hostnames) r.name (build_route_entry p r) groups)
        routes (add_entry-All (sort r.hostnames) r.name (build_route_entry p r) groups k.0 h) k.1

module _ {p : Platform} where
  abbrev pub named : String → RouteConfig p → Bool
  named name r = r.name == name

  abbrev Found : List (RouteConfig p) → String → Type 0
  Found routes name = (r : RouteConfig p) × (find (named name) routes ≡ some r)

  Found-cons :
      (r : RouteConfig p) (routes : List (RouteConfig p)) (name : String)
      → Found routes name
      → Found (r ∷ routes) name
  Found-cons r routes name (q, e) = elim (Bool-cases (r.name == name)) [
    | inl here ↦ (r, rw here)
    | inr later ↦ (q, rw later e)
  ]

  All-Found : (routes : List (RouteConfig p)) → All (λ r. Found routes r.name) routes
  All-Found [] = tt
  All-Found (r ∷ routes) = (
    (r, rw (eq_refl r.name)),
    All-map _ _ routes (λ q. Found-cons r routes q.name) (All-Found routes),
  )

  -- With distinct names, a route is found under its own.
  pub All-found_self :
      (routes : List (RouteConfig p))
      → IsUnique (map (λ r. r.name) routes)
      → All (λ r. find (named r.name) routes ≡ some r) routes
  All-found_self [] u = tt
  All-found_self (r ∷ routes) (fresh, u) =
      (rw (eq_refl r.name), later routes fresh (All-found_self routes u))
    where
      later :
          (rs : List (RouteConfig p))
          → All (λ name. r.name ≢ name) (map (λ q. q.name) rs)
          → All (λ q. find (named q.name) routes ≡ some q) rs
          → All (λ q. find (named q.name) (r ∷ routes) ≡ some q) rs
      later [] f h = tt
      later (q ∷ rs) f h = (ground (arith, eq_iff r.name q.name), later rs f.1 h.1)

  render_groups_total :
      (routes : List (RouteConfig p)) (groups : List (Group p.Value))
      → All (λ g. Found routes g.name) groups
      → (vhosts : List p.Value) × (render_groups p routes groups ≡ some vhosts)
  unfolding render_groups
  render_groups_total routes [] h = ([], refl)
  render_groups_total routes (g ∷ groups) ((r, e), h) =
      let (vhosts, rest) = render_groups_total routes groups h in
      (virtual_host p g.name r.hostnames g.entries ∷ vhosts, rw (e, render_groups, rest))

  -- The lookup of a group's first route by its name never fails, whatever the routes.
  pub build_virtual_hosts_total :
      (routes : List (RouteConfig p))
      → (vhosts : List p.Value) × (build_virtual_hosts p routes ≡ some vhosts)
  unfolding build_virtual_hosts group_routes
  build_virtual_hosts_total routes =
      render_groups_total routes _
        (group_routes_from-All (λ name key. Found routes name) p [] routes tt (All-Found routes))
