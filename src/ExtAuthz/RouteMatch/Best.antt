-- ===== src/ExtAuthz/RouteMatch/Best.antt =====
-- Which route `match_route` of controlplane/src/extauthz/helpers.rs picks.
use mathlib.Core.Logic.{◌∨₁◌}
use mathlib.Core.Logic.Or
use mathlib.Core.Bool.{and-eq-true_iff, or-eq-true_iff}
use text.Mathlib.TextEquality.{starts_with_iff}
use text.Mathlib.TextBridge.{IsPrefix}
use open_api_gateway.Prelude.{
  ℕ, String, ◌==◌, Bool, true, false, ◌&&◌, ◌||◌, any, Option, none, some, List, [], ◌∷◌, ◌++◌,
  filter, leb, All, Mem, ◌≡◌, refl, sym, subst, ap, ◌≤◌, ◌<◌, ◌⊎◌, inl, inr, ◌↔◌, arith, Bool-cases,
}
use open_api_gateway.Prelude.Text.{byte_len}
use open_api_gateway.Config.Types.{Platform, RouteConfig}
use open_api_gateway.Config.Validation.Checks.{contains}
use open_api_gateway.Config.Validation.Laws.{contains_iff}
use open_api_gateway.ExtAuthz.RouteMatch.{
  host_matches, path_matches, longest, max_by_prefix_len, match_route,
}

filter-filter {ℓ} :
    {A : Type ℓ} (f g : A → Bool) (xs : List A)
    → filter g (filter f xs) ≡ filter (λ x. f x && g x) xs
unfolding filter
filter-filter f g [] = refl
filter-filter f g (x ∷ xs) = ground (arith, filter-filter f g xs)

module _ {p : Platform} where
  abbrev pub prefix_len : RouteConfig p → ℕ
  prefix_len r = byte_len r.path_prefix

  -- The route lists the host or the wildcard, and its prefix is one of the path.
  abbrev pub Serves : String → String → RouteConfig p → Type 0
  Serves host path r = (Mem "*" r.hostnames ∨₁ Mem host r.hostnames) × IsPrefix r.path_prefix path

  -- `r` stands among the routes and has the property, and of all that have it none has a longer
  -- prefix, nor one of the same length further down.
  pub record IsBest (P : RouteConfig p → Type 0) (routes : List (RouteConfig p)) (r : RouteConfig p)
      : Type 0 where
    pub before : List (RouteConfig p)
    pub after : List (RouteConfig p)
    pub split : routes ≡ before ++ r ∷ after
    pub serves : P r
    pub not_longer : All (λ q. P q → prefix_len q ≤ prefix_len r) before
    pub shorter : All (λ q. P q → prefix_len q < prefix_len r) after

  IsBest-cons :
      (P : RouteConfig p → Type 0) (q : RouteConfig p) (routes : List (RouteConfig p))
      (r : RouteConfig p)
      → IsBest P routes r
      → (P q → prefix_len q ≤ prefix_len r)
      → IsBest P (q ∷ routes) r
  IsBest-cons P q routes r b h = record {
    before = q ∷ b.before;
    after = b.after;
    split = ap (◌∷◌ q) b.split;
    serves = b.serves;
    not_longer = (h, b.not_longer);
    shorter = b.shorter;
  }

  -- The best route of those with the property, or the absence of any.
  abbrev pub Picks :
      (RouteConfig p → Type 0) → List (RouteConfig p) → Option (RouteConfig p) → Type 0
  Picks P routes none = All (λ q. ¬ P q) routes
  Picks P routes (some r) = IsBest P routes r

  Picks-skip :
      (P : RouteConfig p → Type 0) (q : RouteConfig p) (routes : List (RouteConfig p))
      (o : Option (RouteConfig p))
      → ¬ P q
      → Picks P routes o
      → Picks P (q ∷ routes) o
  Picks-skip P q routes none h k = (h, k)
  Picks-skip P q routes (some r) h k = IsBest-cons P q routes r k (λ x. absurd (h x))

  module _ (m : RouteConfig p → Bool) (P : RouteConfig p → Type 0)
      (decides : (q : RouteConfig p) → (m q ≡ true) ↔ P q) where
    not_P : (q : RouteConfig p) → m q ≡ false → ¬ P q
    not_P q e h = let t = (decides q).1 h in (cc)

    abbrev Longest : RouteConfig p → List (RouteConfig p) → RouteConfig p → Type 0
    Longest best routes r =
        ((r ≡ best) × All (λ q. P q → prefix_len q < prefix_len best) routes)
        ⊎ (IsBest P routes r × (prefix_len best ≤ prefix_len r))

    -- A route that replaces the best so far is the best itself, unless a later one is.
    head-IsBest :
        (q : RouteConfig p) (routes : List (RouteConfig p)) (r : RouteConfig p)
        → P q
        → Longest q routes r
        → IsBest P (q ∷ routes) r × (prefix_len q ≤ prefix_len r)
    head-IsBest q routes r h (inl (e, rest)) = (
      record {
        before = [];
        after = routes;
        split = ap (λ x. x ∷ routes) (sym e);
        serves = subst P (sym e) h;
        not_longer = tt;
        shorter = rw e rest;
      },
      rw e (omega arith),
    )
    head-IsBest q routes r h (inr (b, le)) = (IsBest-cons P q routes r b (λ _. le), le)

    skip-Longest :
        (best q : RouteConfig p) (routes : List (RouteConfig p)) (r : RouteConfig p)
        → (P q → prefix_len q < prefix_len best)
        → Longest best routes r
        → Longest best (q ∷ routes) r
    skip-Longest best q routes r h (inl (e, rest)) = inl (e, (h, rest))
    skip-Longest best q routes r h (inr (b, le)) =
        inr (IsBest-cons P q routes r b (λ x. let lt = h x in omega arith), le)

    longest-Longest :
        (best : RouteConfig p) (routes : List (RouteConfig p))
        → Longest best routes (longest best (filter m routes))
    unfolding longest filter
    longest-Longest best [] = inl (refl, tt)
    longest-Longest best (q ∷ routes) = elim (Bool-cases (m q)) [
      | inr e ↦
          rw e
            (skip-Longest best q routes _ (λ h. absurd (not_P q e h)) (longest-Longest best routes))
      | inl e ↦ elim (Bool-cases (leb (prefix_len best) (prefix_len q))) [
        | inl longer ↦
            let (b, le) = head-IsBest q routes _ ((decides q).0 e) (longest-Longest q routes) in
            rw (e, filter, longest, longer) (inr (b, ground arith))
        | inr kept ↦
            rw (e, filter, longest, kept)
              (skip-Longest best q routes _ (λ _. ground arith) (longest-Longest best routes))
      ]
    ]

    max_by_prefix_len-Picks :
        (routes : List (RouteConfig p)) → Picks P routes (max_by_prefix_len (filter m routes))
    unfolding max_by_prefix_len filter
    max_by_prefix_len-Picks [] = tt
    max_by_prefix_len-Picks (q ∷ routes) = elim (Bool-cases (m q)) [
      | inr e ↦ rw e (Picks-skip P q routes _ (not_P q e) (max_by_prefix_len-Picks routes))
      | inl e ↦ rw e (head-IsBest q routes _ ((decides q).0 e) (longest-Longest q routes)).0
    ]

any-or {ℓ} :
    {A : Type ℓ} (f g : A → Bool) (xs : List A) → any (λ x. f x || g x) xs ≡ any f xs || any g xs
any-or f g [] = refl
any-or f g (x ∷ xs) = ground (arith, any-or f g xs)

listed_iff :
    (host : String) (names : List String)
    → (any (λ h. h == "*" || h == host) names ≡ true) ↔ (Mem "*" names ∨₁ Mem host names)
listed_iff host names =
    let wildcard = contains_iff names "*" in
    let named = contains_iff names host in
    let either = or-eq-true_iff (contains names "*") (contains names host) in
    rw (any-or (λ n. n == "*") (λ n. n == host) names)
      (λ h. Or.imp wildcard.0 named.0 (either.0 h), λ m. either.1 (Or.imp wildcard.1 named.1 m))

module _ {p : Platform} where
  pub Serves-iff :
      (host path : String) (r : RouteConfig p)
      → (host_matches host r && path_matches path r ≡ true) ↔ Serves host path r
  unfolding host_matches path_matches
  Serves-iff host path r =
      let both = and-eq-true_iff (host_matches host r) (path_matches path r) in
      let listed = listed_iff host r.hostnames in
      let begins = starts_with_iff path r.path_prefix in
      (
        λ h. let (l, b) = both.0 h in (listed.0 l, begins.0 b),
        λ s. both.1 (listed.1 s.0, begins.1 s.1),
      )

  -- A route that `match_route` gives lists the host or the wildcard and has a prefix of the path; no
  -- such route has a longer prefix, and none further down one of the same length. Where it gives none,
  -- no route is such.
  pub match_route-Picks :
      (routes : List (RouteConfig p)) (host path : String)
      → Picks (Serves host path) routes (match_route routes host path)
  unfolding match_route
  match_route-Picks routes host path =
      rw (filter-filter (host_matches host) (path_matches path) routes)
        (max_by_prefix_len-Picks _ _ (Serves-iff host path) routes)
