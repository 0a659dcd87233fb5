-- ===== src/Plugins/Registry/Chains.antt =====
-- Which plugins are in the chain of a route.
use mathlib.Core.List.{Perm, map-append}
use mathlib.Core.List.Perm
use open_api_gateway.Prelude.{
  ℕ, String, ◌<>◌, ◌==◌, Bool, true, some, Option-cases, List, [], ◌∷◌, ◌++◌, map, filter, All, ◌≡◌,
  ◌≢◌, refl, ap, sym, subst, ◌∙◌, Bool-cases, inl, inr,
}
use open_api_gateway.Prelude.Result.{ok, ◌>>=◌, bind_ok, ok_inj}
use open_api_gateway.Prelude.Maps.{put, lookup, lookup-put, lookup-put_other}
use open_api_gateway.Config.Types.{Platform, PluginInstance, RouteConfig, GatewayConfig}
use open_api_gateway.Config.Validity.{IsUnique}
use open_api_gateway.Plugins.Lua.{Lua, PluginBinding, PluginChain, PluginRuntime, PluginError}
use open_api_gateway.Plugins.Registry.{
  Registry, validate_schema, binding_of, bind_plugin, bind_all, push_bindings, route_chain,
  route_chains, sort_bindings, is_enabled, build_runtime, discover_plugins, runtime_with,
}
use open_api_gateway.Plugins.Registry.Sorted.{IsSorted, sort_bindings-IsSorted, sort_bindings-perm}

module _ {p : Platform} (l : Lua p) where
  -- What a binding takes from the configuration: its identifier and whether it fails open.
  abbrev pub key_of : PluginBinding l → String × Bool
  key_of b = (b.id, b.fail_open)

  abbrev pub configured_key : String → PluginInstance p → String × Bool
  configured_key route_name c = (route_name <> (":" <> c.name), c.fail_mode == "open")

  bind_plugin-key :
      (registry : Registry l) (route_name : String) (c : PluginInstance p) (b : PluginBinding l)
      → bind_plugin l registry route_name c ≡ ok b
      → key_of b ≡ configured_key route_name c
  unfolding bind_plugin binding_of
  bind_plugin-key registry route_name c b h = elim (Option-cases (lookup c.name registry)) [
    | inl e ↦ absurd (let bad = rw (e, bind_plugin) at h in cc)
    | inr (meta, e) ↦
        let bound = rw (e, bind_plugin) at h in
        let (u, valid, made) =
          bind_ok (validate_schema l meta c) (λ _. ok (binding_of l route_name c meta)) b bound in
        ap key_of (sym (ok_inj {E = PluginError} (binding_of l route_name c meta) b made))
  ]

  bind_all-keys :
      (registry : Registry l) (route_name : String) (cs : List (PluginInstance p))
      (bs : List (PluginBinding l))
      → bind_all l registry route_name cs ≡ ok bs
      → map key_of bs ≡ map (configured_key route_name) cs
  unfolding bind_all
  bind_all-keys registry route_name [] bs h =
      ap (map key_of) (sym (ok_inj {E = PluginError} [] bs h))
  bind_all-keys registry route_name (c ∷ cs) bs h =
      let (b, first, more) =
        bind_ok (bind_plugin l registry route_name c)
          (λ b. bind_all l registry route_name cs >>= λ rest. ok (b ∷ rest)) bs h in
      let (rest, later, made) =
        bind_ok (bind_all l registry route_name cs) (λ rest. ok (b ∷ rest)) bs more in
      rw
        (
          ← ok_inj {E = PluginError} (b ∷ rest) bs made,
          bind_plugin-key registry route_name c b first,
          bind_all-keys registry route_name cs rest later,
        )
        refl

  -- What the chain of a route is: its bindings in their order, one for each enabled plugin that is
  -- configured for all routes or for this one.
  pub record IsChainOf (global : List (PluginInstance p)) (r : RouteConfig p)
      (chain : PluginChain l) : Type 0 where
    pub sorted : IsSorted l chain.bindings
    pub members :
        Perm
          (map key_of chain.bindings)
          (map (configured_key r.name) (filter is_enabled global ++ filter is_enabled r.plugins))

  push_bindings-keys :
      (bindings : List (PluginBinding l)) (route_name : String) (cs : List (PluginInstance p))
      (registry : Registry l) (bs : List (PluginBinding l))
      → push_bindings l bindings route_name cs registry ≡ ok bs
      → map key_of bs
        ≡ map key_of bindings ++ map (configured_key route_name) (filter is_enabled cs)
  unfolding push_bindings
  push_bindings-keys bindings route_name cs registry bs h =
      let (pushed, bound, made) =
        bind_ok (bind_all l registry route_name (filter is_enabled cs))
          (λ pushed. ok (bindings ++ pushed)) bs h in
      rw
        (
          ← ok_inj {E = PluginError} (bindings ++ pushed) bs made,
          map-append key_of bindings pushed,
          bind_all-keys registry route_name (filter is_enabled cs) pushed bound,
        )
        refl

  route_chain-IsChainOf :
      (registry : Registry l) (global : List (PluginInstance p)) (r : RouteConfig p)
      (chain : PluginChain l)
      → route_chain l registry global r ≡ ok chain
      → IsChainOf global r chain
  unfolding route_chain
  route_chain-IsChainOf registry global r chain h =
      let (shared, first, more) =
        bind_ok (push_bindings l [] r.name global registry)
          (λ shared. push_bindings l shared r.name r.plugins registry >>= λ bs.
            ok record { bindings = sort_bindings l bs })
          chain h in
      let (bs, second, made) =
        bind_ok (push_bindings l shared r.name r.plugins registry)
          (λ bs. ok record { bindings = sort_bindings l bs }) chain more in
      let e : record { bindings = sort_bindings l bs } ≡ chain =
        ok_inj {E = PluginError} record { bindings = sort_bindings l bs } chain made in
      let keys : map key_of bs
          ≡ map (configured_key r.name) (filter is_enabled global ++ filter is_enabled r.plugins) =
        rw
          (
            map-append (configured_key r.name) (filter is_enabled global)
                (filter is_enabled r.plugins),
            push_bindings-keys shared r.name r.plugins registry bs second,
            push_bindings-keys [] r.name global registry shared first,
          )
          refl in
      subst (IsChainOf global r) e record {
        sorted = sort_bindings-IsSorted l bs;
        members =
            subst (λ ks. Perm (map key_of (sort_bindings l bs)) ks) keys
              (Perm.map key_of (sort_bindings-perm l bs));
      }

  abbrev HasChain : List (PluginInstance p) → List (String × PluginChain l) → RouteConfig p → Type 0
  HasChain global chains r =
      (chain : PluginChain l) × (lookup r.name chains ≡ some chain) × IsChainOf global r chain

  route_chains-other :
      (registry : Registry l) (global : List (PluginInstance p)) (routes : List (RouteConfig p))
      (chains all : List (String × PluginChain l)) (name : String)
      → All (λ n. name ≢ n) (map (λ r. r.name) routes)
      → route_chains l registry global routes chains ≡ ok all
      → lookup name all ≡ lookup name chains
  unfolding route_chains
  route_chains-other registry global [] chains all name u h =
      ap (lookup name) (sym (ok_inj {E = PluginError} chains all h))
  route_chains-other registry global (r ∷ routes) chains all name u h =
      let (chain, _, more) =
        bind_ok (route_chain l registry global r)
          (λ c. route_chains l registry global routes (put r.name c chains)) all h in
      route_chains-other registry global routes (put r.name chain chains) all name u.1 more
      ∙ lookup-put_other r.name name chain chains u.0

  route_chains-HasChain :
      (registry : Registry l) (global : List (PluginInstance p)) (routes : List (RouteConfig p))
      (chains all : List (String × PluginChain l))
      → IsUnique (map (λ r. r.name) routes)
      → route_chains l registry global routes chains ≡ ok all
      → All (HasChain global all) routes
  unfolding route_chains
  route_chains-HasChain registry global [] chains all u h = tt
  route_chains-HasChain registry global (r ∷ routes) chains all u h =
      let (chain, first, more) =
        bind_ok (route_chain l registry global r)
          (λ c. route_chains l registry global routes (put r.name c chains)) all h in
      (
        (
          chain,
          route_chains-other registry global routes (put r.name chain chains) all r.name u.0 more
              ∙ lookup-put r.name chain chains,
          route_chain-IsChainOf registry global r chain first,
        ),
        route_chains-HasChain registry global routes (put r.name chain chains) all u.1 more,
      )

  -- With plugins enabled and distinct route names, a runtime that is built has for each route a
  -- chain in which smaller priorities stand first and bindings of one priority in the order of their
  -- names, with one binding for each enabled plugin of the configuration that is global or the route's,
  -- under its identifier and failure mode, and no other.
  pub build_runtime-HasChain :
      (config : GatewayConfig p) (generation : ℕ) (rt : PluginRuntime l)
      → config.plugins.enabled ≡ true
      → IsUnique (map (λ r. r.name) config.routes)
      → build_runtime l config generation ≡ ok rt
      → All (HasChain config.plugins.global rt.chains) config.routes
  unfolding build_runtime
  build_runtime-HasChain config generation rt on u h =
      elim (Bool-cases (l.exists config.plugins.directory)) [
        | inl e ↦
            let built = rw (on, e) at h in
            let (registry, _, more) =
              bind_ok (discover_plugins l config.plugins.directory config.plugins.limits)
                (λ registry.
                  route_chains l registry config.plugins.global config.routes [] >>= λ chains.
                  ok (runtime_with l config generation chains))
                rt built in
            let (chains, made, same) =
              bind_ok (route_chains l registry config.plugins.global config.routes [])
                (λ chains. ok (runtime_with l config generation chains)) rt more in
            let eq = ok_inj {E = PluginError} (runtime_with l config generation chains) rt same in
            subst (λ q. All (HasChain config.plugins.global q.chains) config.routes) eq
              (route_chains-HasChain registry config.plugins.global config.routes [] chains u made)
        | inr e ↦ absurd (let bad = rw (on, e) at h in cc)
      ]
