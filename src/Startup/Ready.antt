-- ===== src/Startup/Ready.antt =====
-- What holds when startup has come to serve.
use open_api_gateway.Prelude.{
  String, Bool, true, false, Option, none, some, List, [], ◌∷◌, ◌++◌, ◌≡◌, refl, sym, ap, ◌∙◌,
  subst, All, Bool-cases, inl, inr, if◌then◌else◌,
}
use open_api_gateway.Prelude.Result.{Result, ok, err, bind_ok, ok_inj}
use open_api_gateway.Config.Types.{Platform, GatewayConfig}
use open_api_gateway.Config.Validity.{IsValid}
use open_api_gateway.Config.Loader.{Files, load_config_from_str, load_config_from_str-IsValid}
use open_api_gateway.Auth.Types.{Jwt}
use open_api_gateway.Auth.Validator.{map_err}
use open_api_gateway.Auth.Registry.{HasCache, registry_from_config, registry_from_config-HasCache}
use open_api_gateway.Plugins.Lua.{Lua}
use open_api_gateway.Xds.Builders.{Prost}
use open_api_gateway.Xds.Server.{XdsControlPlane, new_plane}
use open_api_gateway.Admin.{AppState, Bytes, build_state}
use open_api_gateway.Admin.Reload.{Reading}
use open_api_gateway.Admin.Reload.Safe.{reload_all, reload_all-IsValid}
use open_api_gateway.Startup.{
  Fatal, Server, admin, extauthz, ads, ext_proc, Outside, config_path_of, Started, init_jwks,
  init_metrics, init_plugins, init_rate_limiter, write_envoy_config, init_xds, bind_server,
  parse_socket_addr, serve_extauthz, serve_xds, serve_ext_proc, serve, run_with, run,
}

map_err-ok {ℓ κ} :
    {E : Type ℓ} {A : Type κ} (f : E → Fatal) (r : Result E A) (a : A)
    → map_err f r ≡ ok a
    → r ≡ ok a
map_err-ok f (ok x) a h = ap ok (ok_inj {E = Fatal} x a h)
map_err-ok f (err e) a h = absurd (cc)

abbrev extauthz_of : Option String → List Server
extauthz_of none = []
extauthz_of (some addr) = extauthz addr ∷ []

abbrev one_of : Bool → Server → List Server
one_of enabled server = if enabled then server ∷ [] else []

-- The servers that the configuration asks for, in their order.
abbrev pub servers_of : {p : Platform} → GatewayConfig p → List Server
servers_of config =
    (admin config.gateway.admin_address ∷ [])
    ++ extauthz_of config.gateway.extauthz_address
    ++ one_of config.xds.enabled (ads config.xds.listen_address)
    ++ one_of config.ext_proc.enabled (ext_proc config.ext_proc.listen_address)

append_all :
    {a b c d a' b' c' d' : List Server}
    → a ≡ a'
    → b ≡ b'
    → c ≡ c'
    → d ≡ d'
    → a ++ b ++ c ++ d ≡ a' ++ b' ++ c' ++ d'
append_all e f g h = rw (e, f, g, h) refl

abbrev pub is_some {ℓ} : {A : Type ℓ} → Option A → Bool
is_some none = false
is_some (some a) = true

pub init_xds-enabled :
    {p : Platform} (q : Prost) (config : GatewayConfig p) (plane : Option (XdsControlPlane q.Any))
    → init_xds q config ≡ ok plane
    → is_some plane ≡ config.xds.enabled
unfolding init_xds
init_xds-enabled q config plane h = elim (Bool-cases config.xds.enabled) [
  | inl on ↦
      let (made, _, e) = bind_ok (map_err _ (new_plane q config)) _ plane (rw on at h) in
      rw (on, sym (ok_inj {E = Fatal} (some made) plane e)) refl
  | inr off ↦ rw (off, sym (ok_inj {E = Fatal} none plane (rw off at h))) refl
]

module _ {p : Platform} {b : Bytes} where
  serve_extauthz-one :
      (o : Outside p b) (addr : Option String) (servers : List Server)
      → serve_extauthz o addr ≡ ok servers
      → servers ≡ extauthz_of addr
  unfolding serve_extauthz bind_server
  serve_extauthz-one o none servers h = sym (ok_inj {E = Fatal} [] servers h)
  serve_extauthz-one o (some addr) servers h =
      let (_, _, e) = bind_ok (map_err _ (o.bind addr)) _ servers h in
      sym (ok_inj {E = Fatal} (extauthz addr ∷ []) servers e)

  serve_xds-one :
      {A : Type 0} (o : Outside p b) (plane : Option A) (addr : String) (servers : List Server)
      → serve_xds o plane addr ≡ ok servers
      → servers ≡ one_of (is_some plane) (ads addr)
  unfolding serve_xds parse_socket_addr
  serve_xds-one o none addr servers h = sym (ok_inj {E = Fatal} [] servers h)
  serve_xds-one o (some plane) addr servers h =
      let (_, _, e) = bind_ok (map_err _ (o.parse_addr addr)) _ servers h in
      sym (ok_inj {E = Fatal} (ads addr ∷ []) servers e)

  serve_ext_proc-one :
      (o : Outside p b) (enabled : Bool) (addr : String) (servers : List Server)
      → serve_ext_proc o enabled addr ≡ ok servers
      → servers ≡ one_of enabled (ext_proc addr)
  unfolding serve_ext_proc parse_socket_addr
  serve_ext_proc-one o false addr servers h = sym (ok_inj {E = Fatal} [] servers h)
  serve_ext_proc-one o true addr servers h =
      let (_, _, e) = bind_ok (map_err _ (o.parse_addr addr)) _ servers h in
      sym (ok_inj {E = Fatal} (ext_proc addr ∷ []) servers e)

module _ {p : Platform} (j : Jwt) (l : Lua p) (q : Prost) (b : Bytes) (files : Files p) where
  -- A process that serves, with the bytes of its file and its configuration.
  pub record IsReady (o : Outside p b) (s : Started j l q b files) (raw : b.Raw)
      (config : GatewayConfig p) : Type 0 where
    pub read : o.read (config_path_of o.gateway_config) ≡ ok raw
    pub parsed : files.from_str (b.from_utf8_lossy raw) ≡ ok config
    pub in_force : s.state.config_state.config ≡ config
    pub caches : All (HasCache o.fetch s.state.jwks_registry) config.auth.providers
    pub servers : s.servers ≡ servers_of config
    pub kept :
        (readings : List (Reading b))
        → IsValid (reload_all j l q b files readings s.state).config_state.config

  serve-servers_of :
      (o : Outside p b) (state : AppState j l q) (servers : List Server)
      → is_some state.xds ≡ state.config_state.config.xds.enabled
      → serve j l q b files o state ≡ ok servers
      → servers ≡ servers_of state.config_state.config
  unfolding serve bind_server
  serve-servers_of o state servers on h =
      let config = state.config_state.config in
      let (first, bound, h1) =
        bind_ok
          (bind_server o "admin API" (admin config.gateway.admin_address)
            config.gateway.admin_address)
          _ servers h in
      let (_, _, one) = bind_ok (map_err _ (o.bind config.gateway.admin_address)) _ first bound in
      let (second, e2, h2) =
        bind_ok (serve_extauthz o config.gateway.extauthz_address) _ servers h1 in
      let (third, e3, h3) =
        bind_ok (serve_xds o state.xds config.xds.listen_address) _ servers h2 in
      let (fourth, e4, h4) =
        bind_ok (serve_ext_proc o config.ext_proc.enabled config.ext_proc.listen_address) _ servers
          h3 in
      let s1 = ok_inj {E = Fatal} _ first one in
      let s2 = serve_extauthz-one o config.gateway.extauthz_address second e2 in
      let s3 = serve_xds-one o state.xds config.xds.listen_address third e3 in
      let s4 =
        serve_ext_proc-one o config.ext_proc.enabled config.ext_proc.listen_address fourth e4 in
      let all = ok_inj {E = Fatal} _ servers h4 in
      sym all
      ∙ append_all (sym s1) s2 (s3 ∙ ap (λ x. one_of x (ads config.xds.listen_address)) on) s4

  run_with-IsReady :
      (o : Outside p b) (raw : b.Raw) (config : GatewayConfig p) (s : Started j l q b files)
      → o.read (config_path_of o.gateway_config) ≡ ok raw
      → (files.from_str (b.from_utf8_lossy raw) ≡ ok config) × IsValid config
      → run_with j l q b files o raw config ≡ ok s
      → IsReady o s raw config
  unfolding run_with build_state init_jwks
  run_with-IsReady o raw config s read (parsed, valid) h =
      let (_, _, h1) = bind_ok (map_err _ (o.init_tracing config.observability.tracing)) _ s h in
      let (_, _, h2) = bind_ok (write_envoy_config o config o.envoy_config_path) _ s h1 in
      let (jwks, made, h3) = bind_ok (init_jwks o j config.auth) _ s h2 in
      let (_, _, h4) = bind_ok (init_metrics o) _ s h3 in
      let (engine, _, h5) = bind_ok (init_plugins l config) _ s h4 in
      let (xds, plane, h6) = bind_ok (init_xds q config) _ s h5 in
      let state =
        build_state j l q b config raw (config_path_of o.gateway_config) o.envoy_config_path jwks
          (init_rate_limiter o config.rate_limits) engine xds o.now in
      let (servers, up, h7) = bind_ok (serve j l q b files o state) _ s h6 in
      let e = ok_inj {E = Fatal} _ s h7 in
      let registry = map_err-ok _ (registry_from_config j o.fetch config.auth) jwks made in
      subst (λ s. IsReady o s raw config) e
        record {
          read = read;
          parsed = parsed;
          in_force = refl;
          caches =
              registry_from_config-HasCache o.fetch config.auth jwks valid.providers_unique
                registry;
          servers = serve-servers_of o state servers (init_xds-enabled q config xds plane) up;
          kept = λ readings. reload_all-IsValid j l q b files readings state valid;
        }

  -- A process that comes to serve has read and parsed its file, has a cache with the fetched keys
  -- of each provider, has started exactly the servers that its configuration asks for, and its
  -- configuration is valid, also after any reloads, one after another.
  pub run-IsReady :
      (o : Outside p b) (s : Started j l q b files)
      → run j l q b files o ≡ ok s
      → (raw : b.Raw) × (config : GatewayConfig p) × IsReady o s raw config
  unfolding run
  run-IsReady o s h =
      let (raw, read, h1) = bind_ok (map_err _ (o.read (config_path_of o.gateway_config))) _ s h in
      let text = b.from_utf8_lossy raw in
      let (config, loaded, h2) = bind_ok (map_err _ (load_config_from_str files text)) _ s h1 in
      let valid =
        (load_config_from_str-IsValid files text config).0
          (map_err-ok _ (load_config_from_str files text) config loaded) in
      (raw, config, run_with-IsReady o raw config s (map_err-ok _ (o.read _) raw read) valid h2)
