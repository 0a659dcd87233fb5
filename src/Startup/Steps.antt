-- ===== src/Startup/Steps.antt =====
-- That each step of startup gives its result.
use open_api_gateway.Prelude.{
  ℕ, String, Bool, true, false, Option, none, some, List, [], ◌∷◌, ◌≡◌, ◌≢◌, refl, sym, ◌∙◌, All,
  Bool-cases, inl, inr,
}
use open_api_gateway.Prelude.Result.{Result, ok, err, ◌>>=◌, IsOk, bind_IsOk}
use open_api_gateway.Config.Types.{Platform, GatewayConfig, AuthProvider}
use open_api_gateway.Config.Validity.{IsValid}
use open_api_gateway.Config.Validation.Exact.{validate-IsValid}
use open_api_gateway.Envoy.{generated, failed, finish, assemble_root}
use open_api_gateway.Envoy.Valid.{generate_envoy_config_valid}
use open_api_gateway.Envoy.Endpoint.{serialization}
use open_api_gateway.Auth.Error.{AuthError}
use open_api_gateway.Auth.Types.{Jwt, JwksKey}
use open_api_gateway.Auth.Validator.{map_err}
use open_api_gateway.Auth.Cache.{JwksCache, fetch_error, store, parse_jwks_keys, fetch_and_store}
use open_api_gateway.Auth.Registry.{Fetched, empty_cache, new_cache, insert, insert_all}
use open_api_gateway.Xds.Builders.{Prost, Message, build}
use open_api_gateway.Xds.Builders.Valid.{build-IsOk}
use open_api_gateway.Xds.Server.{new_plane}
use open_api_gateway.Admin.{Bytes}
use open_api_gateway.Startup.Ready.{is_some}
use open_api_gateway.Startup.{
  Outside, write_envoy_config, init_xds, bind_server, parse_socket_addr, serve_extauthz, serve_xds,
  serve_ext_proc,
}

pub map_err-IsOk {ℓ κ μ} :
    {E : Type ℓ} {F : Type μ} {A : Type κ} (f : E → F) (r : Result E A)
    → IsOk r
    → IsOk (map_err f r)
map_err-IsOk f (ok a) h = tt
map_err-IsOk f (err e) h = h

store-IsOk :
    {j : Jwt} (now : ℕ) (keys : Result AuthError (List (JwksKey j))) (old : JwksCache j)
    → IsOk keys
    → (let (next, stored) = store j now keys old in
        IsOk {A = JwksCache j} (stored >>= λ _. ok next))
unfolding store
store-IsOk now (ok keys) old h = tt
store-IsOk now (err e) old h = h

-- The provider answers a document whose keys can be read.
abbrev pub Answers : Jwt → Fetched → Type 0
Answers j fetched = IsOk (map_err fetch_error fetched.reply >>= parse_jwks_keys j)

pub insert_all-IsOk :
    {j : Jwt} (fetch : AuthProvider → Fetched) (providers : List AuthProvider)
    (caches : List (JwksCache j))
    → All (λ provider. Answers j (fetch provider)) providers
    → IsOk (insert_all j fetch providers caches)
unfolding insert_all new_cache fetch_and_store
insert_all-IsOk fetch [] caches h = tt
insert_all-IsOk {j} fetch (provider ∷ providers) caches (h, hs) =
    bind_IsOk (new_cache j (fetch provider) provider) _
      (store-IsOk (fetch provider).at _ (empty_cache j (fetch provider).at provider) h)
      λ cache. insert_all-IsOk fetch providers (insert j cache caches) hs

finish_generates :
    (p : Platform) (value : p.Value)
    → p.to_yaml value ≢ none
    → (text : String) × (finish p value ≡ generated text)
unfolding finish
finish_generates p value total = by_text (p.to_yaml value) total
  where
    by_text :
        (x : Option String)
        → x ≢ none
        → (text : String) × ((elim x [ none ↦ failed serialization | some text ↦ generated text ])
            ≡ generated text)
    by_text none ne = absurd (ne refl)
    by_text (some text) ne = (text, refl)

module _ {p : Platform} {b : Bytes} (o : Outside p b) where
  pub write_envoy_config-IsOk :
      (config : GatewayConfig p) (path : Option String)
      → IsValid config
      → ((value : p.Value) → p.to_yaml value ≢ none)
      → ((path text : String) → IsOk (o.write path text))
      → IsOk (write_envoy_config o config path)
  unfolding write_envoy_config
  write_envoy_config-IsOk config none valid yaml writes = tt
  write_envoy_config-IsOk config (some path) valid yaml writes =
      let made = generate_envoy_config_valid p config ((validate-IsValid config).1 valid) in
      let (text, e) = finish_generates p (assemble_root p made.0 made.2) (yaml _) in
      rw (write_envoy_config, made.6 ∙ e)
        (bind_IsOk (map_err _ (o.write path text)) _
          (map_err-IsOk _ (o.write path text) (writes path text)) (λ _. tt))

  pub serve_extauthz-IsOk :
      (addr : Option String)
      → ((a : String) → addr ≡ some a → IsOk (o.bind a))
      → IsOk (serve_extauthz o addr)
  unfolding serve_extauthz bind_server
  serve_extauthz-IsOk none h = tt
  serve_extauthz-IsOk (some addr) h =
      bind_IsOk (map_err _ (o.bind addr)) _ (map_err-IsOk _ (o.bind addr) (h addr refl)) (λ _. tt)

  parse_socket_addr-IsOk :
      (addr label : String) → IsOk (o.parse_addr addr) → IsOk (parse_socket_addr o addr label)
  unfolding parse_socket_addr
  parse_socket_addr-IsOk addr label h = map_err-IsOk _ (o.parse_addr addr) h

  pub serve_ext_proc-IsOk :
      (enabled : Bool) (addr : String)
      → (enabled ≡ true → IsOk (o.parse_addr addr))
      → IsOk (serve_ext_proc o enabled addr)
  unfolding serve_ext_proc
  serve_ext_proc-IsOk false addr h = tt
  serve_ext_proc-IsOk true addr h =
      bind_IsOk (parse_socket_addr o addr "ext_proc") _
        (parse_socket_addr-IsOk addr "ext_proc" (h refl)) (λ _. tt)

  pub serve_xds-IsOk :
      {A : Type 0} (plane : Option A) (enabled : Bool) (addr : String)
      → is_some plane ≡ enabled
      → (enabled ≡ true → IsOk (o.parse_addr addr))
      → IsOk (serve_xds o plane addr)
  unfolding serve_xds
  serve_xds-IsOk none enabled addr same h = tt
  serve_xds-IsOk (some plane) enabled addr same h =
      bind_IsOk (parse_socket_addr o addr "xDS") _
        (parse_socket_addr-IsOk addr "xDS" (h (sym same))) (λ _. tt)

pub init_xds-IsOk :
    {p : Platform} (q : Prost) (config : GatewayConfig p)
    → ((url : String) (message : Message q.Any) → IsOk (q.encode_as url message))
    → IsValid config
    → IsOk (init_xds q config)
unfolding init_xds new_plane
init_xds-IsOk q config encodes valid = elim (Bool-cases config.xds.enabled) [
  | inl on ↦ rw on (
      bind_IsOk (map_err _ (new_plane q config)) _
        (map_err-IsOk _ (new_plane q config)
          (bind_IsOk (build q config 1) _ (build-IsOk q encodes config 1 valid) (λ _. tt)))
        (λ _. tt))
  | inr off ↦ rw off tt
]
