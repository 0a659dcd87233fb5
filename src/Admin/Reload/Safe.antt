-- ===== src/Admin/Reload/Safe.antt =====
-- What a reload keeps and what it reports.
use open_api_gateway.Prelude.{
  ℕ, ◌<>◌, String, Option, none, some, List, [], ◌∷◌, ◌≡◌, refl, sym, ap, subst,
}
use open_api_gateway.Prelude.Result.{Result, ok, err}
use open_api_gateway.Config.Types.{Platform, GatewayConfig}
use open_api_gateway.Config.Errors.{ConfigErrors, errors_text}
use open_api_gateway.Config.Validity.{IsValid}
use open_api_gateway.Config.Loader.{Files, load_config_from_str, load_config_from_str-IsValid}
use open_api_gateway.Auth.Types.{Jwt}
use open_api_gateway.Plugins.Lua.{Lua, PluginEngine, PluginError, error_text}
use open_api_gateway.Plugins.Engine.{reload_from_config}
use open_api_gateway.Xds.Resources.{ResourceError, resource_error_text}
use open_api_gateway.Xds.Builders.{Prost}
use open_api_gateway.Xds.Server.{XdsControlPlane, Sent, rebuild_from_config}
use open_api_gateway.Admin.{Bytes, ReloadResponse, reloaded, refused, as_str, config_status}
use open_api_gateway.Admin.Reload.{
  Reading, State, Reply, reload_validation_error, install_config, after_xds, reload_xds,
  after_plugins, reload_plugins, apply_config_reload, apply_loaded, reload_read, config_reload,
}

module _ {p : Platform} (j : Jwt) (l : Lua p) (q : Prost) (b : Bytes) (files : Files p) where
  -- What the status endpoint says after the reload, and what the reload has kept if it was refused.
  pub record IsRefused (old : State j l q b files) (r : Reply j l q b files) (message : String)
      (now : ℕ) : Type 0 where
    pub config : r.state.config_state.config ≡ old.config_state.config
    pub checksum : (config_status r.state).active_config_sha256 ≡ old.config_state.sha256
    pub result : (config_status r.state).last_reload_result ≡ "validation_error"
    pub error : (config_status r.state).last_reload_error ≡ some message
    pub time : (config_status r.state).last_reload_unix ≡ now
    pub unwritten : r.written ≡ none

  pub record IsReloaded (old : State j l q b files) (r : Reply j l q b files)
      (previous new : String) (now : ℕ) : Type 0 where
    pub was : previous ≡ old.config_state.sha256
    pub valid : IsValid r.state.config_state.config
    pub checksum : (config_status r.state).active_config_sha256 ≡ new
    pub result : (config_status r.state).last_reload_result ≡ "success"
    pub error : (config_status r.state).last_reload_error ≡ none
    pub time : (config_status r.state).last_reload_unix ≡ now

  abbrev pub Reports : State j l q b files → Reply j l q b files → ReloadResponse → Type 0
  Reports old r (reloaded previous new now) = IsReloaded old r previous new now
  Reports old r (refused message now) = IsRefused old r message now

  reload_validation_error-Reports :
      (old state : State j l q b files) (sent : Sent q) (now : ℕ) (message : String)
      → state.config_state ≡ old.config_state
      → let r = reload_validation_error j l q b files state sent now message in
        Reports old r r.response
  unfolding reload_validation_error config_status as_str
  reload_validation_error-Reports old state sent now message e = record {
    config = ap (λ c. c.config) e;
    checksum = ap (λ c. c.sha256) e;
    result = refl;
    error = refl;
    time = refl;
    unwritten = refl;
  }

  install_config-Reports :
      (old state : State j l q b files) (sent : Sent q) (now : ℕ) (raw : b.Raw)
      (config : GatewayConfig p)
      → state.config_state ≡ old.config_state
      → IsValid config
      → let r = install_config j l q b files state sent now raw config in Reports old r r.response
  unfolding install_config config_status as_str
  install_config-Reports old state sent now raw config e v = record {
    was = ap (λ c. c.sha256) e;
    valid = v;
    checksum = refl;
    result = refl;
    error = refl;
    time = refl;
  }

  after_xds-Reports :
      (old state : State j l q b files) (now : ℕ) (raw : b.Raw) (config : GatewayConfig p)
      (x : XdsControlPlane q.Any × Sent q × Result ResourceError (Unit {0}))
      → state.config_state ≡ old.config_state
      → IsValid config
      → let r = after_xds j l q b files state now raw config x in Reports old r r.response
  unfolding after_xds
  after_xds-Reports old state now raw config (xds, sent, err e) same v =
      reload_validation_error-Reports old (record state { xds = some xds }) sent now
        (resource_error_text e) same
  after_xds-Reports old state now raw config (xds, sent, ok _) same v =
      install_config-Reports old (record state { xds = some xds }) sent now raw config same v

  reload_xds-Reports :
      (takes : ℕ → ℕ) (old state : State j l q b files) (now : ℕ) (raw : b.Raw)
      (config : GatewayConfig p) (x : Option (XdsControlPlane q.Any))
      → state.config_state ≡ old.config_state
      → IsValid config
      → let r = reload_xds j l q b files takes state now raw config x in Reports old r r.response
  unfolding reload_xds
  reload_xds-Reports takes old state now raw config none same v =
      install_config-Reports old state [] now raw config same v
  reload_xds-Reports takes old state now raw config (some x) same v =
      after_xds-Reports old state now raw config (rebuild_from_config q takes x config) same v

  after_plugins-Reports :
      (takes : ℕ → ℕ) (old : State j l q b files) (now : ℕ) (raw : b.Raw) (config : GatewayConfig p)
      (x : PluginEngine l × Result PluginError (Unit {0}))
      → IsValid config
      → let r = after_plugins j l q b files takes old now raw config x in Reports old r r.response
  unfolding after_plugins
  after_plugins-Reports takes old now raw config (engine, err e) v =
      reload_validation_error-Reports old (record old { plugin_engine = some engine }) [] now
        (error_text e) refl
  after_plugins-Reports takes old now raw config (engine, ok _) v =
      reload_xds-Reports takes old (record old { plugin_engine = some engine }) now raw config
        old.xds refl v

  apply_config_reload-Reports :
      (takes : ℕ → ℕ) (old : State j l q b files) (now : ℕ) (raw : b.Raw) (config : GatewayConfig p)
      → IsValid config
      → let r = apply_config_reload j l q b files takes old now raw config in
        Reports old r r.response
  unfolding apply_config_reload reload_plugins
  apply_config_reload-Reports takes old now raw config v = by_engine old.plugin_engine
    where
      by_engine :
          (x : Option (PluginEngine l))
          → let r = reload_plugins j l q b files takes old now raw config x in
            Reports old r r.response
      by_engine none = reload_xds-Reports takes old old now raw config old.xds refl v
      by_engine (some engine) =
          after_plugins-Reports takes old now raw config (reload_from_config l engine config) v

  apply_loaded-Reports :
      (takes : ℕ → ℕ) (old : State j l q b files) (now : ℕ) (raw : b.Raw)
      (x : Result ConfigErrors (GatewayConfig p))
      → ((config : GatewayConfig p) → x ≡ ok config → IsValid config)
      → let r = apply_loaded j l q b files takes old now raw x in Reports old r r.response
  unfolding apply_loaded
  apply_loaded-Reports takes old now raw (ok config) v =
      apply_config_reload-Reports takes old now raw config (v config refl)
  apply_loaded-Reports takes old now raw (err e) v =
      reload_validation_error-Reports old old [] now (errors_text e) refl

  pub config_reload-Reports :
      (reading : Reading b) (old : State j l q b files)
      → let r = config_reload j l q b files reading old in Reports old r r.response
  unfolding config_reload reload_read
  config_reload-Reports reading old = by_contents reading.contents
    where
      by_contents :
          (x : Result String b.Raw)
          → let r = reload_read j l q b files reading.takes old reading.now x in
            Reports old r r.response
      by_contents (err e) =
          reload_validation_error-Reports old old [] reading.now
            ("failed to read " <> (old.config_path <> (": " <> e))) refl
      by_contents (ok raw) =
          apply_loaded-Reports reading.takes old reading.now raw
            (load_config_from_str files (b.from_utf8_lossy raw))
            (λ config h.
              ((load_config_from_str-IsValid files (b.from_utf8_lossy raw) config).0 h).1)

  -- Reloads one after the other.
  pub reload_all : List (Reading b) → State j l q b files → State j l q b files
  reload_all [] state = state
  reload_all (reading ∷ readings) state =
      reload_all readings (config_reload j l q b files reading state).state

  Reports-IsValid :
      (old : State j l q b files) (r : Reply j l q b files) (x : ReloadResponse)
      → IsValid old.config_state.config
      → Reports old r x
      → IsValid r.state.config_state.config
  Reports-IsValid old r (reloaded previous new now) v h = h.valid
  Reports-IsValid old r (refused message now) v h = subst IsValid (sym h.config) v

  -- The configuration in force is valid after any reloads, one after another and of whatever files, if
  -- it was before.
  pub reload_all-IsValid :
      (readings : List (Reading b)) (state : State j l q b files)
      → IsValid state.config_state.config
      → IsValid (reload_all readings state).config_state.config
  unfolding reload_all
  reload_all-IsValid [] state v = v
  reload_all-IsValid (reading ∷ readings) state v =
      let r = config_reload j l q b files reading state in
      reload_all-IsValid readings r.state
        (Reports-IsValid state r r.response v (config_reload-Reports reading state))
