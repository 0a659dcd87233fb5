-- ===== src/Admin/Reload.antt =====
-- `config_reload` of controlplane/src/admin/handlers.rs, with all it changes, where no other reload runs
-- at the same time.
pub mod Safe
pub mod Atomic
use open_api_gateway.Prelude.{ℕ, ◌<>◌, String, Bool, Option, none, some, List, [], ◌∷◌}
use open_api_gateway.Prelude.Result.{Result, ok, err}
use open_api_gateway.Config.Types.{Platform, GatewayConfig}
use open_api_gateway.Config.Errors.{ConfigErrors, errors_text}
use open_api_gateway.Config.Loader.{Files, load_config_from_str}
use open_api_gateway.Envoy as Envoy
use open_api_gateway.Auth.Types.{Jwt}
use open_api_gateway.Plugins.Lua.{Lua, PluginEngine, PluginError, error_text}
use open_api_gateway.Plugins.Engine.{reload_from_config}
use open_api_gateway.Xds.Resources.{ResourceError, resource_error_text}
use open_api_gateway.Xds.Builders.{Prost}
use open_api_gateway.Xds.Server.{XdsControlPlane, Sent, rebuild_from_config}
use open_api_gateway.Admin.{
  AppState, ConfigState, Bytes, success, validation_error, ReloadResponse, reloaded, refused,
  as_str,
}

-- What surrounds a reload: the file that is read, the time, and how many messages each stream takes.
pub record Reading (b : Bytes) : Type 0 where
  pub now : ℕ
  pub contents : Result String b.Raw
  pub takes : ℕ → ℕ

module _ {p : Platform} (j : Jwt) (l : Lua p) (q : Prost) (b : Bytes) (files : Files p) where
  abbrev pub State : Type 0
  State = AppState j l q

  -- The state after the request, the answer, what the control plane sends, and the file that is
  -- written, with its text.
  pub record Reply : Type 0 where
    pub state : State
    pub response : ReloadResponse
    pub sent : Sent q
    pub written : Option (String × String)

  unfoldable pub reload_validation_error : State → Sent q → ℕ → String → Reply
  unfolding as_str
  reload_validation_error state sent now message = record {
    state = record state {
      config_state = record state.config_state {
        last_reload_unix = now;
        last_reload_result = validation_error;
        last_reload_error = some message;
      };
      metrics = as_str validation_error ∷ state.metrics;
    };
    response = refused message now;
    sent = sent;
    written = none;
  }

  -- What is written for Envoy, where a path is given and the generator succeeds.
  unfoldable pub envoy_file : GatewayConfig p → Option String → Option (String × String)
  unfolding Envoy.generate_envoy_config
  envoy_file config none = none
  envoy_file config (some path) = elim (Envoy.generate_envoy_config p config) [
    | Envoy.generated yaml ↦ some (path, yaml)
    | Envoy.failed e ↦ none
    | Envoy.panicked ↦ none
  ]

  -- The end of `apply_config_reload`: the new configuration is in force.
  unfoldable pub install_config : State → Sent q → ℕ → b.Raw → GatewayConfig p → Reply
  unfolding envoy_file as_str
  install_config state sent now raw config = record {
    state = record state {
      config_state = record {
        config = config;
        sha256 = b.sha256_hex raw;
        last_reload_unix = now;
        last_reload_result = success;
        last_reload_error = none;
      };
      metrics = as_str success ∷ state.metrics;
    };
    response = reloaded state.config_state.sha256 (b.sha256_hex raw) now;
    sent = sent;
    written = envoy_file config state.envoy_config_path;
  }

  unfoldable pub after_xds :
      State
      → ℕ
      → b.Raw
      → GatewayConfig p
      → XdsControlPlane q.Any × Sent q × Result ResourceError (Unit {0})
      → Reply
  unfolding reload_validation_error install_config resource_error_text
  after_xds state now raw config (xds, sent, err e) =
      reload_validation_error (record state { xds = some xds }) sent now (resource_error_text e)
  after_xds state now raw config (xds, sent, ok _) =
      install_config (record state { xds = some xds }) sent now raw config

  unfoldable pub reload_xds :
      (ℕ → ℕ) → State → ℕ → b.Raw → GatewayConfig p → Option (XdsControlPlane q.Any) → Reply
  unfolding after_xds rebuild_from_config
  reload_xds takes state now raw config none = install_config state [] now raw config
  reload_xds takes state now raw config (some xds) =
      after_xds state now raw config (rebuild_from_config q takes xds config)

  unfoldable pub after_plugins :
      (ℕ → ℕ)
      → State
      → ℕ
      → b.Raw
      → GatewayConfig p
      → PluginEngine l × Result PluginError (Unit {0})
      → Reply
  unfolding reload_validation_error reload_xds error_text
  after_plugins takes state now raw config (engine, err e) =
      reload_validation_error (record state { plugin_engine = some engine }) [] now (error_text e)
  after_plugins takes state now raw config (engine, ok _) =
      reload_xds takes (record state { plugin_engine = some engine }) now raw config state.xds

  unfoldable pub reload_plugins :
      (ℕ → ℕ) → State → ℕ → b.Raw → GatewayConfig p → Option (PluginEngine l) → Reply
  unfolding after_plugins reload_from_config
  reload_plugins takes state now raw config none = reload_xds takes state now raw config state.xds
  reload_plugins takes state now raw config (some engine) =
      after_plugins takes state now raw config (reload_from_config l engine config)

  unfoldable pub apply_config_reload : (ℕ → ℕ) → State → ℕ → b.Raw → GatewayConfig p → Reply
  unfolding reload_plugins
  apply_config_reload takes state now raw config =
      reload_plugins takes state now raw config state.plugin_engine

  unfoldable pub apply_loaded :
      (ℕ → ℕ) → State → ℕ → b.Raw → Result ConfigErrors (GatewayConfig p) → Reply
  unfolding apply_config_reload reload_validation_error errors_text
  apply_loaded takes state now raw (ok config) = apply_config_reload takes state now raw config
  apply_loaded takes state now raw (err e) = reload_validation_error state [] now (errors_text e)

  unfoldable pub reload_read : (ℕ → ℕ) → State → ℕ → Result String b.Raw → Reply
  unfolding apply_loaded load_config_from_str reload_validation_error
  reload_read takes state now (err e) =
      reload_validation_error state [] now ("failed to read " <> (state.config_path <> (": " <> e)))
  reload_read takes state now (ok raw) =
      apply_loaded takes state now raw (load_config_from_str files (b.from_utf8_lossy raw))

  unfoldable pub config_reload : Reading b → State → Reply
  unfolding reload_read
  config_reload reading state = reload_read reading.takes state reading.now reading.contents
