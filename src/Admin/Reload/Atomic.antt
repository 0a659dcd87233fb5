-- ===== src/Admin/Reload/Atomic.antt =====
-- What a reload leaves as it was.
use open_api_gateway.Prelude.{
  ℕ, ◌<>◌, ◌%◌, ◌+◌, ◌^◌, String, Option, none, some, [], ◌≡◌, refl, sym, ◌∙◌, ap,
}
use open_api_gateway.Prelude.Result.{Result, ok, err, IsOk}
use open_api_gateway.Config.Types.{Platform, GatewayConfig}
use open_api_gateway.Config.Errors.{ConfigErrors, errors_text}
use open_api_gateway.Config.Validity.{IsValid}
use open_api_gateway.Config.Loader.{Files, load_config_from_str, load_config_from_str-IsValid}
use open_api_gateway.Auth.Types.{Jwt}
use open_api_gateway.Plugins.Lua.{Lua, PluginEngine, PluginError, PluginRuntime, error_text}
use open_api_gateway.Plugins.Registry.{build_runtime}
use open_api_gateway.Plugins.Engine.{reload_from_config, replace_runtime, next_generation}
use open_api_gateway.Xds.Snapshot.{XdsSnapshot}
use open_api_gateway.Xds.Resources.{ResourceError}
use open_api_gateway.Xds.Builders.{Prost, build}
use open_api_gateway.Xds.Builders.Valid.{Encodes, build-IsOk}
use open_api_gateway.Xds.Server.{
  XdsControlPlane, Plane, Sent, begin_rebuild, publish, rebuild_from_config,
}
use open_api_gateway.Admin.{Bytes, ReloadResponse, reloaded, refused}
use open_api_gateway.Admin.Reload.{
  Reading, State, Reply, reload_validation_error, install_config, after_xds, reload_xds,
  after_plugins, reload_plugins, apply_config_reload, apply_loaded, reload_read, config_reload,
}

-- The runtime of an engine, if there is one.
abbrev pub runtime_of :
    {p : Platform} {l : Lua p} → Option (PluginEngine l) → Option (PluginRuntime l)
runtime_of none = none
runtime_of (some engine) = some engine.runtime

module _ {p : Platform} (j : Jwt) (l : Lua p) (q : Prost) (b : Bytes) (files : Files p) where
  -- The parts of the state that were made from the configuration at startup.
  pub record IsFramed (old new : State j l q b files) : Type 0 where
    pub jwks_registry : new.jwks_registry ≡ old.jwks_registry
    pub rate_limiter : new.rate_limiter ≡ old.rate_limiter
    pub concurrency_limit : new.concurrency_limit ≡ old.concurrency_limit
    pub tracing_enabled : new.tracing_enabled ≡ old.tracing_enabled

  -- A refused reload leaves the runtime of the plugins and the control plane as they were.
  abbrev pub IsUntouched : State j l q b files → State j l q b files → ReloadResponse → Type 0
  IsUntouched old new (reloaded previous sha now) = Unit
  IsUntouched old new (refused message now) =
      (runtime_of new.plugin_engine ≡ runtime_of old.plugin_engine) × (new.xds ≡ old.xds)

  rebuild-IsOk :
      (takes : ℕ → ℕ) (plane : Plane q) (config : GatewayConfig p)
      → Encodes q
      → IsValid config
      → IsOk (rebuild_from_config q takes plane config).2
  unfolding rebuild_from_config begin_rebuild publish
  rebuild-IsOk takes plane config encodes v =
      published (build q config ((plane.versions + 1) % 2 ^ 64))
        (build-IsOk q encodes config ((plane.versions + 1) % 2 ^ 64) v)
    where
      published :
          (r : Result ResourceError (XdsSnapshot q.Any))
          → IsOk r
          → IsOk (publish q takes (record plane { versions = (plane.versions + 1) % 2 ^ 64 }, r)).2
      published (ok s) h = tt
      published (err e) h = h

  reload_from_config-kept :
      (engine : PluginEngine l) (config : GatewayConfig p) (e : PluginError)
      → (reload_from_config l engine config).1 ≡ err e
      → (reload_from_config l engine config).0.runtime ≡ engine.runtime
  unfolding reload_from_config replace_runtime next_generation
  reload_from_config-kept engine config e = by_build (build_runtime l config engine.next_generation)
    where
      by_build :
          (r : Result PluginError (PluginRuntime l))
          → (replace_runtime l (next_generation l engine).0 r).1 ≡ err e
          → (replace_runtime l (next_generation l engine).0 r).0.runtime ≡ engine.runtime
      by_build (ok rt) h = absurd (cc)
      by_build (err x) h = refl

  module _ (old : State j l q b files) where
    abbrev Left : Reply j l q b files → Type 0
    Left r = IsFramed old r.state × IsUntouched old r.state r.response

    -- A state that differs in the plugin engine at most.
    abbrev With : Option (PluginEngine l) → State j l q b files
    With engine = record old { plugin_engine = engine }

    framed : (engine : Option (PluginEngine l)) → IsFramed old (With engine)
    framed engine = record {
      jwks_registry = refl;
      rate_limiter = refl;
      concurrency_limit = refl;
      tracing_enabled = refl;
    }

    reload_xds-Left :
        (takes : ℕ → ℕ) (engine : Option (PluginEngine l)) (now : ℕ) (raw : b.Raw)
        (config : GatewayConfig p) (x : Option (XdsControlPlane q.Any))
        → Encodes q
        → IsValid config
        → Left (reload_xds j l q b files takes (With engine) now raw config x)
    unfolding reload_xds after_xds install_config
    reload_xds-Left takes engine now raw config none encodes v = (
      record {
        jwks_registry = refl;
        rate_limiter = refl;
        concurrency_limit = refl;
        tracing_enabled = refl;
      },
      tt,
    )
    reload_xds-Left takes engine now raw config (some plane) encodes v =
        rebuilt (rebuild_from_config q takes plane config)
          (rebuild-IsOk takes plane config encodes v)
      where
        rebuilt :
            (x : Plane q × Sent q × Result ResourceError (Unit {0}))
            → IsOk x.2
            → Left (after_xds j l q b files (With engine) now raw config x)
        rebuilt (xds, sent, ok _) h = (
          record {
            jwks_registry = refl;
            rate_limiter = refl;
            concurrency_limit = refl;
            tracing_enabled = refl;
          },
          tt,
        )
        rebuilt (xds, sent, err e) h = absurd h

    refused-Left :
        (engine : Option (PluginEngine l)) (now : ℕ) (message : String)
        → runtime_of engine ≡ runtime_of old.plugin_engine
        → Left (reload_validation_error j l q b files (With engine) [] now message)
    unfolding reload_validation_error
    refused-Left engine now message h = (
      record {
        jwks_registry = refl;
        rate_limiter = refl;
        concurrency_limit = refl;
        tracing_enabled = refl;
      },
      (h, refl),
    )

    reload_plugins-Left :
        (takes : ℕ → ℕ) (now : ℕ) (raw : b.Raw) (config : GatewayConfig p)
        (x : Option (PluginEngine l))
        → old.plugin_engine ≡ x
        → Encodes q
        → IsValid config
        → Left (reload_plugins j l q b files takes old now raw config x)
    unfolding reload_plugins after_plugins
    reload_plugins-Left takes now raw config none same encodes v =
        reload_xds-Left takes old.plugin_engine now raw config old.xds encodes v
    reload_plugins-Left takes now raw config (some engine) same encodes v =
        replaced (reload_from_config l engine config) (reload_from_config-kept engine config)
      where
        replaced :
            (x : PluginEngine l × Result PluginError (Unit {0}))
            → ((e : PluginError) → x.1 ≡ err e → x.0.runtime ≡ engine.runtime)
            → Left (after_plugins j l q b files takes old now raw config x)
        replaced (engine', err e) kept =
            refused-Left (some engine') now (error_text e)
              (ap some (kept e refl) ∙ sym (ap runtime_of same))
        replaced (engine', ok _) kept =
            reload_xds-Left takes (some engine') now raw config old.xds encodes v

    apply_loaded-Left :
        (takes : ℕ → ℕ) (now : ℕ) (raw : b.Raw) (x : Result ConfigErrors (GatewayConfig p))
        → Encodes q
        → ((config : GatewayConfig p) → x ≡ ok config → IsValid config)
        → Left (apply_loaded j l q b files takes old now raw x)
    unfolding apply_loaded apply_config_reload
    apply_loaded-Left takes now raw (ok config) encodes v =
        reload_plugins-Left takes now raw config old.plugin_engine refl encodes (v config refl)
    apply_loaded-Left takes now raw (err e) encodes v =
        refused-Left old.plugin_engine now (errors_text e) refl

    -- Where the encoder never fails, a reload that is refused leaves the plugin runtime and the
    -- control plane as they were, and no reload changes the key caches, the rate limiter, the
    -- concurrency limit or the tracing flag that startup made from the first configuration.
    pub config_reload-Left :
        (reading : Reading b)
        → Encodes q
        → let r = config_reload j l q b files reading old in
          IsFramed old r.state × IsUntouched old r.state r.response
    unfolding config_reload reload_read
    config_reload-Left reading encodes = by_contents reading.contents
      where
        by_contents :
            (x : Result String b.Raw)
            → Left (reload_read j l q b files reading.takes old reading.now x)
        by_contents (err e) =
            refused-Left old.plugin_engine reading.now
              ("failed to read " <> (old.config_path <> (": " <> e))) refl
        by_contents (ok raw) =
            apply_loaded-Left reading.takes reading.now raw
              (load_config_from_str files (b.from_utf8_lossy raw)) encodes
              (λ config h.
                ((load_config_from_str-IsValid files (b.from_utf8_lossy raw) config).0 h).1)
