-- ===== src/Config/Loader.antt =====
-- controlplane/src/config/loader.rs. Reading a file and serde_yaml are parameters.
use open_api_gateway.Prelude.{String, ◌<>◌, [], ◌∷◌, ◌≡◌, ◌↔◌, refl, ap, ◌∙◌, subst}
use open_api_gateway.Prelude.Result.{Result, ok, err, ◌>>=◌, bind_ok, ok_inj}
use open_api_gateway.Config.Types.{Platform, GatewayConfig}
use open_api_gateway.Config.Errors.{ConfigErrors, yaml_parse}
use open_api_gateway.Config.Validation.{validate}
use open_api_gateway.Config.Validation.Exact.{validate-IsValid}
use open_api_gateway.Config.Validity.{IsValid}

abbrev pub yaml_error : String → ConfigErrors
yaml_error message = record { errors = yaml_parse message ∷ [] }

-- `serde_yaml::from_str` and `std::fs::read_to_string`, with their errors as texts
pub record Files (p : Platform) : Type 0 where
  pub from_str : String → Result String (GatewayConfig p)
  pub read_to_string : String → Result String String

unfoldable pub or_yaml_error {ℓ} : {A : Type ℓ} → String → Result String A → Result ConfigErrors A
or_yaml_error prefix (ok a) = ok a
or_yaml_error prefix (err e) = err (yaml_error (prefix <> e))

module _ {p : Platform} (files : Files p) where
  unfoldable pub load_config_from_str : String → Result ConfigErrors (GatewayConfig p)
  unfolding or_yaml_error validate
  load_config_from_str yaml = do
    cfg ← or_yaml_error "" (files.from_str yaml)
    validate cfg >>= λ _. ok cfg

  unfoldable pub load_config : String → Result ConfigErrors (GatewayConfig p)
  unfolding or_yaml_error load_config_from_str
  load_config path =
      or_yaml_error ("failed to read " <> (path <> ": ")) (files.read_to_string path)
      >>= load_config_from_str

  or_yaml_error-ok :
      (prefix : String) (r : Result String (GatewayConfig p)) (cfg : GatewayConfig p)
      → or_yaml_error prefix r ≡ ok cfg
      → r ≡ ok cfg
  unfolding or_yaml_error
  or_yaml_error-ok prefix (ok a) cfg h = ap ok (ok_inj {E = ConfigErrors} a cfg h)
  or_yaml_error-ok prefix (err e) cfg h = absurd (cc)

  -- A text is loaded exactly when it parses to a configuration that is valid, and then as that
  -- configuration.
  pub load_config_from_str-IsValid :
      (yaml : String) (cfg : GatewayConfig p)
      → (load_config_from_str yaml ≡ ok cfg) ↔ ((files.from_str yaml ≡ ok cfg) × IsValid cfg)
  unfolding load_config_from_str
  load_config_from_str-IsValid yaml cfg = (loaded, valid)
    where
      loaded : load_config_from_str yaml ≡ ok cfg → (files.from_str yaml ≡ ok cfg) × IsValid cfg
      loaded h =
          let (parsed, read, checked) =
            bind_ok (or_yaml_error "" (files.from_str yaml)) (λ c. validate c >>= λ _. ok c) cfg
              h in
          let (_, passed, same) = bind_ok (validate parsed) (λ _. ok parsed) cfg checked in
          let e = ok_inj {E = ConfigErrors} parsed cfg same in
          (
            or_yaml_error-ok "" (files.from_str yaml) parsed read ∙ ap ok e,
            subst IsValid e ((validate-IsValid parsed).0 passed),
          )

      valid : (files.from_str yaml ≡ ok cfg) × IsValid cfg → load_config_from_str yaml ≡ ok cfg
      valid (read, v) = rw (read, load_config_from_str, (validate-IsValid cfg).1 v) refl
