-- ===== src/Config/Validation/Names.antt =====
-- When the checks of controlplane/src/config/validation.rs for repeated names, and those of plugin
-- instances, report nothing.
use open_api_gateway.Prelude.{
  String, eq_iff, false, not, List, [], ◌∷◌, map, All, ◌≡◌, refl, ◌≢◌, ◌↔◌, arith,
}
use open_api_gateway.Prelude.Text.{trim}
use open_api_gateway.Config.Types.{Platform, PluginInstance}
use open_api_gateway.Config.Errors.{ConfigError}
use open_api_gateway.Config.Validity.{IsUnique, IsValidPlugin}
use open_api_gateway.Config.Validation.Checks.{
  contains, require, duplicates, validate_plugin_instance, check_plugins,
}
use open_api_gateway.Config.Validation.Laws.{
  both, require-eq-nil, All-both, not_iff, not-is_empty_text, contains_iff,
}

-- Not among the names seen so far, and not repeated.
abbrev pub IsFresh : List String → List String → Type 0
IsFresh seen names = All (λ x. contains seen x ≡ false) names × IsUnique names

contains-cons :
    (seen : List String) (x y : String)
    → (contains (x ∷ seen) y ≡ false) ↔ ((x ≢ y) × (contains seen y ≡ false))
contains-cons seen x y = ground (arith, eq_iff x y)

IsFresh-cons :
    (seen : List String) (x : String) (xs : List String)
    → ((contains seen x ≡ false) × IsFresh (x ∷ seen) xs) ↔ IsFresh seen (x ∷ xs)
IsFresh-cons seen x xs =
    let split =
      All-both (λ y. x ≢ y) (λ y. contains seen y ≡ false) (λ y. contains (x ∷ seen) y ≡ false) xs
        (λ y. contains-cons seen x y) in
    (
      λ t. ((t.0, (split.0 t.1.0).1), ((split.0 t.1.0).0, t.1.1)),
      λ t. (t.0.0, (split.1 (t.1.0, t.0.1), t.1.1)),
    )

IsFresh-eq-nil :
    (error : String → ConfigError) (seen names : List String)
    → (duplicates error seen names ≡ []) ↔ IsFresh seen names
unfolding duplicates
IsFresh-eq-nil error seen [] = (λ _. (tt, tt), λ _. refl)
IsFresh-eq-nil error seen (x ∷ xs) =
    let (to, from) =
      both (require (not (contains seen x)) (error x)) (duplicates error (x ∷ seen) xs)
        (require-eq-nil _ _ (not_iff (contains seen x))) (IsFresh-eq-nil error (x ∷ seen) xs) in
    let (pack, unpack) = IsFresh-cons seen x xs in (λ h. pack (to h), λ f. from (unpack f))

nothing_seen : (names : List String) → All (λ x. contains [] x ≡ false) names
nothing_seen [] = tt
nothing_seen (x ∷ xs) = (refl, nothing_seen xs)

pub duplicates-eq-nil :
    (error : String → ConfigError) (names : List String)
    → (duplicates error [] names ≡ []) ↔ IsUnique names
duplicates-eq-nil error names =
    let (to, from) = IsFresh-eq-nil error [] names in
    (λ h. (to h).1, λ u. from (nothing_seen names, u))

module _ {p : Platform} where
  validate_plugin_instance-eq-nil :
      (plugin : PluginInstance p) (prefix : String)
      → (validate_plugin_instance plugin prefix ≡ []) ↔ IsValidPlugin plugin
  unfolding validate_plugin_instance
  validate_plugin_instance-eq-nil plugin prefix =
      let (to, from) =
        both (require _ _) (require _ _) (require-eq-nil _ _ (not-is_empty_text (trim plugin.name)))
          (require-eq-nil _ _ (contains_iff _ plugin.fail_mode)) in
      (λ h. record { named = (to h).0; fail_mode = (to h).1 }, λ v. from (v.named, v.fail_mode))

  abbrev names_of : List (PluginInstance p) → List String
  names_of = map λ plugin. plugin.name

  IsFresh-plugins-eq-nil :
      (prefix : String) (error : String → ConfigError) (seen : List String)
      (plugins : List (PluginInstance p))
      → (check_plugins prefix error seen plugins ≡ [])
        ↔ (All IsValidPlugin plugins × IsFresh seen (names_of plugins))
  unfolding check_plugins
  IsFresh-plugins-eq-nil prefix error seen [] = (λ _. (tt, (tt, tt)), λ _. refl)
  IsFresh-plugins-eq-nil prefix error seen (x ∷ xs) =
      let (to, from) =
        both (validate_plugin_instance x prefix) _ (validate_plugin_instance-eq-nil x prefix) (
          both (require (not (contains seen x.name)) (error x.name)) _
            (require-eq-nil _ _ (not_iff (contains seen x.name)))
            (IsFresh-plugins-eq-nil prefix error (x.name ∷ seen) xs)) in
      let (pack, unpack) = IsFresh-cons seen x.name (names_of xs) in
      (
        λ h. let t = to h in ((t.0, t.1.1.0), pack (t.1.0, t.1.1.1)),
        λ v. let u = unpack v.1 in from (v.0.0, (u.0, (v.0.1, u.1))),
      )

  pub check_plugins-eq-nil :
      (prefix : String) (error : String → ConfigError) (plugins : List (PluginInstance p))
      → (check_plugins prefix error [] plugins ≡ [])
        ↔ (All IsValidPlugin plugins × IsUnique (map (λ plugin. plugin.name) plugins))
  check_plugins-eq-nil prefix error plugins =
      let (to, from) = IsFresh-plugins-eq-nil prefix error [] plugins in
      (λ h. ((to h).0, (to h).1.1), λ v. from (v.0, (nothing_seen (names_of plugins), v.1)))
