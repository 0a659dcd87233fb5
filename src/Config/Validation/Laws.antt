-- ===== src/Config/Validation/Laws.antt =====
-- When one check of controlplane/src/config/validation.rs reports nothing.
use mathlib.Core.Bool.{Bool-set, and-eq-true_iff}
use mathlib.Core.List.{mem-cons, mem-cons_self, mem-cons_of_mem, not-mem-nil}
use mathlib.Core.Logic.Or
use text.Mathlib.Text.{starts_with}
use text.Mathlib.TextBridge.{IsPrefix}
use text.Mathlib.TextEquality.{starts_with_iff}
use open_api_gateway.Prelude.{
  ℕ, String, ◌==◌, eq_iff, Bool, true, false, not, Option, none, some, List, [], ◌∷◌, ◌++◌,
  flat_map, Mem, All, is_empty, append-eq-nil, ltb, eqb, ◌≡◌, refl, sym, subst, ◌≢◌, ◌↔◌, ◌≤◌,
  arith, inl, inr, Option-cases, Bool-cases,
}
use open_api_gateway.Prelude.Text.{rsplit_colon, parse_u16, is_empty_text}
use open_api_gateway.Prelude.Text.Colon.{rsplit_colon-with_colon, rsplit_colon_sound}
use open_api_gateway.Config.Errors.{ConfigError}
use open_api_gateway.Config.Validity.{IsHostPort}
use open_api_gateway.Config.Validation.Checks.{
  contains, require, is_some, is_host_port, validate_host_port, check_optional, check_enabled,
}

module _ {ℓ κ} {E : Type 0} {A : Type ℓ} {B : Type κ} where
  -- Two lists of errors are both empty.
  pub both : (xs ys : List E) → (xs ≡ []) ↔ A → (ys ≡ []) ↔ B → (xs ++ ys ≡ []) ↔ (A × B)
  both xs ys f g = (
    λ h. let (x, y) = (append-eq-nil xs ys).0 h in (f.0 x, g.0 y),
    λ t. (append-eq-nil xs ys).1 (f.1 t.0, g.1 t.1),
  )

module _ {ℓ} {A : Type ℓ} where
  pub require-eq-nil : (b : Bool) (e : ConfigError) → (b ≡ true) ↔ A → (require b e ≡ []) ↔ A
  require-eq-nil true e f = (λ _. f.0 refl, λ _. refl)
  require-eq-nil false e f = (λ h. (cc), λ a. absurd (let h = f.1 a in cc))

module _ {ℓ} {A : Type ℓ} where
  pub flat_map-eq-nil :
      (P : A → Type 0) (f : A → List ConfigError) (xs : List A)
      → ((x : A) → (f x ≡ []) ↔ P x)
      → (flat_map f xs ≡ []) ↔ All P xs
  unfolding flat_map
  flat_map-eq-nil P f [] h = (λ _. tt, λ _. refl)
  flat_map-eq-nil P f (x ∷ xs) h = both (f x) (flat_map f xs) (h x) (flat_map-eq-nil P f xs h)

  pub All-both :
      (P Q R : A → Type 0) (xs : List A)
      → ((x : A) → R x ↔ (P x × Q x))
      → All R xs ↔ (All P xs × All Q xs)
  All-both P Q R [] h = (λ _. (tt, tt), λ _. tt)
  All-both P Q R (x ∷ xs) h =
      let (to, from) = All-both P Q R xs h in
      (
        λ t. ((((h x).0 t.0).0, (to t.1).0), (((h x).0 t.0).1, (to t.1).1)),
        λ t. ((h x).1 (t.0.0, t.1.0), from (t.0.1, t.1.1)),
      )

pub id_iff {ℓ} : (A : Type ℓ) → A ↔ A
id_iff A = (λ a. a, λ a. a)

pub not-is_empty_text : (s : String) → (not (is_empty_text s) ≡ true) ↔ (s ≢ "")
not-is_empty_text String.[] = (λ h. (cc), λ h. absurd (h refl))
not-is_empty_text (String.◌∷◌ c s) = (λ _ e. (cc), λ _. refl)

pub not-is_empty {ℓ} : {A : Type ℓ} (xs : List A) → (not (is_empty xs) ≡ true) ↔ (xs ≢ [])
not-is_empty [] = (λ h. (cc), λ h. absurd (h refl))
not-is_empty (x ∷ xs) = (λ _ e. (cc), λ _. refl)

pub not-eqb-zero : (n : ℕ) → (not (eqb n 0) ≡ true) ↔ (1 ≤ n)
not-eqb-zero n = ground arith

pub not-ltb-one : (n : ℕ) → (not (ltb n 1) ≡ true) ↔ (1 ≤ n)
not-ltb-one n = ground arith

is_some_sound {ℓ} : {A : Type ℓ} (o : Option A) → is_some o ≡ true → (a : A) × (o ≡ some a)
is_some_sound none h = absurd (cc)
is_some_sound (some a) h = (a, refl)

pub not_iff : (b : Bool) → (not b ≡ true) ↔ (b ≡ false)
not_iff b = ground arith

pub contains_sound : (xs : List String) (x : String) → contains xs x ≡ true → Mem x xs
contains_sound [] x h = absurd (cc)
contains_sound (y ∷ xs) x h = elim (Bool-cases (y == x)) [
  | inl e ↦ rw ((eq_iff y x).0 e) mem-cons_self
  | inr e ↦ mem-cons_of_mem y (contains_sound xs x (ground arith))
]

pub contains_complete : (xs : List String) (x : String) → Mem x xs → contains xs x ≡ true
contains_complete [] x m = absurd (not-mem-nil m)
contains_complete (y ∷ xs) x m =
    Or.elim (Bool-set _ _) (mem-cons.0 m) (λ e. let here = (eq_iff y x).1 (sym e) in ground arith)
      (λ later. let rest = contains_complete xs x later in ground arith)

pub contains_iff : (xs : List String) (x : String) → (contains xs x ≡ true) ↔ Mem x xs
contains_iff xs x = (contains_sound xs x, contains_complete xs x)

is_host_port_sound : (value : String) → is_host_port value ≡ true → IsHostPort value
unfolding is_host_port
is_host_port_sound value h = elim (Option-cases (rsplit_colon value)) [
  | inl e ↦ absurd (let bad = rw (e, is_host_port) at h in cc)
  | inr ((host, port), e) ↦
      let tests = rw (e, is_host_port) at h in
      let (parses, named) = (and-eq-true_iff (is_some (parse_u16 port)) _).0 tests in
      let (n, read) = is_some_sound (parse_u16 port) parses in
      let (joined, lacks) = rsplit_colon_sound value host port e in
      (host, port, n, joined, lacks, read, (not-is_empty_text host).0 named)
]

is_host_port_complete : (value : String) → IsHostPort value → is_host_port value ≡ true
unfolding is_host_port
is_host_port_complete value (host, port, n, joined, lacks, read, named) =
    let split = rsplit_colon-with_colon host port lacks in
    rw (joined, split, is_host_port, read, (not-is_empty_text host).1 named)

pub is_host_port_iff : (value : String) → (is_host_port value ≡ true) ↔ IsHostPort value
is_host_port_iff value = (is_host_port_sound value, is_host_port_complete value)

pub validate_host_port-eq-nil :
    (value field : String) → (validate_host_port value field ≡ []) ↔ IsHostPort value
unfolding validate_host_port
validate_host_port-eq-nil value field = require-eq-nil _ _ (is_host_port_iff value)

pub check_optional-eq-nil :
    (value : Option String) (field : String)
    → (check_optional value field ≡ []) ↔ ((v : String) → value ≡ some v → IsHostPort v)
unfolding check_optional
check_optional-eq-nil none field = (λ _ v e. absurd (cc), λ _. refl)
check_optional-eq-nil (some value) field = (
  λ h v e.
      let same : value ≡ v = cc in
      subst IsHostPort same ((validate_host_port-eq-nil value field).0 h),
  λ all. (validate_host_port-eq-nil value field).1 (all value refl),
)

pub check_enabled-eq-nil :
    (enabled : Bool) (value field : String)
    → (check_enabled enabled value field ≡ []) ↔ (enabled ≡ true → IsHostPort value)
unfolding check_enabled
check_enabled-eq-nil false value field = (λ _ e. absurd (cc), λ _. refl)
check_enabled-eq-nil true value field = (
  λ h _. (validate_host_port-eq-nil value field).0 h,
  λ all. (validate_host_port-eq-nil value field).1 (all refl),
)

pub starts_with_slash : (path : String) → (starts_with path "/" ≡ true) ↔ IsPrefix "/" path
starts_with_slash path = starts_with_iff path "/"
