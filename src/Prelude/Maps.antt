-- ===== src/Prelude/Maps.antt =====
-- `HashMap` with texts for keys, as its entries: `insert` replaces the value of a key that is there.
use text.Mathlib.TextPositions.{eq_refl}
use mathlib.Core.Path.{◌≡◌, refl, sym, subst}
use mathlib.Core.Logic.{◌≢◌, inl, inr}
use mathlib.Core.List.{List, [], ◌∷◌}
use mathlib.Core.Option.{Option, none, some}
use native.Mathlib.Omega.{arith}
use Prim.Native.String.{String}
use text.Mathlib.Text.{◌==◌}
use text.Mathlib.TextEquality.{eq_iff}
use open_api_gateway.Prelude.Tests.{if◌then◌else◌, Bool-cases}
use open_api_gateway.Prelude.Lists.{All}

module _ {ℓ} {V : Type ℓ} where
  unfoldable pub put : String → V → List (String × V) → List (String × V)
  put key value [] = (key, value) ∷ []
  put key value ((k, v) ∷ rest) =
      let later = put key value rest in if k == key then (k, value) ∷ rest else (k, v) ∷ later

  unfoldable pub lookup : String → List (String × V) → Option V
  lookup key [] = none
  lookup key ((k, v) ∷ rest) = if k == key then some v else lookup key rest

  -- `remove`
  unfoldable pub delete : String → List (String × V) → List (String × V)
  delete key [] = []
  delete key ((k, v) ∷ rest) =
      let later = delete key rest in if k == key then later else (k, v) ∷ later

  pub lookup-delete : (key : String) (m : List (String × V)) → lookup key (delete key m) ≡ none
  unfolding lookup delete
  lookup-delete key [] = refl
  lookup-delete key ((k, w) ∷ rest) = elim (Bool-cases (k == key)) [
    | inl same ↦ rw (same, lookup) (lookup-delete key rest)
    | inr other ↦ rw (other, lookup, other) (lookup-delete key rest)
  ]

  pub lookup-delete_other :
      (key other : String) (m : List (String × V))
      → other ≢ key
      → lookup other (delete key m) ≡ lookup other m
  unfolding lookup delete
  lookup-delete_other key other [] h = refl
  lookup-delete_other key other ((k, w) ∷ rest) h =
      ground (arith, eq_iff k other, eq_iff k key, lookup-delete_other key other rest h)

  pub lookup-put :
      (key : String) (v : V) (m : List (String × V)) → lookup key (put key v m) ≡ some v
  unfolding lookup put
  lookup-put key v [] = rw (eq_refl key)
  lookup-put key v ((k, w) ∷ rest) = elim (Bool-cases (k == key)) [
    | inl same ↦ rw (same, lookup, same)
    | inr other ↦ rw (other, lookup, other) (lookup-put key v rest)
  ]

  pub lookup-put_other :
      (key other : String) (v : V) (m : List (String × V))
      → other ≢ key
      → lookup other (put key v m) ≡ lookup other m
  unfolding lookup put
  lookup-put_other key other v [] h = ground (arith, eq_iff key other)
  lookup-put_other key other v ((k, w) ∷ rest) h =
      ground (arith, eq_iff k other, eq_iff k key, lookup-put_other key other v rest h)

  pub put-All :
      (P : String → V → Type 0) (key : String) (v : V) (m : List (String × V))
      → P key v
      → All (λ e. P e.0 e.1) m
      → All (λ e. P e.0 e.1) (put key v m)
  unfolding put
  put-All P key v [] new h = (new, tt)
  put-All P key v ((k, w) ∷ rest) new h = elim (Bool-cases (k == key)) [
    | inl e ↦ rw e (subst (λ s. P s v) (sym ((eq_iff k key).0 e)) new, h.1)
    | inr e ↦ rw e (h.0, put-All P key v rest new h.1)
  ]
