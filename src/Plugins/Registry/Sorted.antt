-- ===== src/Plugins/Registry/Sorted.antt =====
-- The order of the bindings of a chain.
use Prim.Native.Nat.{Ordering, compare}
use Prim.Native.Char.{code}
use Prim.Native.String
use Prim.Native.String.compare
use mathlib.Core.List.{Perm}
use mathlib.Core.List.Perm
use open_api_gateway.Prelude.{
  ℕ, String, List, [], ◌∷◌, ◌≡◌, ◌≢◌, ◌<◌, ◌⊎◌, inl, inr, refl, sym, ap, ◌∙◌, arith,
}
use open_api_gateway.Auth.Types.{ℤ, pos, negsuc}
use open_api_gateway.Config.Types.{Platform}
use open_api_gateway.Plugins.Lua.{Lua, PluginBinding}
use open_api_gateway.Plugins.Registry.{compare_i64, compare_bindings, insert_binding, sort_bindings}

compare_text_gt :
    (s t : String) → String.compare s t ≡ Ordering.gt → String.compare t s ≡ Ordering.lt
compare_text_gt String.[] String.[] h = absurd (let e = sym compare.nil-nil ∙ h in cc)
compare_text_gt String.[] (String.◌∷◌ d t) h = absurd (let e = sym (compare.nil-cons d t) ∙ h in cc)
compare_text_gt (String.◌∷◌ c s) String.[] h = compare.nil-cons c s
compare_text_gt (String.◌∷◌ c s) (String.◌∷◌ d t) h =
    compare.cons-cons d c t s
    ∙ then_gt (code c) (code d) (String.compare s t) (String.compare t s) (compare_text_gt s t)
        (sym (compare.cons-cons c d s t) ∙ h)
  where
    then_gt :
        (m n : ℕ) (o u : Ordering)
        → (o ≡ Ordering.gt → u ≡ Ordering.lt)
        → String.then (compare m n) o ≡ Ordering.gt
        → String.then (compare n m) u ≡ Ordering.lt
    then_gt m n o u f e = ground arith

compare_i64_gt : (a b : ℤ) → compare_i64 a b ≡ Ordering.gt → compare_i64 b a ≡ Ordering.lt
unfolding compare_i64
compare_i64_gt (pos a) (pos b) h = ground arith
compare_i64_gt (pos a) (negsuc b) h = refl
compare_i64_gt (negsuc a) (pos b) h = cc
compare_i64_gt (negsuc a) (negsuc b) h = ground arith

compare_i64_eq : (a b : ℤ) → compare_i64 a b ≡ Ordering.eq → compare_i64 b a ≡ Ordering.eq
unfolding compare_i64
compare_i64_eq (pos a) (pos b) h = ground arith
compare_i64_eq (pos a) (negsuc b) h = cc
compare_i64_eq (negsuc a) (pos b) h = cc
compare_i64_eq (negsuc a) (negsuc b) h = ground arith

-- The order of the integers.
abbrev pub IsLess : ℤ → ℤ → Type 0
IsLess (pos a) (pos b) = a < b
IsLess (pos a) (negsuc b) = ⊥
IsLess (negsuc a) (pos b) = Unit
IsLess (negsuc a) (negsuc b) = b < a

compare_i64-IsLess : (a b : ℤ) → compare_i64 a b ≡ Ordering.lt → IsLess a b
unfolding compare_i64
compare_i64-IsLess (pos a) (pos b) h = ground arith
compare_i64-IsLess (pos a) (negsuc b) h = cc
compare_i64-IsLess (negsuc a) (pos b) h = tt
compare_i64-IsLess (negsuc a) (negsuc b) h = ground arith

compare_i64-same : (a b : ℤ) → compare_i64 a b ≡ Ordering.eq → a ≡ b
unfolding compare_i64
compare_i64-same (pos a) (pos b) h = ap pos (ground arith)
compare_i64-same (pos a) (negsuc b) h = absurd (cc)
compare_i64-same (negsuc a) (pos b) h = absurd (cc)
compare_i64-same (negsuc a) (negsuc b) h = ap negsuc (ground arith)

module _ {p : Platform} (l : Lua p) where
  -- `x` may stand before `y`: its priority is smaller, or the same and its name is not the later one.
  abbrev pub Precedes : PluginBinding l → PluginBinding l → Type 0
  Precedes x y =
      IsLess x.priority y.priority
      ⊎ ((x.priority ≡ y.priority) × (String.compare x.name y.name ≢ Ordering.gt))

  by_ordering :
      (a b : ℤ) (names : Ordering)
      → String.then (compare_i64 a b) names ≢ Ordering.gt
      → IsLess a b ⊎ ((a ≡ b) × (names ≢ Ordering.gt))
  by_ordering a b names h = by_priority (compare_i64 a b) refl h
    where
      by_priority :
          (o : Ordering)
          → compare_i64 a b ≡ o
          → String.then o names ≢ Ordering.gt
          → IsLess a b ⊎ ((a ≡ b) × (names ≢ Ordering.gt))
      by_priority Ordering.lt e h = inl (compare_i64-IsLess a b e)
      by_priority Ordering.eq e h = inr (compare_i64-same a b e, h)
      by_priority Ordering.gt e h = absurd (h refl)

  Precedes-of_compare :
      (x y : PluginBinding l) → compare_bindings l x y ≢ Ordering.gt → Precedes x y
  unfolding compare_bindings
  Precedes-of_compare x y h = by_ordering x.priority y.priority (String.compare x.name y.name) h

  compare_bindings-of_gt :
      (x y : PluginBinding l)
      → compare_bindings l x y ≡ Ordering.gt
      → compare_bindings l y x ≢ Ordering.gt
  unfolding compare_bindings
  compare_bindings-of_gt x y h = ground (
    arith,
    compare_i64_gt x.priority y.priority,
    compare_i64_eq x.priority y.priority,
    compare_text_gt x.name y.name,
  )

  -- Each binding may stand before the one after it.
  abbrev pub IsSorted : List (PluginBinding l) → Type 0
  IsSorted [] = Unit
  IsSorted (x ∷ []) = Unit
  IsSorted (x ∷ y ∷ bindings) = Precedes x y × IsSorted (y ∷ bindings)

  -- The same by the comparison of the program.
  abbrev IsCompared : List (PluginBinding l) → Type 0
  IsCompared [] = Unit
  IsCompared (x ∷ []) = Unit
  IsCompared (x ∷ y ∷ bindings) = (compare_bindings l x y ≢ Ordering.gt) × IsCompared (y ∷ bindings)

  insert_binding-IsCompared :
      (x : PluginBinding l) (ys : List (PluginBinding l))
      → IsCompared ys
      → IsCompared (insert_binding l x ys)
  unfolding insert_binding
  insert_binding-IsCompared x [] h = tt
  insert_binding-IsCompared x (y ∷ []) h = ground (arith, compare_bindings-of_gt x y)
  insert_binding-IsCompared x (y ∷ z ∷ zs) h = ground (
    arith,
    compare_bindings-of_gt x y,
    compare_bindings-of_gt x z,
    insert_binding-IsCompared x (z ∷ zs) h.1,
  )

  sort_bindings-IsCompared : (xs : List (PluginBinding l)) → IsCompared (sort_bindings l xs)
  unfolding sort_bindings
  sort_bindings-IsCompared [] = tt
  sort_bindings-IsCompared (x ∷ xs) =
      insert_binding-IsCompared x (sort_bindings l xs) (sort_bindings-IsCompared xs)

  IsSorted-of_compare : (xs : List (PluginBinding l)) → IsCompared xs → IsSorted xs
  IsSorted-of_compare [] h = tt
  IsSorted-of_compare (x ∷ []) h = tt
  IsSorted-of_compare (x ∷ y ∷ bindings) (first, rest) =
      (Precedes-of_compare x y first, IsSorted-of_compare (y ∷ bindings) rest)

  pub sort_bindings-IsSorted : (xs : List (PluginBinding l)) → IsSorted (sort_bindings l xs)
  sort_bindings-IsSorted xs = IsSorted-of_compare (sort_bindings l xs) (sort_bindings-IsCompared xs)

  insert_binding-perm :
      (x : PluginBinding l) (ys : List (PluginBinding l)) → Perm (insert_binding l x ys) (x ∷ ys)
  unfolding insert_binding
  insert_binding-perm x [] = Perm.refl (x ∷ [])
  insert_binding-perm x (y ∷ ys) = by_order (compare_bindings l x y) (insert_binding-perm x ys)
    where
      by_order :
          (o : Ordering)
          → Perm (insert_binding l x ys) (x ∷ ys)
          → Perm (elim o [ Ordering.gt ↦ y ∷ insert_binding l x ys | _ ↦ x ∷ y ∷ ys ]) (x ∷ y ∷ ys)
      by_order Ordering.gt ih = Perm.trans (Perm.cons y ih) (Perm.swap x y ys)
      by_order Ordering.eq ih = Perm.refl (x ∷ y ∷ ys)
      by_order Ordering.lt ih = Perm.refl (x ∷ y ∷ ys)

  pub sort_bindings-perm : (xs : List (PluginBinding l)) → Perm (sort_bindings l xs) xs
  unfolding sort_bindings
  sort_bindings-perm [] = Perm.nil
  sort_bindings-perm (x ∷ xs) =
      Perm.trans (insert_binding-perm x (sort_bindings l xs)) (Perm.cons x (sort_bindings-perm xs))
