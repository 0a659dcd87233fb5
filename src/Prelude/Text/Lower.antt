-- ===== src/Prelude/Text/Lower.antt =====
-- `to_ascii_lowercase` and `contains` of `str`.
use Prim.Native.Nat.{ℕ, ◌+◌, ◌<◌, compare, Ordering}
use Prim.Native.Char.{Char, char, code, IsScalar}
use Prim.Native.String.{String, [], ◌∷◌}
use mathlib.Core.Path.{◌≡◌, refl}
use mathlib.Core.Bool.{Bool, true, ◌||◌}
use text.Mathlib.Text.{starts_with}
use native.Mathlib.Decide.{dec_le}
use native.Mathlib.Omega.{arith}

below_surrogates : (n : ℕ) → n < 55296 → compare n 55296 ≡ Ordering.lt
below_surrogates n h = ground arith

small-IsScalar : (n : ℕ) → n < 55296 → IsScalar n
small-IsScalar n h = rw (below_surrogates n h) tt

unfoldable pub lower_char : Char → Char
unfolding small-IsScalar below_surrogates dec_le
lower_char c = elim (dec_le 65 (code c)) [
  | yes _ ↦ elim (dec_le (code c) 90) [
    | yes h ↦ char (code c + 32) (small-IsScalar (code c + 32) (omega arith))
    | no _ ↦ c
  ]
  | no _ ↦ c
]

unfoldable pub to_ascii_lowercase : String → String
unfolding lower_char
to_ascii_lowercase [] = []
to_ascii_lowercase (c ∷ s) = lower_char c ∷ to_ascii_lowercase s

unfoldable pub contains : String → String → Bool
contains part [] = starts_with [] part
contains part (c ∷ s) = starts_with (c ∷ s) part || contains part s

lowered : to_ascii_lowercase "X-Auth-Sub" ≡ "x-auth-sub"
unfolding to_ascii_lowercase
lowered = refl

contained : contains "memory" "not enough memory" ≡ true
unfolding contains
contained = refl

lower_char_idem : (c : Char) → lower_char (lower_char c) ≡ lower_char c
unfolding lower_char dec_le
lower_char_idem c = ground arith

-- What is in lower case stays as it is.
pub to_ascii_lowercase_idem :
    (s : String) → to_ascii_lowercase (to_ascii_lowercase s) ≡ to_ascii_lowercase s
unfolding to_ascii_lowercase
to_ascii_lowercase_idem [] = refl
to_ascii_lowercase_idem (c ∷ s) = rw (lower_char_idem c, to_ascii_lowercase_idem s) refl
