-- ===== src/Prelude/Text/Colon.antt =====
-- Splitting at the last colon.
use Prim.Native.Char.{Char, code}
use Prim.Native.String
use Prim.Native.String.{String, [], ◌∷◌}
use mathlib.Core.Path.{◌≡◌, refl}
use mathlib.Core.Logic.{◌≢◌, inl, inr}
use mathlib.Core.Option.{Option, none, some}
use native.Mathlib.Omega.{arith}
use text.Mathlib.TextEquality.{Char-path}
use text.Mathlib.TextLemmas.{nil-append, cons-append}
use open_api_gateway.Prelude.Tests.{Option-cases, eqb, if◌then◌else◌}
use open_api_gateway.Prelude.Text.{rsplit_colon}

abbrev pub LacksColon : String → Type 0
LacksColon [] = Unit
LacksColon (c ∷ s) = (code c ≢ b':') × LacksColon s

abbrev pub with_colon : String → String → String
with_colon before after = String.◌++◌ before (":" ∷ after)

rsplit_colon-none : (s : String) → LacksColon s → rsplit_colon s ≡ none
unfolding rsplit_colon
rsplit_colon-none [] h = refl
rsplit_colon-none (c ∷ s) h = ground (arith, rsplit_colon-none s h.1)

pub rsplit_colon-with_colon :
    (before after : String)
    → LacksColon after
    → rsplit_colon (with_colon before after) ≡ some (before, after)
unfolding rsplit_colon
rsplit_colon-with_colon [] after h =
    rw (nil-append (":" ∷ after), rsplit_colon-none after h, rsplit_colon) refl
rsplit_colon-with_colon (c ∷ s) after h =
    rw (cons-append c s (":" ∷ after), rsplit_colon-with_colon s after h, rsplit_colon) refl

none-LacksColon : (s : String) → rsplit_colon s ≡ none → LacksColon s
unfolding rsplit_colon
none-LacksColon [] h = tt
none-LacksColon (c ∷ s) h = ground (arith, none-LacksColon s)

rsplit_colon_here :
    (c : Char) (s before after : String)
    → LacksColon s
    → if◌then◌else◌ {A = Option (String × String)} (eqb (code c) b':') (some ("", s)) none
      ≡ some (before, after)
    → (c ∷ s ≡ with_colon before after) × LacksColon after
rsplit_colon_here c s before after lacks h =
    let is_colon : c ≡ ":" = Char-path c ":" (ground arith) in
    let same_before : "" ≡ before = ground arith in
    let same_after : s ≡ after = ground arith in
    (rw (← same_before, ← same_after, nil-append (":" ∷ s), is_colon), rw same_after at lacks)

-- The text is put together again, and nothing behind the last colon holds another.
pub rsplit_colon_sound :
    (s before after : String)
    → rsplit_colon s ≡ some (before, after)
    → (s ≡ with_colon before after) × LacksColon after
unfolding rsplit_colon
rsplit_colon_sound [] before after h = cc
rsplit_colon_sound (c ∷ s) before after h = elim (Option-cases (rsplit_colon s)) [
  | inr ((b, a), e) ↦
      let (joined, lacks) = rsplit_colon_sound s b a e in
      let found : ◌≡◌ {A = Option (String × String)} (some (c ∷ b, a)) (some (before, after)) =
        rw (e, rsplit_colon) at h in
      let same_before : c ∷ b ≡ before = cc in
      let same_after : a ≡ after = cc in
      (
        rw (← same_before, ← same_after, cons-append c b (":" ∷ a), ← joined),
        rw same_after at lacks,
      )
  | inl e ↦ rsplit_colon_here c s before after (none-LacksColon s e) (rw (e, rsplit_colon) at h)
]
