-- ===== src/Prelude/Text/Decimal.antt =====
-- Numerals: `decimal` against `parse_unsigned`.
use Prim.Native.Nat.{ℕ, zero, suc, ◌+◌, ◌-◌, ◌*◌, ◌/◌, ◌%◌, ◌≤◌, ◌<◌}
use Prim.Native.Char.{code}
use Prim.Native.String.{String, [], ◌∷◌}
use mathlib.Core.Path.{◌≡◌, refl, ap, ◌∙◌}
use mathlib.Core.Logic.{inl, inr}
use mathlib.Core.Option.{some}
use native.Mathlib.Omega.{arith}
use open_api_gateway.Prelude.Tests.{
  Bool-cases, ltb→lt, leb_of_le, eqb_iff, holds_to, holds_to-lt, ltb, eqb,
}
use open_api_gateway.Prelude.Text.{
  digit, decimal_loop, decimal, parse_digits, parse_unsigned, parse_u16,
}
use open_api_gateway.Prelude.Text.Colon.{LacksColon}

code-digit : (n : ℕ) → n < 10 → code (digit n) ≡ b'0' + n
unfolding digit holds_to
code-digit n h =
    (eqb_iff (code (digit n)) (b'0' + n)).0
      (holds_to-lt (λ k. eqb (code (digit k)) (b'0' + k)) 10 n h refl)

-- One more digit in front of text that is read on from there.
parse_digits-digit :
    (limit acc n : ℕ) (s : String)
    → n < 10
    → acc * 10 + n ≤ limit
    → parse_digits limit acc (digit n ∷ s) ≡ parse_digits limit (acc * 10 + n) s
unfolding parse_digits
parse_digits-digit limit acc n s h k =
    let value : b'0' + n - b'0' ≡ n = omega arith in
    rw (
      code-digit n h,
      value,
      leb_of_le b'0' (b'0' + n) (omega arith),
      leb_of_le (b'0' + n) b'9' (omega arith),
      leb_of_le (acc * 10 + n) limit k,
    )

-- What is read of the numeral is the number, and reading goes on behind it.
parse_digits-decimal_loop :
    (fuel limit n : ℕ) (out : String)
    → n < fuel
    → n ≤ limit
    → parse_digits limit 0 (decimal_loop fuel n out) ≡ parse_digits limit n out
unfolding decimal_loop
parse_digits-decimal_loop zero limit n out h k = absurd (omega arith)
parse_digits-decimal_loop (suc fuel) limit n out h k = elim (Bool-cases (ltb n 10)) [
  | inl e ↦ rw e (
      parse_digits-digit limit 0 n out (ground arith) (omega arith)
      ∙ ap (λ m. parse_digits limit m out) (omega arith))
  | inr e ↦ rw e (
      parse_digits-decimal_loop fuel limit (n / 10) (digit (n % 10) ∷ out) (ground arith)
        (omega arith)
      ∙ (parse_digits-digit limit (n / 10) (n % 10) out (omega arith) (omega arith)
          ∙ ap (λ m. parse_digits limit m out) (omega arith)))
]

abbrev AllDigits : String → Type 0
AllDigits [] = Unit
AllDigits (c ∷ s) = (b'0' ≤ code c) × (code c ≤ b'9') × AllDigits s

abbrev IsNumeral : String → Type 0
IsNumeral [] = ⊥
IsNumeral (c ∷ s) = AllDigits (c ∷ s)

decimal_loop-IsNumeral :
    (fuel n : ℕ) (out : String) → n < fuel → AllDigits out → IsNumeral (decimal_loop fuel n out)
unfolding decimal_loop
decimal_loop-IsNumeral zero n out h d = absurd (omega arith)
decimal_loop-IsNumeral (suc fuel) n out h d = elim (Bool-cases (ltb n 10)) [
  | inl e ↦
      let small = ltb→lt n 10 e in
      let value = code-digit n small in rw e (omega arith, omega arith, d)
  | inr e ↦
      let value = code-digit (n % 10) (omega arith) in
      rw e (
        decimal_loop-IsNumeral fuel (n / 10) (digit (n % 10) ∷ out) (ground arith)
          (omega arith, omega arith, d))
]

AllDigits-LacksColon : (s : String) → AllDigits s → LacksColon s
AllDigits-LacksColon [] d = tt
AllDigits-LacksColon (c ∷ s) (lo, hi, d) = (omega arith, AllDigits-LacksColon s d)

IsNumeral-LacksColon : (s : String) → IsNumeral s → LacksColon s
IsNumeral-LacksColon [] d = tt
IsNumeral-LacksColon (c ∷ s) d = AllDigits-LacksColon (c ∷ s) d

parse_unsigned_no_sign :
    (limit : ℕ) (s : String) → IsNumeral s → parse_unsigned limit s ≡ parse_digits limit 0 s
unfolding parse_unsigned
parse_unsigned_no_sign limit [] d = absurd d
parse_unsigned_no_sign limit (c ∷ []) d = refl
parse_unsigned_no_sign limit (c ∷ e ∷ s) d = ground arith

pub decimal-LacksColon : (n : ℕ) → LacksColon (decimal n)
unfolding decimal
decimal-LacksColon n = IsNumeral-LacksColon _ (decimal_loop-IsNumeral (suc n) n "" (omega arith) tt)

pub parse_u16-decimal : (n : ℕ) → n ≤ 65535 → parse_u16 (decimal n) ≡ some n
unfolding parse_u16 decimal parse_digits
parse_u16-decimal n h =
    parse_unsigned_no_sign 65535 _ (decimal_loop-IsNumeral (suc n) n "" (omega arith) tt)
    ∙ parse_digits-decimal_loop (suc n) 65535 n "" (omega arith) h

-- A number that is read is within the limit.
parse_digits-le :
    (limit acc : ℕ) (s : String) (n : ℕ)
    → acc ≤ limit
    → parse_digits limit acc s ≡ some n
    → n ≤ limit
unfolding parse_digits
parse_digits-le limit acc [] n k h = ground arith
parse_digits-le limit acc (c ∷ s) n k h =
    ground (arith, parse_digits-le limit (acc * 10 + (code c - b'0')) s n)

pub parse_u16-le : (s : String) (n : ℕ) → parse_u16 s ≡ some n → n ≤ 65535
unfolding parse_u16 parse_unsigned
parse_u16-le [] n h = cc
parse_u16-le (c ∷ []) n h = parse_digits-le 65535 0 (c ∷ []) n (omega arith) h
parse_u16-le (c ∷ d ∷ s) n h =
    ground (arith, parse_digits-le 65535 0 (d ∷ s) n, parse_digits-le 65535 0 (c ∷ d ∷ s) n)
