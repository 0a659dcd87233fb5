-- ===== src/Observability/Metrics/Class.antt =====
-- The class of a status is named by its first digit.
use open_api_gateway.Prelude.{
  ℕ, ◌/◌, ◌≤◌, ◌<◌, String, ◌==◌, ◌<>◌, eqb, eqb_iff, ◌≡◌, refl, sym, subst, ◌∙◌, ap, arith,
  Bool-cases, inl, inr,
}
use open_api_gateway.Prelude.Text.{decimal}
use open_api_gateway.Observability.Metrics.{status_class}

abbrev pub class_text : ℕ → String
class_text digit = decimal digit <> "xx"

-- By cases on a digit from 1 to 5.
by_digit {ℓ} : (P : ℕ → Type ℓ) → P 1 → P 2 → P 3 → P 4 → P 5 → (n : ℕ) → 1 ≤ n → n ≤ 5 → P n
by_digit P p1 p2 p3 p4 p5 n least most = elim (Bool-cases (eqb n 1)) [
  | inl e ↦ subst P (sym ((eqb_iff n 1).0 e)) p1
  | inr a ↦ elim (Bool-cases (eqb n 2)) [
    | inl e ↦ subst P (sym ((eqb_iff n 2).0 e)) p2
    | inr b ↦ elim (Bool-cases (eqb n 3)) [
      | inl e ↦ subst P (sym ((eqb_iff n 3).0 e)) p3
      | inr c ↦ elim (Bool-cases (eqb n 4)) [
        | inl e ↦ subst P (sym ((eqb_iff n 4).0 e)) p4
        | inr d ↦ let last : n ≡ 5 = ground arith in subst P (sym last) p5
      ]
    ]
  ]
]

status_class-class_text :
    (status : ℕ) → 100 ≤ status → status < 600 → status_class status ≡ class_text (status / 100)
unfolding status_class decimal
status_class-class_text status from below =
    by_digit (λ d. status / 100 ≡ d → status_class status ≡ class_text d)
      (λ e.
        let l : 100 ≤ status = omega arith in let h : status ≤ 199 = omega arith in ground arith)
      (λ e.
        let l : 200 ≤ status = omega arith in let h : status ≤ 299 = omega arith in ground arith)
      (λ e.
        let l : 300 ≤ status = omega arith in let h : status ≤ 399 = omega arith in ground arith)
      (λ e.
        let l : 400 ≤ status = omega arith in let h : status ≤ 499 = omega arith in ground arith)
      (λ e. let l : 500 ≤ status = omega arith in ground arith) (status / 100) (omega arith)
      (omega arith) refl

class_text-eqb :
    (a b : ℕ) → 1 ≤ a → a ≤ 5 → 1 ≤ b → b ≤ 5 → (class_text a == class_text b) ≡ eqb a b
unfolding decimal
class_text-eqb a b a_least a_most b_least b_most =
    by_digit (λ a. (class_text a == class_text b) ≡ eqb a b)
      (by_digit (λ b. (class_text 1 == class_text b) ≡ eqb 1 b) refl refl refl refl refl b b_least
        b_most)
      (by_digit (λ b. (class_text 2 == class_text b) ≡ eqb 2 b) refl refl refl refl refl b b_least
        b_most)
      (by_digit (λ b. (class_text 3 == class_text b) ≡ eqb 3 b) refl refl refl refl refl b b_least
        b_most)
      (by_digit (λ b. (class_text 4 == class_text b) ≡ eqb 4 b) refl refl refl refl refl b b_least
        b_most)
      (by_digit (λ b. (class_text 5 == class_text b) ≡ eqb 5 b) refl refl refl refl refl b b_least
        b_most)
      a a_least a_most

pub status_class-digit :
    (status digit : ℕ)
    → 100 ≤ status
    → status < 600
    → 1 ≤ digit
    → digit ≤ 5
    → (status_class status == class_text digit) ≡ eqb (status / 100) digit
status_class-digit status digit from below least most =
    ap (λ t. t == class_text digit) (status_class-class_text status from below)
    ∙ class_text-eqb (status / 100) digit (omega arith) (omega arith) least most
