-- ===== src/Manifest/Digits.antt =====
-- The digits of a number, as JavaScript's `String(n)` writes them, and the fuel that they take.
use gig_drive.Shared.{
  ℕ, zero, suc, ◌+◌, ◌-◌, ◌*◌, ◌/◌, ◌%◌, ◌<◌, ◌≤◌, ◌≡◌, refl, ◌∙◌, ap, inl, inr, [], ◌∷◌, ltb,
  Bool-cases, arith,
}
use gig_drive.Entities.{Text}
use gig_drive.Manifest.{decimal_digits, to_decimal}

-- The number that a text of digits stands for, behind digits that stand for another.
abbrev value_of : ℕ → Text → ℕ
value_of n [] = n
value_of n (c ∷ cs) = value_of (n * 10 + (c - 48)) cs

decimal_digits-value :
    (fuel n : ℕ) (digits : Text)
    → n < fuel
    → value_of 0 (decimal_digits fuel n digits) ≡ value_of n digits
unfolding decimal_digits
decimal_digits-value zero n digits h = absurd (omega arith)
decimal_digits-value (suc fuel) n digits h = elim (Bool-cases (ltb n 10)) [
  | inl e ↦ rw e (ap (λ m. value_of m digits) (omega arith))
  | inr e ↦ rw e (
      decimal_digits-value fuel (n / 10) ((48 + n % 10) ∷ digits) (ground arith)
      ∙ ap (λ m. value_of m digits) (omega arith))
]

-- The digits that are written for a number stand for it: the fuel is enough for every digit.
value_of-to_decimal : (n : ℕ) → value_of 0 (to_decimal n) ≡ n
value_of-to_decimal n = decimal_digits-value (suc n) n [] (omega arith)

digits-last :
    (fuel n : ℕ) (digits : Text) → n < 10 → decimal_digits (suc fuel) n digits ≡ (48 + n) ∷ digits
unfolding decimal_digits
digits-last fuel n digits h = ground arith

digits-more :
    (fuel n : ℕ) (digits : Text)
    → 10 ≤ n
    → decimal_digits (suc fuel) n digits ≡ decimal_digits fuel (n / 10) ((48 + n % 10) ∷ digits)
unfolding decimal_digits
digits-more fuel n digits h = ground arith

-- A number below a hundred, and one of four digits, written out.
abbrev pub two_digits : ℕ → Text
two_digits n = (48 + n / 10) ∷ (48 + n % 10) ∷ []

abbrev pub four_digits : ℕ → Text
four_digits n = (48 + n / 1000) ∷ (48 + n / 100 % 10) ∷ (48 + n / 10 % 10) ∷ (48 + n % 10) ∷ []

pub to_decimal-one : (n : ℕ) → n < 10 → to_decimal n ≡ (48 + n) ∷ []
to_decimal-one n h = digits-last n n [] h

pub to_decimal-two : (n : ℕ) → 10 ≤ n → n < 100 → to_decimal n ≡ two_digits n
to_decimal-two n l h =
    let fuel : n ≡ suc (n - 1) = omega (arith, l) in
    digits-more n n [] l
    ∙ ap (λ f. decimal_digits f (n / 10) ((48 + n % 10) ∷ [])) fuel
    ∙ digits-last (n - 1) (n / 10) ((48 + n % 10) ∷ []) (omega (arith, h))

pub to_decimal-four : (n : ℕ) → 1000 ≤ n → n ≤ 9999 → to_decimal n ≡ four_digits n
to_decimal-four n l h =
    let fuel : n ≡ suc (suc (suc (n - 3))) = omega (arith, l) in
    let ones : Text = (48 + n % 10) ∷ [] in
    let tens : Text = (48 + n / 10 % 10) ∷ ones in
    let hundreds : Text = (48 + n / 10 / 10 % 10) ∷ tens in
    ap (λ f. decimal_digits (suc f) n []) fuel
    ∙ digits-more (suc (suc (suc (n - 3)))) n [] (omega (arith, l))
    ∙ digits-more (suc (suc (n - 3))) (n / 10) ones (omega (arith, l))
    ∙ digits-more (suc (n - 3)) (n / 10 / 10) tens (omega (arith, l))
    ∙ digits-last (n - 3) (n / 10 / 10 / 10) hundreds (omega (arith, h))
    ∙ same
  where
    same :
        (48 + n / 10 / 10 / 10) ∷ (48 + n / 10 / 10 % 10) ∷ (48 + n / 10 % 10) ∷ (48 + n % 10) ∷ []
        ≡ four_digits n
    same =
        let a : n / 10 / 10 / 10 ≡ n / 1000 = omega arith in
        let b : n / 10 / 10 ≡ n / 100 = omega arith in rw (a, b) refl
