-- ===== src/Text/Numbers.antt =====
-- Numbers that are printed and read again.
use dontmove_kit.Prelude.{
  ℕ, zero, suc, ◌+◌, ◌*◌, ◌/◌, ◌%◌, ◌<◌, ◌≡◌, refl, ◌∙◌, inl, inr, true, some, [], ◌∷◌, ◌++◌, ltb,
  all, Bool-cases, arith,
}
use dontmove_kit.Text.{
  Text, txt, has_prefix, cut, drop, is_digit, digits_value, print_fuel, print_nat,
}

digits_value-digit :
    (b d m : ℕ) (s : Text)
    → d < 10
    → m ≡ b * 10 + d
    → digits_value b ((48 + d) ∷ s) ≡ digits_value m s
unfolding digits_value
digits_value-digit b d m s h e = ground arith

-- The digits of a number in front of a text are read as the number.
digits_value-print_fuel :
    (f n : ℕ) (s : Text) → n < f → digits_value 0 (print_fuel f n s) ≡ digits_value n s
unfolding print_fuel
digits_value-print_fuel zero n s h = ground arith
digits_value-print_fuel (suc f) n s h = elim (Bool-cases (ltb n 10)) [
  | inl small ↦ rw small (digits_value-digit 0 n n s (ground arith) (omega arith))
  | inr large ↦ rw large (
      digits_value-print_fuel f (n / 10) ((48 + n % 10) ∷ s) (ground arith)
      ∙ digits_value-digit (n / 10) (n % 10) n s (omega arith) (omega arith))
]

pub digits_value-print_nat : (n : ℕ) → digits_value 0 (print_nat n) ≡ some n
unfolding print_nat digits_value
digits_value-print_nat n = digits_value-print_fuel (suc n) n [] (omega arith)

all_digits-digit :
    (d : ℕ) (s : Text) → d < 10 → all is_digit s ≡ true → all is_digit ((48 + d) ∷ s) ≡ true
all_digits-digit d s h digits = ground arith

print_fuel-all_digits :
    (f n : ℕ) (s : Text) → all is_digit s ≡ true → all is_digit (print_fuel f n s) ≡ true
unfolding print_fuel
print_fuel-all_digits zero n s h = h
print_fuel-all_digits (suc f) n s h = elim (Bool-cases (ltb n 10)) [
  | inl small ↦ rw small (all_digits-digit n s (ground arith) h)
  | inr large ↦ rw large (
      print_fuel-all_digits f (n / 10) ((48 + n % 10) ∷ s)
        (all_digits-digit (n % 10) s (omega arith) h))
]

cut-digits : (a b : Text) → all is_digit a ≡ true → cut (a ++ (58 ∷ b)) (txt ":") ≡ some (a, b)
unfolding cut has_prefix drop
cut-digits [] b h = refl
cut-digits (c ∷ a) b h = ground (arith, cut-digits a b)

-- A number up to a colon.
pub cut-print_nat :
    (n : ℕ) (b : Text) → cut (print_nat n ++ (58 ∷ b)) (txt ":") ≡ some (print_nat n, b)
unfolding print_nat
cut-print_nat n b = cut-digits (print_nat n) b (print_fuel-all_digits (suc n) n [] refl)
