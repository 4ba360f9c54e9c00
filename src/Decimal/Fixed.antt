-- ===== src/Decimal/Fixed.antt =====
-- A concrete arithmetic that meets the laws: whole numbers of units of 10^-28, with no upper
-- bound. The examples run on it.
use hype_trigger_twap.Prelude.{
  ℕ, suc, ◌+◌, ◌-◌, ◌*◌, ◌/◌, ◌^◌, Option, none, some, String, leb, ◌==◌, if◌then◌else◌, str_eq,
  ◌≤◌, ◌<◌, ◌≡◌, arith, refl, inl, inr, ◌⊎◌, sym, ◌∙◌, zero, ap,
}
use mathlib.Core.Path.{subst}
use mathlib.Core.Option.{some-injective}
use native.Mathlib.Nat.{
  mul_assoc, mul-div_cancel, mul-div-mul_right, div-mul-le_self, one-le-pow, zero-div, div-eq_of_lt,
}
use hype_trigger_twap.Decimal.{
  DecimalApi, Strategy, to_zero, to_positive_infinity, to_negative_infinity, unit, step_of,
}
use hype_trigger_twap.Decimal.Laws.{last_step, DecimalLaws, IsSum, IsDifference, floor_to, ceil_to}

-- `negsuc n` is -(n + 1) units.
pub data Fixed : Type 0 where
  pos : ℕ → Fixed
  negsuc : ℕ → Fixed

abbrev pos_part : Fixed → ℕ
pos_part (pos n) = n
pos_part (negsuc n) = 0

abbrev neg_part : Fixed → ℕ
neg_part (pos n) = 0
neg_part (negsuc n) = suc n

-- a - b
abbrev difference : ℕ → ℕ → Fixed
difference a b = if leb b a then pos (a - b) else negsuc (b - a - 1)

abbrev add_fixed : Fixed → Fixed → Fixed
add_fixed a b = difference (pos_part a + pos_part b) (neg_part a + neg_part b)

abbrev sub_fixed : Fixed → Fixed → Fixed
sub_fixed a b = difference (pos_part a + neg_part b) (neg_part a + pos_part b)

-- -m
abbrev minus_of : ℕ → Fixed
minus_of m = difference 0 m

abbrev mul_fixed : Fixed → Fixed → Fixed
mul_fixed (pos a) (pos b) = pos (a * b / unit)
mul_fixed (pos a) (negsuc b) = minus_of (a * suc b / unit)
mul_fixed (negsuc a) (pos b) = minus_of (suc a * b / unit)
mul_fixed (negsuc a) (negsuc b) = pos (suc a * suc b / unit)

-- A quotient by 0 is 0 here; the code tests for it first.
abbrev div_fixed : Fixed → Fixed → Fixed
div_fixed (pos a) (pos b) = pos (a * unit / b)
div_fixed (pos a) (negsuc b) = minus_of (a * unit / suc b)
div_fixed (negsuc a) (pos b) = minus_of (suc a * unit / b)
div_fixed (negsuc a) (negsuc b) = pos (suc a * unit / suc b)

abbrev round_fixed : Fixed → ℕ → Strategy → Fixed
round_fixed (pos a) n to_zero = pos (floor_to (step_of n) a)
round_fixed (pos a) n to_positive_infinity = pos (ceil_to (step_of n) a)
round_fixed (pos a) n to_negative_infinity = pos (floor_to (step_of n) a)
round_fixed (negsuc a) n to_zero = minus_of (floor_to (step_of n) (suc a))
round_fixed (negsuc a) n to_positive_infinity = minus_of (floor_to (step_of n) (suc a))
round_fixed (negsuc a) n to_negative_infinity = minus_of (ceil_to (step_of n) (suc a))

-- The texts that the examples read.
abbrev parse_fixed : String → Option Fixed
parse_fixed s =
    if str_eq s "0"
    then some (pos 0)
    else if str_eq s "1"
    then some (pos unit)
    else if str_eq s "2"
    then some (pos (2 * unit))
    else if str_eq s "10"
    then some (pos (10 * unit))
    else if str_eq s "40"
    then some (pos (40 * unit))
    else if str_eq s "1000"
    then some (pos (1000 * unit))
    else none

abbrev print_fixed : Fixed → String
print_fixed a =
    if pos_part a == unit
    then "1"
    else if pos_part a == 2 * unit
    then "2"
    else if pos_part a == 10 * unit
    then "10"
    else if pos_part a == 40 * unit
    then "40"
    else if pos_part a == 1000 * unit
    then "1000"
    else "0"

abbrev pub fixed : DecimalApi
fixed = record {
  Decimal = Fixed;
  plus = pos_part;
  minus = neg_part;
  new = λ m s. pos (m * step_of s);
  max_value = pos ((2 ^ 96 - 1) * unit);
  add = add_fixed;
  sub = sub_fixed;
  mul = mul_fixed;
  div = div_fixed;
  neg = λ a. difference (neg_part a) (pos_part a);
  abs = λ a. pos (pos_part a + neg_part a);
  checked_add = λ a b. some (add_fixed a b);
  checked_sub = λ a b. some (sub_fixed a b);
  checked_mul = λ a b. some (mul_fixed a b);
  checked_div = λ a b. if pos_part b + neg_part b == 0 then none else some (div_fixed a b);
  round_dp = round_fixed;
  trunc = λ a. round_fixed a 0 to_zero;
  normalize = λ a. a;
  to_string = print_fixed;
  parse = parse_fixed;
}

one_sign_fixed : (a : Fixed) → (pos_part a ≡ 0) ⊎ (neg_part a ≡ 0)
one_sign_fixed (pos n) = inr refl
one_sign_fixed (negsuc n) = inl refl

sum_fixed :
    (a b : Fixed)
    → pos_part (add_fixed a b) + neg_part a + neg_part b
      ≡ neg_part (add_fixed a b) + pos_part a + pos_part b
sum_fixed a b = ground arith

difference_fixed :
    (a b : Fixed)
    → pos_part (sub_fixed a b) + neg_part a + pos_part b
      ≡ neg_part (sub_fixed a b) + pos_part a + neg_part b
difference_fixed a b = ground arith

parts_minus_of : (m : ℕ) → (pos_part (minus_of m) ≡ 0) × (neg_part (minus_of m) ≡ m)
parts_minus_of m = ground arith

scale_unit : (k n : ℕ) → k * (n * step_of 0) / unit ≡ k * n
scale_unit k n = rw (← mul_assoc) (mul-div_cancel (k * n) (omega arith))

mul_nat_fixed :
    (a : Fixed) (n : ℕ)
    → (pos_part (mul_fixed a (pos (n * step_of 0))) ≡ pos_part a * n)
      × (neg_part (mul_fixed a (pos (n * step_of 0))) ≡ neg_part a * n)
mul_nat_fixed (pos k) n = (scale_unit k n, omega arith)
mul_nat_fixed (negsuc k) n =
    ((parts_minus_of _).0 ∙ omega arith, (parts_minus_of _).1 ∙ scale_unit (suc k) n)

mul_nonneg_fixed : (a b : Fixed) → neg_part a ≡ 0 → neg_part b ≡ 0 → neg_part (mul_fixed a b) ≡ 0
mul_nonneg_fixed (pos a) (pos b) h k = refl
mul_nonneg_fixed (pos a) (negsuc b) h k = absurd (omega arith)
mul_nonneg_fixed (negsuc a) b h k = absurd (omega arith)

div_nonneg_fixed : (a b : Fixed) → neg_part a ≡ 0 → neg_part b ≡ 0 → neg_part (div_fixed a b) ≡ 0
div_nonneg_fixed (pos a) (pos b) h k = refl
div_nonneg_fixed (pos a) (negsuc b) h k = absurd (omega arith)
div_nonneg_fixed (negsuc a) b h k = absurd (omega arith)

div_nat_fixed :
    (a : Fixed) (n : ℕ)
    → neg_part a ≡ 0
    → 2 * (pos_part (div_fixed a (pos (n * step_of 0))) * n)
      ≤ 2 * pos_part a + n + last_step (pos_part a)
div_nat_fixed (pos a) zero h = omega arith
div_nat_fixed (pos a) (suc n) h =
    let whole : a * unit / (suc n * unit) ≡ a / suc n =
      mul-div-mul_right {m = unit} a (suc n) (omega arith) in
    let below : a / suc n * suc n ≤ a = div-mul-le_self a (suc n) in rw whole (omega (arith, below))
div_nat_fixed (negsuc a) n h = absurd (omega arith)

step_pos : (n : ℕ) → 0 < step_of n
step_pos n = one-le-pow (28 - n) 10 (omega arith)

floor_zero : (g : ℕ) → floor_to g 0 ≡ 0
floor_zero g = rw zero-div (omega arith)

ceil_zero : (g : ℕ) → 0 < g → ceil_to g 0 ≡ 0
ceil_zero g h =
    let none_left : (0 + (g - 1)) / g ≡ 0 = div-eq_of_lt (omega arith) in
    ap (λ q. q * g) none_left ∙ omega arith

round_parts :
    (a : Fixed) (n : ℕ)
    → (pos_part (round_fixed a n to_zero) ≡ floor_to (step_of n) (pos_part a))
      × (neg_part (round_fixed a n to_zero) ≡ floor_to (step_of n) (neg_part a))
      × (pos_part (round_fixed a n to_positive_infinity) ≡ ceil_to (step_of n) (pos_part a))
      × (neg_part (round_fixed a n to_positive_infinity) ≡ floor_to (step_of n) (neg_part a))
      × (pos_part (round_fixed a n to_negative_infinity) ≡ floor_to (step_of n) (pos_part a))
      × (neg_part (round_fixed a n to_negative_infinity) ≡ ceil_to (step_of n) (neg_part a))
round_parts (pos a) n =
    let f = sym (floor_zero (step_of n)) in
    let c = sym (ceil_zero (step_of n) (step_pos n)) in (refl, f, refl, f, refl, c)
round_parts (negsuc a) n =
    let f = sym (floor_zero (step_of n)) in
    let c = sym (ceil_zero (step_of n) (step_pos n)) in
    let low = parts_minus_of (floor_to (step_of n) (suc a)) in
    let high = parts_minus_of (ceil_to (step_of n) (suc a)) in
    (low.0 ∙ f, low.1, low.0 ∙ c, low.1, high.0 ∙ f, high.1)

neg_parts :
    (a : Fixed)
    → (pos_part (difference (neg_part a) (pos_part a)) ≡ neg_part a)
      × (neg_part (difference (neg_part a) (pos_part a)) ≡ pos_part a)
neg_parts (pos a) = ground arith
neg_parts (negsuc a) = ground arith

-- The laws can be met.
pub fixed_laws : DecimalLaws fixed
fixed_laws = record {
  one_sign = one_sign_fixed;
  plus-new = λ m s _. refl;
  minus-new = λ m s. refl;
  add_value = sum_fixed;
  sub_value = difference_fixed;
  plus-neg = λ a. (neg_parts a).0;
  minus-neg = λ a. (neg_parts a).1;
  plus-abs = λ a. refl;
  minus-abs = λ a. refl;
  plus-mul_nat = λ a n. (mul_nat_fixed a n).0;
  minus-mul_nat = λ a n. (mul_nat_fixed a n).1;
  mul_nonneg = mul_nonneg_fixed;
  div_nonneg = div_nonneg_fixed;
  div_nat-le = div_nat_fixed;
  checked_add_value = λ a b h. subst (IsSum fixed a b) (some-injective _ _ h) (sum_fixed a b);
  checked_sub_value =
      λ a b h. subst (IsDifference fixed a b) (some-injective _ _ h) (difference_fixed a b);
  checked_mul_nat = λ a n h.
      subst (λ c. (pos_part c ≡ pos_part a * n) × (neg_part c ≡ neg_part a * n))
        (some-injective _ _ h) (mul_nat_fixed a n);
  checked_mul_nonneg =
      λ a b h p q. subst (λ c. neg_part c ≡ 0) (some-injective _ _ h) (mul_nonneg_fixed a b p q);
  plus-to_zero = λ a n. (round_parts a n).0;
  minus-to_zero = λ a n. (round_parts a n).1;
  plus-to_positive_infinity = λ a n. (round_parts a n).2;
  minus-to_positive_infinity = λ a n. (round_parts a n).3;
  plus-to_negative_infinity = λ a n. (round_parts a n).4;
  minus-to_negative_infinity = λ a n. (round_parts a n).5;
}
