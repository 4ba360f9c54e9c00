-- ===== src/Decimal/Unary.antt =====
-- The concrete arithmetic with a print of every decimal that is read back: a sign, then one mark for
-- each unit.
use hype_trigger_twap.Prelude.{
  ℕ, zero, suc, ◌≡◌, refl, Option, none, some, String, ◌==◌, if◌then◌else◌, ap,
}
use Prim.Native.Char.{code}
use hype_trigger_twap.Decimal.{DecimalApi}
use hype_trigger_twap.Decimal.Laws.{DecimalLaws}
use hype_trigger_twap.Decimal.Fixed.{Fixed, pos, negsuc, fixed, fixed_laws}

abbrev marks : ℕ → String
marks zero = String.[]
marks (suc n) = String.◌∷◌ "u" (marks n)

abbrev count : String → ℕ
count (String.◌∷◌ letter rest) = suc (count rest)
count String.[] = zero

abbrev print : Fixed → String
print (pos n) = String.◌∷◌ "+" (marks n)
print (negsuc n) = String.◌∷◌ "-" (marks n)

abbrev read : String → Option Fixed
read String.[] = none
read (String.◌∷◌ sign rest) =
    if code sign == b'+'
    then some (pos (count rest))
    else if code sign == b'-'
    then some (negsuc (count rest))
    else none

abbrev pub unary : DecimalApi
unary = record fixed { to_string = print; parse = read }

count-marks : (n : ℕ) → count (marks n) ≡ n
count-marks zero = refl
count-marks (suc n) = ap suc (count-marks n)

pub read-print : (d : Fixed) → read (print d) ≡ some d
read-print (pos n) = ap (λ k. some (pos k)) (count-marks n)
read-print (negsuc n) = ap (λ k. some (negsuc k)) (count-marks n)

pub unary_laws : DecimalLaws unary
unary_laws = record {
  one_sign = fixed_laws.one_sign;
  plus-new = fixed_laws.plus-new;
  minus-new = fixed_laws.minus-new;
  add_value = fixed_laws.add_value;
  sub_value = fixed_laws.sub_value;
  plus-neg = fixed_laws.plus-neg;
  minus-neg = fixed_laws.minus-neg;
  plus-abs = fixed_laws.plus-abs;
  minus-abs = fixed_laws.minus-abs;
  plus-mul_nat = fixed_laws.plus-mul_nat;
  minus-mul_nat = fixed_laws.minus-mul_nat;
  mul_nonneg = fixed_laws.mul_nonneg;
  div_nonneg = fixed_laws.div_nonneg;
  div_nat-le = fixed_laws.div_nat-le;
  checked_add_value = fixed_laws.checked_add_value;
  checked_sub_value = fixed_laws.checked_sub_value;
  checked_mul_nonneg = fixed_laws.checked_mul_nonneg;
  checked_mul_nat = fixed_laws.checked_mul_nat;
  plus-to_zero = fixed_laws.plus-to_zero;
  minus-to_zero = fixed_laws.minus-to_zero;
  plus-to_positive_infinity = fixed_laws.plus-to_positive_infinity;
  minus-to_positive_infinity = fixed_laws.minus-to_positive_infinity;
  plus-to_negative_infinity = fixed_laws.plus-to_negative_infinity;
  minus-to_negative_infinity = fixed_laws.minus-to_negative_infinity;
}
