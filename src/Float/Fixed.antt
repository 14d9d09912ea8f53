-- ===== src/Float/Fixed.antt =====
-- A number format that computes, for runs of the model: thousandths with a sign. `pow10`, `log10`,
-- `log` and `exp` are stand-ins that leave their argument as it is, and `stof` reads whole numbers only.
use scdtr_project.Prelude.{
  ℕ, ◌+◌, ◌*◌, ◌/◌, ◌%◌, ◌<◌, ◌&&◌, Option, none, some, arith, ◌==◌, if◌then◌else◌, stoi,
}
use mathlib.Core.Bool.{xor}
use scdtr_project.Prelude.Int.{
  ℤ, pos, negsuc, magnitude, is_neg, signed, pattern16, ltb_ℤ, leb_ℤ, ◌+ℤ◌, ◌-ℤ◌,
}
use scdtr_project.Float.{Float, IsTransitive}

abbrev pub Fixed : Type 0
Fixed = ℤ

abbrev scale : ℕ
scale = 1000

abbrev fixed_bits : ℤ → ℕ
fixed_bits (pos n) = 2 * n
fixed_bits (negsuc n) = 2 * n + 1

abbrev with_sign : ℤ → ℕ → ℤ
with_sign a n = signed (is_neg a) n

abbrev whole : Option ℤ → Option ℤ
whole none = none
whole (some n) = some (with_sign n (magnitude n * scale))

instance abbrev pub fixed : Float ℤ
fixed = record {
  ratio = λ n d. pos (n * scale / d);
  of_int = λ a. with_sign a (magnitude a * scale);
  add = ◌+ℤ◌;
  sub = ◌-ℤ◌;
  mul = λ a b. signed (xor (is_neg a) (is_neg b)) (magnitude a * magnitude b / scale);
  div = λ a b. signed (xor (is_neg a) (is_neg b)) (magnitude a * scale / magnitude b);
  lt = ltb_ℤ;
  le = leb_ℤ;
  eq = λ a b. leb_ℤ a b && leb_ℤ b a;
  round16 = λ a. pattern16 (with_sign a ((magnitude a + 500) / scale));
  trunc16 = λ a. pattern16 (with_sign a (magnitude a / scale));
  trunc_u16 = λ a. magnitude a / scale % 65536;
  trunc_u8 = λ a. magnitude a / scale % 256;
  to_bits = fixed_bits;
  of_bits = λ w. if w % 2 == 0 then pos (w / 2) else negsuc (w / 2);
  stof = λ s. whole (stoi s);
  sqr = λ a. pos (magnitude a * magnitude a / scale);
  pow10 = λ a. a;
  log10 = λ a. a;
  log = λ a. a;
  exp = λ a. a;
}

pub Fixed-IsTransitive : IsTransitive ℤ
Fixed-IsTransitive = record { lt_trans = λ x y z h k. ground arith; lt_irrefl = λ x. ground arith }

pub to_bits-lt : (a : ℤ) → magnitude a < 2147483648 → fixed_bits a < 4294967296
to_bits-lt (pos n) h = omega arith
to_bits-lt (negsuc n) h = omega arith
