-- ===== src/Float.antt =====
-- `float`: the number format of the microcontroller, where `double` is the same 32-bit format.
-- It belongs to the machine and not to the program, so it is an interface: the constants, the
-- operations and the comparisons that the sources use. Laws are named hypotheses of the theorems
-- that need them. `Fixed` is an instance that computes.
pub mod Exact
pub mod Mod11
pub mod Squares
pub mod Fixed
use scdtr_project.Prelude.{ℕ, ◌<◌, ◌≡◌, Bool, true, false, Option, List, if◌then◌else◌}
use scdtr_project.Prelude.Int.{ℤ, pos}

pub record Float {ℓ} (F : Type ℓ) : Type ℓ where
  -- The literal `n / d`, as `ratio 7 100` for 0.07.
  pub ratio : ℕ → ℕ → F
  -- The value of an integer.
  pub of_int : ℤ → F
  pub add : F → F → F
  pub sub : F → F → F
  pub mul : F → F → F
  pub div : F → F → F
  -- `<`, `<=` and `==`, which are all false where a side is NaN.
  pub lt : F → F → Bool
  pub le : F → F → Bool
  pub eq : F → F → Bool
  -- Conversions to `int16_t` (rounded, and truncated), `uint16_t` and `uint8_t` bit patterns.
  pub round16 : F → ℕ
  pub trunc16 : F → ℕ
  pub trunc_u16 : F → ℕ
  pub trunc_u8 : F → ℕ
  -- The union `Convertion`: the four bytes as one number, low byte first in memory.
  pub to_bits : F → ℕ
  pub of_bits : ℕ → F
  -- `std::stof`; `none` is an exception.
  pub stof : List ℕ → Option F
  -- `pow(x, 2)`
  pub sqr : F → F
  -- `pow(10, x)`, `log10`, `log` and `exp` of the C library.
  pub pow10 : F → F
  pub log10 : F → F
  pub log : F → F
  pub exp : F → F

module _ {ℓ} {F : Type ℓ} ⦃d : Float F⦄ where
  abbrev pub nat : ℕ → F
  nat n = d.of_int (pos n)

  abbrev pub neg : F → F
  neg x = d.sub (nat 0) x

  -- `abs` is a macro of the platform: `(x) > 0 ? (x) : -(x)`.
  abbrev pub abs : F → F
  abs x = if d.lt (nat 0) x then x else neg x

-- `<` is transitive: an IEEE order is, with or without NaN.
pub record IsTransitive {ℓ} (F : Type ℓ) ⦃d : Float F⦄ : Type ℓ where
  pub lt_trans : (x y z : F) → d.lt x y ≡ true → d.lt y z ≡ true → d.lt x z ≡ true
  pub lt_irrefl : (x : F) → d.lt x x ≡ false

-- A value whose bit pattern has 32 bits and gives the value back, as that of every `float` does.
abbrev pub IsPacked {ℓ} : {F : Type ℓ} ⦃d : Float F⦄ → F → Type ℓ
IsPacked ⦃d⦄ x = (d.to_bits x < 4294967296) × (d.of_bits (d.to_bits x) ≡ x)
