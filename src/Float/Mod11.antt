-- ===== src/Float/Mod11.antt =====
-- A number format that never rounds, for theorems on exact arithmetic: the integers modulo 11, where
-- every number but 0 can be divided by. It has no order.
use scdtr_project.Prelude.{
  ℕ, zero, suc, ◌+◌, ◌*◌, ◌%◌, ◌^◌, ◌<◌, ◌≡◌, refl, sym, ap, ◌∙◌, Bool, true, false, ◌&&◌, none,
  List, [], ◌∷◌, arith, ◌==◌, ==_iff, length, get_or,
}
use scdtr_project.Prelude.Int.{ℤ, pos, negsuc}
use scdtr_project.Float.{Float}
use scdtr_project.Float.Exact.{IsExact, IsDivisor}

pub data Mod11 : Type 0 where
  r0 r1 r2 r3 r4 r5 r6 r7 r8 r9 r10 : Mod11

abbrev residue : Mod11 → ℕ
residue r0 = 0
residue r1 = 1
residue r2 = 2
residue r3 = 3
residue r4 = 4
residue r5 = 5
residue r6 = 6
residue r7 = 7
residue r8 = 8
residue r9 = 9
residue r10 = 10

abbrev residues : List Mod11
residues = r0 ∷ r1 ∷ r2 ∷ r3 ∷ r4 ∷ r5 ∷ r6 ∷ r7 ∷ r8 ∷ r9 ∷ r10 ∷ []

abbrev pub of_nat : ℕ → Mod11
of_nat n = get_or residues (n % 11) r0

abbrev add : Mod11 → Mod11 → Mod11
add a b = of_nat (residue a + residue b)

abbrev mul : Mod11 → Mod11 → Mod11
mul a b = of_nat (residue a * residue b)

abbrev sub : Mod11 → Mod11 → Mod11
sub a b = of_nat (residue a + 10 * residue b)

-- The reciprocal of a number is its ninth power.
abbrev div : Mod11 → Mod11 → Mod11
div a b = of_nat (residue a * residue b ^ 9)

abbrev of_int : ℤ → Mod11
of_int (pos n) = of_nat n
of_int (negsuc n) = of_nat (10 * (n + 1))

instance abbrev pub mod11 : Float Mod11
mod11 = record {
  ratio = λ n d. div (of_nat n) (of_nat d);
  of_int = of_int;
  add = add;
  sub = sub;
  mul = mul;
  div = div;
  lt = λ a b. false;
  le = λ a b. false;
  eq = λ a b. residue a == residue b;
  round16 = residue;
  trunc16 = residue;
  trunc_u16 = residue;
  trunc_u8 = residue;
  to_bits = residue;
  of_bits = of_nat;
  stof = λ s. none;
  sqr = λ a. mul a a;
  pow10 = λ a. a;
  log10 = λ a. a;
  log = λ a. a;
  exp = λ a. a;
}

not_both : false ≡ true → ⊥
not_both h = cc

and_true : (a b : Bool) → (a && b) ≡ true → (a ≡ true) × (b ≡ true)
and_true true b h = (refl, h)
and_true false b h = absurd (not_both h)

-- What holds of every residue, by trying them all.
abbrev all_of : List Mod11 → (Mod11 → Bool) → Bool
all_of [] p = true
all_of (x ∷ xs) p = p x && all_of xs p

abbrev every : (Mod11 → Bool) → Bool
every = all_of residues

all_of-holds :
    (xs : List Mod11) (p : Mod11 → Bool) (i : ℕ)
    → all_of xs p ≡ true
    → i < length xs
    → p (get_or xs i r0) ≡ true
all_of-holds [] p i h inside = absurd (omega arith)
all_of-holds (x ∷ xs) p zero h inside = (and_true (p x) (all_of xs p) h).0
all_of-holds (x ∷ xs) p (suc i) h inside =
    all_of-holds xs p i (and_true (p x) (all_of xs p) h).1 (omega arith)

every-holds : (p : Mod11 → Bool) → every p ≡ true → (a : Mod11) → p a ≡ true
every-holds p h r0 = all_of-holds residues p 0 h (omega arith)
every-holds p h r1 = all_of-holds residues p 1 h (omega arith)
every-holds p h r2 = all_of-holds residues p 2 h (omega arith)
every-holds p h r3 = all_of-holds residues p 3 h (omega arith)
every-holds p h r4 = all_of-holds residues p 4 h (omega arith)
every-holds p h r5 = all_of-holds residues p 5 h (omega arith)
every-holds p h r6 = all_of-holds residues p 6 h (omega arith)
every-holds p h r7 = all_of-holds residues p 7 h (omega arith)
every-holds p h r8 = all_of-holds residues p 8 h (omega arith)
every-holds p h r9 = all_of-holds residues p 9 h (omega arith)
every-holds p h r10 = all_of-holds residues p 10 h (omega arith)

of_nat-residue : (a : Mod11) → of_nat (residue a) ≡ a
of_nat-residue r0 = refl
of_nat-residue r1 = refl
of_nat-residue r2 = refl
of_nat-residue r3 = refl
of_nat-residue r4 = refl
of_nat-residue r5 = refl
of_nat-residue r6 = refl
of_nat-residue r7 = refl
of_nat-residue r8 = refl
of_nat-residue r9 = refl
of_nat-residue r10 = refl

-- Equal residues.
same : {a b : Mod11} → (residue a == residue b) ≡ true → a ≡ b
same {a} {b} h =
    sym (of_nat-residue a) ∙ ap of_nat ((==_iff (residue a) (residue b)).0 h) ∙ of_nat-residue b

law2 :
    (f g : Mod11 → Mod11 → Mod11)
    → every (λ a. every (λ b. residue (f a b) == residue (g a b))) ≡ true
    → (a b : Mod11) → f a b ≡ g a b
law2 f g h a b = same (
    every-holds (λ y. residue (f a y) == residue (g a y))
      (every-holds (λ x. every (λ y. residue (f x y) == residue (g x y))) h a) b)

law3 :
    (f g : Mod11 → Mod11 → Mod11 → Mod11)
    → every (λ a. every (λ b. every (λ c. residue (f a b c) == residue (g a b c)))) ≡ true
    → (a b c : Mod11) → f a b c ≡ g a b c
law3 f g h a =
    law2 (f a) (g a)
      (every-holds (λ x. every (λ b. every (λ c. residue (f x b c) == residue (g x b c)))) h a)

pub mod11-IsExact : IsExact Mod11
mod11-IsExact = record {
  add_assoc = law3 (λ a b c. add (add a b) c) (λ a b c. add a (add b c)) refl;
  add_comm = law2 add (λ a b. add b a) refl;
  zero-add = λ a. same (every-holds (λ y. residue (add r0 y) == residue y) refl a);
  sub-add = law2 (λ a b. add (sub a b) b) (λ a b. a) refl;
  add-sub = law2 (λ a b. sub (add a b) b) (λ a b. a) refl;
  mul_assoc = law3 (λ a b c. mul (mul a b) c) (λ a b c. mul a (mul b c)) refl;
  mul_comm = law2 mul (λ a b. mul b a) refl;
  mul-add = law3 (λ a b c. mul a (add b c)) (λ a b c. add (mul a b) (mul a c)) refl;
  mul-div = law3 (λ a b c. div (mul a b) c) (λ a b c. mul a (div b c)) refl;
  div-mul = law3 (λ a b c. div a (mul b c)) (λ a b c. mul (div (of_nat 1) b) (div a c)) refl;
  sqr_mul = λ a. refl;
  one-mul = λ a. same (every-holds (λ y. residue (mul r1 y) == residue y) refl a);
  double = λ a. same (every-holds (λ y. residue (mul r2 y) == residue (add y y)) refl a);
}

-- A number that gives back every dividend divides.
pub divides : (x : Mod11) → every (λ a. residue (mul (div a x) x) == residue a) ≡ true → IsDivisor x
divides x h a = same (every-holds (λ y. residue (mul (div y x) x) == residue y) h a)
