-- ===== src/Float/Exact.antt =====
-- The laws of numbers that are never rounded, for theorems on what the formulas of the sources say.
use scdtr_project.Prelude.{◌≡◌, refl, sym, ap, ◌∙◌}
use scdtr_project.Float.{Float, nat}

-- Exact arithmetic, as over the rational or the real numbers.
pub record IsExact {ℓ} (F : Type ℓ) ⦃d : Float F⦄ : Type ℓ where
  pub add_assoc : (a b c : F) → d.add (d.add a b) c ≡ d.add a (d.add b c)
  pub add_comm : (a b : F) → d.add a b ≡ d.add b a
  pub zero-add : (a : F) → d.add (nat 0) a ≡ a
  pub sub-add : (a b : F) → d.add (d.sub a b) b ≡ a
  pub add-sub : (a b : F) → d.sub (d.add a b) b ≡ a
  pub mul_assoc : (a b c : F) → d.mul (d.mul a b) c ≡ d.mul a (d.mul b c)
  pub mul_comm : (a b : F) → d.mul a b ≡ d.mul b a
  pub mul-add : (a b c : F) → d.mul a (d.add b c) ≡ d.add (d.mul a b) (d.mul a c)
  pub mul-div : (a b c : F) → d.div (d.mul a b) c ≡ d.mul a (d.div b c)
  pub div-mul : (a b c : F) → d.div a (d.mul b c) ≡ d.mul (d.div (nat 1) b) (d.div a c)
  pub sqr_mul : (a : F) → d.sqr a ≡ d.mul a a
  pub one-mul : (a : F) → d.mul (nat 1) a ≡ a
  pub double : (a : F) → d.mul (nat 2) a ≡ d.add a a

module _ {ℓ} {F : Type ℓ} ⦃d : Float F⦄ where
  -- A number that can be divided by: over a field, one that is not 0.
  abbrev pub IsDivisor : F → Type ℓ
  IsDivisor x = (a : F) → d.mul (d.div a x) x ≡ a

  module _ (e : IsExact F) where
    pub add_left_comm : (a b c : F) → d.add a (d.add b c) ≡ d.add b (d.add a c)
    add_left_comm a b c =
        sym (e.add_assoc a b c) ∙ ap (λ x. d.add x c) (e.add_comm a b) ∙ e.add_assoc b a c

    pub add_interchange :
        (a b c d' : F) → d.add (d.add a b) (d.add c d') ≡ d.add (d.add a c) (d.add b d')
    add_interchange a b c d' = simp (e.add_assoc, add_left_comm)

    pub mul_left_comm : (a b c : F) → d.mul a (d.mul b c) ≡ d.mul b (d.mul a c)
    mul_left_comm a b c =
        sym (e.mul_assoc a b c) ∙ ap (λ x. d.mul x c) (e.mul_comm a b) ∙ e.mul_assoc b a c

    pub sub_of : (a b c : F) → d.add c b ≡ a → d.sub a b ≡ c
    sub_of a b c h = rw (sym h) (e.add-sub c b)

    pub sub_interchange :
        (a b c d' : F) → d.sub (d.add a c) (d.add b d') ≡ d.add (d.sub a b) (d.sub c d')
    sub_interchange a b c d' =
        sub_of (d.add a c) (d.add b d') (d.add (d.sub a b) (d.sub c d'))
          (rw (add_interchange (d.sub a b) (d.sub c d') b d', e.sub-add a b, e.sub-add c d') refl)

    pub add-mul : (a b c : F) → d.mul (d.add a b) c ≡ d.add (d.mul a c) (d.mul b c)
    add-mul a b c =
        rw (e.mul_comm (d.add a b) c, e.mul-add c a b, e.mul_comm c a, e.mul_comm c b) refl

    pub sub-mul : (a b c : F) → d.mul (d.sub a b) c ≡ d.sub (d.mul a c) (d.mul b c)
    sub-mul a b c = sym (
        sub_of (d.mul a c) (d.mul b c) (d.mul (d.sub a b) c)
          (sym (add-mul (d.sub a b) b c) ∙ ap (λ x. d.mul x c) (e.sub-add a b)))

    pub add-zero : (a : F) → d.add a (nat 0) ≡ a
    add-zero a = e.add_comm a (nat 0) ∙ e.zero-add a

    pub sub_self : (a : F) → d.sub a a ≡ nat 0
    sub_self a = sub_of a a (nat 0) (e.zero-add a)

    pub mul-zero : (a : F) → d.mul a (nat 0) ≡ nat 0
    mul-zero a =
        sym (e.add-sub (d.mul a (nat 0)) (d.mul a (nat 0)))
        ∙ ap (λ x. d.sub x (d.mul a (nat 0)))
            (sym (e.mul-add a (nat 0) (nat 0)) ∙ ap (d.mul a) (e.zero-add (nat 0)))
        ∙ sub_self (d.mul a (nat 0))

    cancel : (a b c : F) → d.add a c ≡ d.add b c → a ≡ b
    cancel a b c h = sym (e.add-sub a c) ∙ ap (λ x. d.sub x c) h ∙ e.add-sub b c

    -- What is taken off what: `0 - (a - b) = b - a`.
    pub neg_sub : (a b : F) → d.sub (nat 0) (d.sub a b) ≡ d.sub b a
    neg_sub a b = sub_of (nat 0) (d.sub a b) (d.sub b a) (
        cancel (d.add (d.sub b a) (d.sub a b)) (nat 0) b (
          e.add_assoc (d.sub b a) (d.sub a b) b
          ∙ ap (d.add (d.sub b a)) (e.sub-add a b)
          ∙ e.sub-add b a
          ∙ sym (e.zero-add b)))

    pub add-neg : (a b : F) → d.add a (d.sub b (d.add b a)) ≡ nat 0
    add-neg a b = cancel (d.add a (d.sub b (d.add b a))) (nat 0) b (
        simp
          (e.add_comm a (d.sub b (d.add b a)), e.add_assoc, e.add_comm a b, e.sub-add, e.zero-add))

    pub sub-add_right : (a b : F) → d.sub a (d.add b a) ≡ d.sub (nat 0) b
    sub-add_right a b = sub_of a (d.add b a) (d.sub (nat 0) b) (
        sym (e.add_assoc (d.sub (nat 0) b) b a)
        ∙ ap (λ x. d.add x a) (e.sub-add (nat 0) b)
        ∙ e.zero-add a)

    pub div_swap : (a b m : F) → d.mul (d.div a m) b ≡ d.mul (d.div b m) a
    div_swap a b m =
        e.mul_comm (d.div a m) b
        ∙ sym (e.mul-div b a m)
        ∙ ap (λ x. d.div x m) (e.mul_comm b a)
        ∙ e.mul-div a b m
        ∙ e.mul_comm a (d.div b m)

    -- What is added and taken off again falls out.
    pub linear-cancel :
        (p a u v : F)
        → d.add a u ≡ nat 0
        → d.add (d.sub (d.mul p a) v) (d.mul p u) ≡ d.sub (nat 0) v
    linear-cancel p a u v h =
        let rest = d.sub (d.mul p a) v in
        sym (
          sub_of (nat 0) v (d.add rest (d.mul p u)) (
            e.add_assoc rest (d.mul p u) v
            ∙ ap (d.add rest) (e.add_comm (d.mul p u) v)
            ∙ sym (e.add_assoc rest v (d.mul p u))
            ∙ ap (λ x. d.add x (d.mul p u)) (e.sub-add (d.mul p a) v)
            ∙ sym (e.mul-add p a u)
            ∙ ap (d.mul p) h
            ∙ mul-zero p))

    pub give_back : (w y : F) → d.add w (d.sub (nat 0) (d.add y w)) ≡ d.sub (nat 0) y
    give_back w y =
        let q = d.sub (nat 0) (d.add y w) in
        sym (
          sub_of (nat 0) y (d.add w q) (
            e.add_assoc w q y
            ∙ add_left_comm w q y
            ∙ ap (d.add q) (e.add_comm w y)
            ∙ e.sub-add (nat 0) (d.add y w)))
