-- ===== src/Float/Squares.antt =====
-- Squares, and the slope of a quadratic cost, where no operation rounds.
use scdtr_project.Prelude.{◌≡◌, sym, ap, ap₂, ◌∙◌, ◌⊎◌, inl, inr}
use scdtr_project.Float.{Float, nat}
use scdtr_project.Float.Exact.{add-zero, div_swap}
use scdtr_project.Float.Exact.{mul-zero}
use scdtr_project.Float.Exact.{
  IsExact, IsDivisor, add_left_comm, add-mul, sub-mul, sub_of, mul_left_comm,
}

module _ {ℓ} {F : Type ℓ} ⦃d : Float F⦄ (e : IsExact F) where
  pub mul-sub : (a b c : F) → d.mul a (d.sub b c) ≡ d.sub (d.mul a b) (d.mul a c)
  mul-sub a b c =
      e.mul_comm a (d.sub b c) ∙ sub-mul e b c a ∙ ap₂ d.sub (e.mul_comm b a) (e.mul_comm c a)

  pub sub_sub : (a b c : F) → d.sub (d.sub a b) c ≡ d.sub a (d.add b c)
  sub_sub a b c =
      let rest = d.sub (d.sub a b) c in
      sym (
        sub_of e a (d.add b c) rest (
          ap (d.add rest) (e.add_comm b c)
          ∙ sym (e.add_assoc rest c b)
          ∙ ap (λ x. d.add x b) (e.sub-add (d.sub a b) c)
          ∙ e.sub-add a b))

  -- From `a` to `x` by way of `s`.
  pub sub_by : (x s a : F) → d.sub x a ≡ d.add (d.sub x s) (d.sub s a)
  sub_by x s a = sub_of e x a (d.add (d.sub x s) (d.sub s a)) (
      e.add_assoc (d.sub x s) (d.sub s a) a
      ∙ ap (d.add (d.sub x s)) (e.sub-add s a)
      ∙ e.sub-add x s)

  pub add-sub_self : (y w : F) → d.add y (d.sub w y) ≡ w
  add-sub_self y w = e.add_comm y (d.sub w y) ∙ e.sub-add w y

  -- The slope at `s`, if `rho * s` is `w` beyond `rho * a - y`.
  pub slope_lem :
      (rho s a y w : F)
      → d.mul rho s ≡ d.add (d.sub (d.mul rho a) y) w
      → d.add y (d.mul rho (d.sub s a)) ≡ w
  slope_lem rho s a y w h =
      let ra = d.mul rho a in
      let q = d.sub ra y in
      ap (d.add y) (
        mul-sub rho s a
        ∙ ap (λ x. d.sub x ra) h
        ∙ sub_of e (d.add q w) ra (d.sub w y) (
            ap (d.add (d.sub w y)) (sym (e.sub-add ra y))
            ∙ add_left_comm e (d.sub w y) q y
            ∙ ap (d.add q) (e.sub-add w y)))
      ∙ add-sub_self y w

  -- The same with `c` taken off.
  pub own_slope_lem :
      (rho s a y w c : F)
      → d.mul rho s ≡ d.add (d.sub (d.sub (d.mul rho a) y) c) w
      → d.add c (d.add y (d.mul rho (d.sub s a))) ≡ w
  own_slope_lem rho s a y w c h =
      add_left_comm e c y (d.mul rho (d.sub s a))
      ∙ sym (e.add_assoc y c (d.mul rho (d.sub s a)))
      ∙ slope_lem rho s a (d.add y c) w (h ∙ ap (λ x. d.add x w) (sub_sub (d.mul rho a) y c))

  pub square_add :
      (t b : F)
      → d.mul (d.add t b) (d.add t b)
        ≡ d.add (d.mul b b) (d.add (d.mul t t) (d.mul (nat 2) (d.mul t b)))
  square_add t b =
      add-mul e t b (d.add t b)
      ∙ ap₂ d.add (e.mul-add t t b)
          (e.mul-add b t b ∙ ap (λ x. d.add x (d.mul b b)) (e.mul_comm b t))
      ∙ (e.add_assoc (d.mul t t) (d.mul t b) (d.add (d.mul t b) (d.mul b b)))
      ∙ simp (e.double, add_left_comm e, e.add_comm)

  -- The cost of an entry at `x`, from that at `s`.
  pub entry_cost :
      (rho x s a y : F)
      → IsDivisor {F = F} (nat 2)
      → let half = d.div rho (nat 2) in
        d.add (d.mul y (d.sub x a)) (d.mul half (d.sqr (d.sub x a)))
        ≡ d.add (d.add (d.mul y (d.sub s a)) (d.mul half (d.sqr (d.sub s a)))) (
            d.add
              (d.mul half (d.sqr (d.sub x s)))
              (d.mul (d.sub x s) (d.add y (d.mul rho (d.sub s a)))))
  entry_cost rho x s a y divides =
      let half = d.div rho (nat 2) in
      let t = d.sub x s in
      let b = d.sub s a in
      let crossed : d.mul half (d.mul (nat 2) (d.mul t b)) ≡ d.mul t (d.mul rho b) =
        sym (e.mul_assoc half (nat 2) (d.mul t b))
        ∙ ap (λ r. d.mul r (d.mul t b)) (divides rho)
        ∙ mul_left_comm e rho t b in
      ap₂ d.add (ap (d.mul y) (sub_by x s a) ∙ e.mul-add y t b) (
        ap (d.mul half)
          (e.sqr_mul (d.sub x a) ∙ ap (λ r. d.mul r r) (sub_by x s a) ∙ square_add t b)
        ∙ e.mul-add half (d.mul b b) _
        ∙ ap (d.add (d.mul half (d.mul b b))) (e.mul-add half (d.mul t t) _))
      ∙ simp (
        crossed,
        e.sqr_mul,
        e.mul-add t y (d.mul rho b),
        e.mul_comm y t,
        e.add_assoc,
        add_left_comm e,
        e.add_comm,
      )

  pub gather :
      (own entries far up rise : F)
      → d.add (d.add (d.add own entries) far) (d.add up rise)
        ≡ d.add (d.add up own) (d.add entries (d.add far rise))
  gather own entries far up rise = simp (e.add_assoc, add_left_comm e, e.add_comm)

  -- An entry that stays, or that goes up by `h` times its gain with its own cost.
  pub own_rise :
      (cost t g h k rest : F)
      → (t ≡ nat 0) ⊎ (d.add cost g ≡ d.mul h k)
      → d.add (d.mul cost t) (d.add (d.mul t g) (d.mul h rest)) ≡ d.mul h (d.add (d.mul t k) rest)
  own_rise cost t g h k rest (inl stays) =
      rw
        (
          stays,
          mul-zero e cost,
          e.mul_comm (nat 0) g,
          mul-zero e g,
          e.mul_comm (nat 0) k,
          mul-zero e k,
        )
        (e.zero-add _ ∙ e.zero-add _ ∙ ap (d.mul h) (sym (e.zero-add rest)))
  own_rise cost t g h k rest (inr steep) =
      sym (e.add_assoc (d.mul cost t) (d.mul t g) (d.mul h rest))
      ∙ ap (λ r. d.add r (d.mul h rest))
          (ap (λ r. d.add r (d.mul t g)) (e.mul_comm cost t)
            ∙ sym (e.mul-add t cost g)
            ∙ ap (d.mul t) steep
            ∙ mul_left_comm e t h k)
      ∙ sym (e.mul-add h (d.mul t k) rest)

  pub zero-mul : (a : F) → d.mul (nat 0) a ≡ nat 0
  zero-mul a = e.mul_comm (nat 0) a ∙ mul-zero e a

  sub_as_add : (z g k : F) → d.sub z (d.mul g k) ≡ d.add z (d.mul (d.sub (nat 0) g) k)
  sub_as_add z g k = sub_of e z (d.mul g k) (d.add z (d.mul (d.sub (nat 0) g) k)) (
      e.add_assoc z _ (d.mul g k)
      ∙ ap (d.add z) (
          sym (add-mul e (d.sub (nat 0) g) g k)
          ∙ ap (λ r. d.mul r k) (e.sub-add (nat 0) g)
          ∙ zero-mul k)
      ∙ add-zero e z)

  module _ (rho : F) (divides : IsDivisor {F = F} rho) where
    pub mul-per_rho : (z : F) → d.mul rho (d.mul (d.div (nat 1) rho) z) ≡ z
    mul-per_rho z =
        sym (e.mul_assoc rho (d.div (nat 1) rho) z)
        ∙ ap (λ r. d.mul r z) (e.mul_comm rho (d.div (nat 1) rho) ∙ divides (nat 1))
        ∙ e.one-mul z

    -- `rho` times an entry that is taken from `z` to the boundary.
    pub mul-linear :
        (z k m v : F)
        → d.mul rho (d.sub (d.mul (d.div (nat 1) rho) z) (d.mul (d.div k m) v))
          ≡ d.add z (d.mul (d.sub (nat 0) (d.mul rho (d.div v m))) k)
    mul-linear z k m v =
        mul-sub rho (d.mul (d.div (nat 1) rho) z) (d.mul (d.div k m) v)
        ∙ ap₂ d.sub (mul-per_rho z)
            (ap (d.mul rho) (div_swap e k v m) ∙ sym (e.mul_assoc rho (d.div v m) k))
        ∙ sub_as_add z (d.mul rho (d.div v m)) k

    pub mul-two :
        (z k m v u : F)
        → d.mul rho (
            d.add
              (d.sub (d.mul (d.div (nat 1) rho) z) (d.mul (d.div k m) v))
              (d.mul (d.div k (d.mul rho m)) u))
          ≡ d.add z (d.mul (d.add (d.sub (nat 0) (d.mul rho (d.div v m))) (d.div u m)) k)
    mul-two z k m v u =
        let g = d.sub (nat 0) (d.mul rho (d.div v m)) in
        e.mul-add rho _ (d.mul (d.div k (d.mul rho m)) u)
        ∙ ap₂ d.add (mul-linear z k m v) (
            ap (λ r. d.mul rho (d.mul r u)) (e.div-mul k rho m)
            ∙ ap (d.mul rho) (e.mul_assoc (d.div (nat 1) rho) (d.div k m) u)
            ∙ mul-per_rho (d.mul (d.div k m) u)
            ∙ div_swap e k u m)
        ∙ e.add_assoc z (d.mul g k) (d.mul (d.div u m) k)
        ∙ ap (d.add z) (sym (add-mul e g (d.div u m) k))

    -- An entry that stays at `z`, with the gain in no part.
    pub mul-free : (z k : F) → d.mul rho (d.mul (d.div (nat 1) rho) z) ≡ d.add z (d.mul (nat 0) k)
    mul-free z k = mul-per_rho z ∙ sym (ap (d.add z) (zero-mul k) ∙ add-zero e z)
