-- ===== src/Consensus/Boundary.antt =====
-- The candidates of `consensus_iterate` of src/consensus.cpp that lie on the linear boundary.
use scdtr_project.Prelude.{ℕ, ◌≡◌, sym, ap, ap₂, ◌∙◌, fun_ext, Bool}
use scdtr_project.Float.{Float, nat}
use scdtr_project.Float.Exact.{IsExact, IsDivisor, sub-mul, div_swap}
use scdtr_project.Consensus.{rho, sum_from}
use scdtr_project.Consensus.Sums.{
  part, part-sub, part-add, sum_from-add, part-mul, sum_from-congr, sum_from-sub, sum_from-mul,
}

module _ {ℓ} {F : Type ℓ} ⦃d : Float F⦄ where
  -- A sum over the entries that are kept.
  abbrev pub kept : (ℕ → Bool) → ℕ → (ℕ → F) → F
  kept keep n f = sum_from 0 (part keep f) n (nat 0)

  module _ (e : IsExact F) where
    linear_term :
        (p z k m v : F)
        → d.mul (d.sub (d.mul p z) (d.mul (d.div k m) v)) k
          ≡ d.sub (d.mul p (d.mul z k)) (d.mul (d.div v m) (d.mul k k))
    linear_term p z k m v =
        sub-mul e (d.mul p z) (d.mul (d.div k m) v) k
        ∙ ap₂ d.sub (e.mul_assoc p z k)
            (ap (λ x. d.mul x k) (div_swap e k v m) ∙ e.mul_assoc (d.div v m) k k)

    scaled_term :
        (k m u : F)
        → d.mul (d.mul (d.div k (d.mul rho m)) u) k
          ≡ d.mul (d.div (nat 1) rho) (d.mul (d.div u m) (d.mul k k))
    scaled_term k m u =
        ap (λ x. d.mul (d.mul x u) k) (e.div-mul k rho m)
        ∙ e.mul_assoc _ u k
        ∙ e.mul_assoc (d.div (nat 1) rho) (d.div k m) (d.mul u k)
        ∙ ap (d.mul (d.div (nat 1) rho)) (
            sym (e.mul_assoc (d.div k m) u k)
            ∙ ap (λ x. d.mul x k) (div_swap e k u m)
            ∙ e.mul_assoc (d.div u m) k k)

    pub kept_mul :
        (keep : ℕ → Bool) (n : ℕ) (a : F) (f : ℕ → F)
        → kept keep n (λ j. d.mul a (f j)) ≡ d.mul a (kept keep n f)
    kept_mul keep n a f =
        sum_from-congr 0 n _ _ (nat 0) (λ j lo hi. part-mul e keep a f j)
        ∙ sum_from-mul e 0 n a (part keep f)

    kept_sub :
        (keep : ℕ → Bool) (n : ℕ) (f g : ℕ → F)
        → kept keep n (λ j. d.sub (f j) (g j)) ≡ d.sub (kept keep n f) (kept keep n g)
    kept_sub keep n f g =
        sum_from-congr 0 n _ _ (nat 0) (λ j lo hi. part-sub e keep f g j)
        ∙ sum_from-sub e 0 n (part keep f) (part keep g)

    pub kept_add :
        (keep : ℕ → Bool) (n : ℕ) (f g : ℕ → F)
        → kept keep n (λ j. d.add (f j) (g j)) ≡ d.add (kept keep n f) (kept keep n g)
    kept_add keep n f g =
        sum_from-congr 0 n _ _ (nat 0) (λ j lo hi. part-add e keep f g j)
        ∙ sum_from-add e 0 n (part keep f) (part keep g)

    -- The part of a candidate that leads to the boundary: its illuminance at this node.
    pub kept_linear :
        (keep : ℕ → Bool) (n : ℕ) (p m v : F) (z k : ℕ → F)
        → m ≡ kept keep n (λ i. d.mul (k i) (k i))
        → IsDivisor m
        → kept keep n (λ i. d.mul (d.sub (d.mul p (z i)) (d.mul (d.div (k i) m) v)) (k i))
          ≡ d.sub (d.mul p (kept keep n (λ i. d.mul (z i) (k i)))) v
    kept_linear keep n p m v z k is_norm divides =
        ap (kept keep n) (fun_ext (λ i. linear_term p (z i) (k i) m v))
        ∙ kept_sub keep n (λ i. d.mul p (d.mul (z i) (k i)))
            (λ i. d.mul (d.div v m) (d.mul (k i) (k i)))
        ∙ ap₂ d.sub (kept_mul keep n p (λ i. d.mul (z i) (k i))) (
            kept_mul keep n (d.div v m) (λ i. d.mul (k i) (k i))
            ∙ ap (d.mul (d.div v m)) (sym is_norm)
            ∙ divides v)

    pub kept_scaled :
        (keep : ℕ → Bool) (n : ℕ) (m u : F) (k : ℕ → F)
        → m ≡ kept keep n (λ i. d.mul (k i) (k i))
        → IsDivisor m
        → kept keep n (λ i. d.mul (d.mul (d.div (k i) (d.mul rho m)) u) (k i))
          ≡ d.mul (d.div (nat 1) rho) u
    kept_scaled keep n m u k is_norm divides =
        ap (kept keep n) (fun_ext (λ i. scaled_term (k i) m u))
        ∙ kept_mul keep n (d.div (nat 1) rho) (λ i. d.mul (d.div u m) (d.mul (k i) (k i)))
        ∙ ap (d.mul (d.div (nat 1) rho)) (
            kept_mul keep n (d.div u m) (λ i. d.mul (k i) (k i))
            ∙ ap (d.mul (d.div u m)) (sym is_norm)
            ∙ divides u)
