-- ===== src/Consensus/Fill.antt =====
-- What a loop of src/consensus.cpp that fills an array leaves in it.
use scdtr_project.Prelude.{
  ℕ, zero, suc, ◌+◌, ◌≤◌, ◌<◌, ◌≡◌, ap, ◌∙◌, List, [], ◌∷◌, arith, length, get_or,
}
use scdtr_project.Consensus.{fill_from, fill}

fill_from-at {ℓ} :
    {A : Type ℓ} (i n : ℕ) (f : ℕ → A) (l : List A) (j : ℕ) (z : A)
    → j < n
    → n ≤ length l
    → get_or (fill_from i f n l) j z ≡ f (i + j)
unfolding fill_from
fill_from-at i zero f l j z h len = absurd (omega arith)
fill_from-at i (suc n) f [] j z h len = absurd (omega arith)
fill_from-at i (suc n) f (x ∷ l) zero z h len = ap f (omega arith)
fill_from-at i (suc n) f (x ∷ l) (suc j) z h len =
    fill_from-at (i + 1) n f l j z (omega arith) (omega arith) ∙ ap f {x = i + 1 + j} (omega arith)

-- A loop over `i < n` writes the entry `j`.
pub fill-at {ℓ} :
    {A : Type ℓ} (n : ℕ) (f : ℕ → A) (l : List A) (j : ℕ) (z : A)
    → j < n
    → n ≤ length l
    → get_or (fill n f l) j z ≡ f j
unfolding fill
fill-at n f l j z h len = fill_from-at 0 n f l j z h len ∙ ap f {x = 0 + j} (omega arith)
