-- ===== src/Consensus/Sums.antt =====
-- Sums over arrays, as the loops of src/consensus.cpp compute them, where no operation rounds.
use scdtr_project.Prelude.{
  ℕ, zero, suc, ◌+◌, ◌≤◌, ◌<◌, ◌≡◌, refl, sym, ap, ap₂, ◌∙◌, ◌≢◌, inl, inr, Bool, false, not, arith,
  ◌==◌, if◌then◌else◌, ==_iff, Bool-cases,
}
use scdtr_project.Float.{Float, nat}
use scdtr_project.Float.Exact.{sub_self, add_left_comm}
use scdtr_project.Float.Exact.{IsExact, add_interchange, sub_interchange, add-zero, mul-zero}
use scdtr_project.Consensus.{sum_from}

differ : (i j : ℕ) → (i == j) ≡ false → i ≢ j
differ i j h = ground arith

module _ {ℓ} {F : Type ℓ} ⦃d : Float F⦄ where
  -- `f i`, where the entry `i` is kept.
  abbrev pub part : (ℕ → Bool) → (ℕ → F) → ℕ → F
  part keep f i = if keep i then f i else nat 0

  pub kept_ne : (i j : ℕ) (f : ℕ → F) → i ≢ j → part (λ k. not (k == j)) f i ≡ f i
  kept_ne i j f h = ground arith

  pub part_congr :
      (o j : ℕ) (f g : ℕ → F)
      → (j ≢ o → f j ≡ g j)
      → part (λ i. not (i == o)) f j ≡ part (λ i. not (i == o)) g j
  part_congr o j f g h = elim (Bool-cases (j == o)) [
    | inl t ↦ rw t refl
    | inr t ↦ rw (t, h (differ j o t)) refl
  ]

  pub sum_from-congr :
      (i n : ℕ) (f g : ℕ → F) (acc : F)
      → ((j : ℕ) → i ≤ j → j < i + n → f j ≡ g j)
      → sum_from i f n acc ≡ sum_from i g n acc
  unfolding sum_from
  sum_from-congr i zero f g acc h = refl
  sum_from-congr i (suc n) f g acc h =
      rw (h i (omega arith) (omega arith)) (
        sum_from-congr (i + 1) n f g (d.add acc (g i)) (λ j lo hi. h j (omega arith) (omega arith)))

  pub sum_congr :
      (n : ℕ) (f g : ℕ → F)
      → ((j : ℕ) → j < n → f j ≡ g j)
      → sum_from 0 f n (nat 0) ≡ sum_from 0 g n (nat 0)
  sum_congr n f g h = sum_from-congr 0 n f g (nat 0) (λ j lo hi. h j (omega arith))

  module _ (e : IsExact F) where
    pub part-sub :
        (keep : ℕ → Bool) (f g : ℕ → F) (i : ℕ)
        → part keep (λ j. d.sub (f j) (g j)) i ≡ d.sub (part keep f i) (part keep g i)
    part-sub keep f g i = elim (Bool-cases (keep i)) [
      | inl h ↦ rw h refl
      | inr h ↦ rw h (sym (sub_self e (nat 0)))
    ]

    pub part-mul :
        (keep : ℕ → Bool) (a : F) (f : ℕ → F) (i : ℕ)
        → part keep (λ j. d.mul a (f j)) i ≡ d.mul a (part keep f i)
    part-mul keep a f i = elim (Bool-cases (keep i)) [
      | inl h ↦ rw h refl
      | inr h ↦ rw h (sym (mul-zero e a))
    ]

    pub part-add :
        (keep : ℕ → Bool) (f g : ℕ → F) (i : ℕ)
        → part keep (λ j. d.add (f j) (g j)) i ≡ d.add (part keep f i) (part keep g i)
    part-add keep f g i = elim (Bool-cases (keep i)) [
      | inl h ↦ rw h refl
      | inr h ↦ rw h (sym (e.zero-add (nat 0)))
    ]

    sum_from-acc :
        (i n : ℕ) (f : ℕ → F) (acc : F) → sum_from i f n acc ≡ d.add acc (sum_from i f n (nat 0))
    unfolding sum_from
    sum_from-acc i zero f acc = sym (add-zero e acc)
    sum_from-acc i (suc n) f acc =
        sum_from-acc (i + 1) n f (d.add acc (f i))
        ∙ e.add_assoc acc (f i) _
        ∙ ap (d.add acc) (
            sym (sum_from-acc (i + 1) n f (f i))
            ∙ ap (sum_from (i + 1) f n) (sym (e.zero-add (f i))))

    sum_from-suc :
        (i n : ℕ) (f : ℕ → F)
        → sum_from i f (suc n) (nat 0) ≡ d.add (f i) (sum_from (i + 1) f n (nat 0))
    unfolding sum_from
    sum_from-suc i n f =
        ap (sum_from (i + 1) f n) (e.zero-add (f i)) ∙ sum_from-acc (i + 1) n f (f i)

    pub sum_from-add :
        (i n : ℕ) (f g : ℕ → F)
        → sum_from i (λ j. d.add (f j) (g j)) n (nat 0)
          ≡ d.add (sum_from i f n (nat 0)) (sum_from i g n (nat 0))
    unfolding sum_from
    sum_from-add i zero f g = sym (e.zero-add (nat 0))
    sum_from-add i (suc n) f g =
        rw (sum_from-suc i n (λ j. d.add (f j) (g j)), sum_from-suc i n f, sum_from-suc i n g)
          (ap (d.add (d.add (f i) (g i))) (sum_from-add (i + 1) n f g)
            ∙ add_interchange e (f i) (g i) _ _)

    pub sum_from-sub :
        (i n : ℕ) (f g : ℕ → F)
        → sum_from i (λ j. d.sub (f j) (g j)) n (nat 0)
          ≡ d.sub (sum_from i f n (nat 0)) (sum_from i g n (nat 0))
    unfolding sum_from
    sum_from-sub i zero f g = sym (sub_self e (nat 0))
    sum_from-sub i (suc n) f g =
        rw (sum_from-suc i n (λ j. d.sub (f j) (g j)), sum_from-suc i n f, sum_from-suc i n g)
          (ap (d.add (d.sub (f i) (g i))) (sum_from-sub (i + 1) n f g)
            ∙ sym (sub_interchange e (f i) (g i) _ _))

    pub sum_from-mul :
        (i n : ℕ) (a : F) (f : ℕ → F)
        → sum_from i (λ j. d.mul a (f j)) n (nat 0) ≡ d.mul a (sum_from i f n (nat 0))
    unfolding sum_from
    sum_from-mul i zero a f = sym (mul-zero e a)
    sum_from-mul i (suc n) a f =
        rw (sum_from-suc i n (λ j. d.mul a (f j)), sum_from-suc i n f)
          (ap (d.add (d.mul a (f i))) (sum_from-mul (i + 1) n a f) ∙ sym (e.mul-add a (f i) _))

    -- The entry `j` apart from the others.
    pub sum_from-split :
        (i n j : ℕ) (f : ℕ → F)
        → i ≤ j
        → j < i + n
        → sum_from i f n (nat 0) ≡ d.add (f j) (sum_from i (part (λ k. not (k == j)) f) n (nat 0))
    sum_from-split i zero j f lo hi = absurd (omega arith)
    sum_from-split i (suc n) j f lo hi =
        let others = part (λ k. not (k == j)) f in
        let rest = sum_from (i + 1) others n (nat 0) in
        elim (Bool-cases (i == j)) [
          | inl t ↦
              let same : i ≡ j = (==_iff i j).0 t in
              let dropped : others i ≡ nat 0 = rw t refl in
              sum_from-suc i n f
              ∙ ap₂ d.add (ap f same) (
                  sum_from-congr (i + 1) n f others (nat 0)
                    (λ k after before. sym (kept_ne k j f (omega arith)))
                  ∙ sym (e.zero-add rest))
              ∙ ap (λ x. d.add (f j) (d.add x rest)) (sym dropped)
              ∙ ap (d.add (f j)) (sym (sum_from-suc i n others))
          | inr t ↦
              let apart : i ≢ j = differ i j t in
              sum_from-suc i n f
              ∙ ap (d.add (f i)) (sum_from-split (i + 1) n j f (omega arith) (omega arith))
              ∙ add_left_comm e (f i) (f j) rest
              ∙ ap (λ x. d.add (f j) (d.add x rest)) (sym (kept_ne i j f apart))
              ∙ ap (d.add (f j)) (sym (sum_from-suc i n others))
        ]
