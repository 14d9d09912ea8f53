-- ===== src/Consensus/Iterate.antt =====
-- The choice that `consensus_iterate` of src/consensus.cpp makes among its candidates.
use scdtr_project.Prelude.{
  ℕ, zero, suc, ◌+◌, ◌<◌, ◌≡◌, refl, ap, ◌∙◌, ◌⊎◌, inl, inr, true, List, [], ◌∷◌, arith, Bool-cases,
  length, get_or, All,
}
use scdtr_project.Float.{Float, nat, IsTransitive}
use scdtr_project.Consensus.{
  Consensus, at, fill_from, fill, evaluate_cost, check_feasibility, z_vector, unconstrained,
  boundary_linear, boundary_0, boundary_100, boundary_linear_0, boundary_linear_100, try_candidate,
  no_candidate, consensus_iterate,
}

fill_from-fill_from {ℓ} :
    {A : Type ℓ} (i n : ℕ) (f g : ℕ → A) (l : List A)
    → fill_from i f n (fill_from i g n l) ≡ fill_from i f n l
unfolding fill_from
fill_from-fill_from i zero f g l = refl
fill_from-fill_from i (suc n) f g [] = refl
fill_from-fill_from i (suc n) f g (x ∷ l) = ap (λ r. f i ∷ r) (fill_from-fill_from (i + 1) n f g l)

-- A later write of the same entries hides an earlier one.
fill-fill {ℓ} : {A : Type ℓ} (n : ℕ) (f g : ℕ → A) (l : List A) → fill n f (fill n g l) ≡ fill n f l
unfolding fill
fill-fill n f g l = fill_from-fill_from 0 n f g l

module _ {ℓ} {F : Type ℓ} ⦃d : Float F⦄ where
  module _ (n : ℕ) (cost residual : F) (c : Consensus F) where
    -- The candidates, in the order in which they are tried.
    abbrev pub candidates : List (List F)
    candidates =
        let z = z_vector n cost residual c in
        unconstrained n cost residual c z
        ∷ boundary_linear n cost residual c z
        ∷ boundary_0 n cost residual c z
        ∷ boundary_100 n cost residual c z
        ∷ boundary_linear_0 n cost residual c z
        ∷ boundary_linear_100 n cost residual c z
        ∷ []

    -- A candidate that could be taken at a cost below `limit`.
    abbrev pub Beats : List F → F → Type 0
    Beats x limit =
        (check_feasibility n cost residual c x ≡ true)
        × (d.lt (evaluate_cost n cost residual c x) limit ≡ true)

    abbrev pub OneOf : List F → List (List F) → Type ℓ
    OneOf x xs = (i : ℕ) × (i < length xs) × (get_or xs i [] ≡ x)

    -- `x` is feasible, cheaper than the start, and no candidate that is feasible is cheaper.
    pub record IsCheapest (tried : List (List F)) (limit : F) (x : List F) : Type ℓ where
      pub tried_x : OneOf x tried
      pub beats : Beats x limit
      pub least : All (λ y. ¬ Beats y (evaluate_cost n cost residual c x)) tried

    search : List (List F) → List F × F → List F × F
    search [] acc = acc
    search (x ∷ xs) acc = search xs (try_candidate n cost residual c x acc)

    -- The search from `limit` over `tried`: nothing is cheap enough, or it ends with a cheapest candidate.
    abbrev Found : List (List F) → List F → F → List F × F → Type ℓ
    Found tried best limit out =
        (All (λ y. ¬ Beats y limit) tried × (out ≡ (best, limit)))
        ⊎ ((x : List F) × IsCheapest tried limit x
            × (out ≡ (fill n (at x) best, evaluate_cost n cost residual c x)))

    module _ (laws : IsTransitive F) where
      Beats-mono : (y : List F) (l m : F) → d.lt l m ≡ true → ¬ Beats y m → ¬ Beats y l
      Beats-mono y l m lt no_m (ok, below) = no_m (ok, laws.lt_trans _ l m below lt)

      not-Beats_self : (x : List F) → ¬ Beats x (evaluate_cost n cost residual c x)
      not-Beats_self x (ok, below) = cc (laws.lt_irrefl (evaluate_cost n cost residual c x))

      try_cases :
          (x best : List F) (limit : F)
          → (Beats x limit
              × (try_candidate n cost residual c x (best, limit)
                  ≡ (fill n (at x) best, evaluate_cost n cost residual c x)))
            ⊎ ((¬ Beats x limit)
                × (try_candidate n cost residual c x (best, limit) ≡ (best, limit)))
      unfolding try_candidate
      try_cases x best limit = elim (Bool-cases (check_feasibility n cost residual c x)) [
        | inl ok ↦ elim (Bool-cases (d.lt (evaluate_cost n cost residual c x) limit)) [
          | inl below ↦ inl ((ok, below), rw (ok, below) refl)
          | inr above ↦ inr (λ (_, below). cc, rw (ok, above) refl)
        ]
        | inr bad ↦ inr (λ (ok, _). cc, rw bad refl)
      ]

      All-mono :
          (ys : List (List F)) (l m : F)
          → d.lt l m ≡ true
          → All (λ y. ¬ Beats y m) ys
          → All (λ y. ¬ Beats y l) ys
      All-mono [] l m lt h = tt
      All-mono (y ∷ ys) l m lt h = (Beats-mono y l m lt h.0, All-mono ys l m lt h.1)

      -- A cheaper candidate further on is cheaper than all that were tried.
      later :
          (x y best : List F) (ys : List (List F)) (limit : F)
          → Beats x limit
          → IsCheapest ys (evaluate_cost n cost residual c x) y
          → IsCheapest (x ∷ ys) limit y
      later x y best ys limit b h =
          let (i, lt, e) = h.tried_x in
          record {
            tried_x = (suc i, omega arith, e);
            beats = (h.beats.0, laws.lt_trans _ _ limit h.beats.1 b.1);
            least = (Beats-mono x _ _ h.beats.1 (not-Beats_self x), h.least);
          }

      search_lem :
          (xs : List (List F)) (best : List F) (limit : F)
          → Found xs best limit (search xs (best, limit))
      unfolding search
      search_lem [] best limit = inl (tt, refl)
      search_lem (x ∷ xs) best limit = elim (try_cases x best limit) [
        | inr (no_x, e) ↦ rw e (elim (search_lem xs best limit) [
          | inl (none_left, out) ↦ inl ((no_x, none_left), out)
          | inr (y, h, out) ↦
              let (i, lt, z) = h.tried_x in
              inr (
                y,
                record {
                  tried_x = (suc i, omega arith, z);
                  beats = h.beats;
                  least = (Beats-mono x _ limit h.beats.1 no_x, h.least);
                },
                out,
              )
        ])
        | inl (b, e) ↦
            rw e (elim (search_lem xs (fill n (at x) best) (evaluate_cost n cost residual c x)) [
              | inl (none_left, out) ↦ inr (
                x,
                record {
                  tried_x = (0, omega arith, refl);
                  beats = b;
                  least = (not-Beats_self x, none_left);
                },
                out,
              )
              | inr (y, h, out) ↦ inr (
                y,
                later x y best xs limit b h,
                out
                    ∙ ap (λ l. (l, evaluate_cost n cost residual c y))
                        (fill-fill n (at y) (at x) best),
              )
            ])
      ]

      -- If `<` is transitive and irreflexive, the result of an iteration is a candidate that is feasible and costs least among the feasible
      -- ones, or, if none of them costs less than 100000, the vector of -1.
      pub consensus_iterate-cheapest :
          let out = (consensus_iterate n cost residual c).duty_cycle_best in
          (All (λ y. ¬ Beats y (d.ratio 100000 1)) candidates
            × (out ≡ fill n (λ i. d.sub (nat 0) (nat 1)) c.duty_cycle_best))
          ⊎ ((x : List F) × IsCheapest candidates (d.ratio 100000 1) x
              × (out ≡ fill n (at x) c.duty_cycle_best))
      unfolding consensus_iterate search no_candidate
      consensus_iterate-cheapest =
          let start = fill n (λ i. d.sub (nat 0) (nat 1)) c.duty_cycle_best in
          elim (search_lem candidates start (d.ratio 100000 1)) [
            | inl (none_left, out) ↦ inl (none_left, ap (λ p. p.0) out)
            | inr (x, h, out) ↦ inr (
              x,
              h,
              ap (λ p. p.0) out ∙ fill-fill n (at x) (λ i. d.sub (nat 0) (nat 1)) c.duty_cycle_best,
            )
          ]
