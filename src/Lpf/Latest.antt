-- ===== src/Lpf/Latest.antt =====
-- The samples that the low-pass filter holds.
use scdtr_project.Prelude.{
  ℕ, ◌+◌, ◌%◌, ◌≤◌, ◌<◌, min, ◌≡◌, refl, sym, ap, subst, ◌∙◌, List, [], ◌∷◌, ◌++◌, append-nil,
  append_assoc, arith, dec_lt, length, get_or, set, length-append, length-set, get_or-set_self,
  get_or-set_ne, get_or-append,
}
use scdtr_project.Float.{Float, nat}
use scdtr_project.Lpf.{Lpf, lpf_total_samples, sample}
use scdtr_project.Lpf
use scdtr_project.Lpf.Window.{run}

module _ {ℓ} {F : Type ℓ} ⦃d : Float F⦄ where
  -- The filter after the samples `us`: sample `i` is in slot `i % 20`, if it is one of the last twenty.
  pub record Holds (us : List F) (s : Lpf F) : Type ℓ where
    pub storage : length s.lpf_samples ≡ lpf_total_samples
    pub count : s.lpf_num_samples ≡ min (length us) lpf_total_samples
    pub next : s.lpf_idx ≡ length us % lpf_total_samples
    pub held :
        (i : ℕ)
        → i < length us
        → length us ≤ i + lpf_total_samples
        → get_or s.lpf_samples (i % lpf_total_samples) (nat 0) ≡ get_or us i (nat 0)

  get_or-append_last : (us : List F) (v : F) → get_or (us ++ v ∷ []) (length us) (nat 0) ≡ v
  get_or-append_last [] v = refl
  get_or-append_last (u ∷ us) v = get_or-append_last us v

  sample-Holds : (us : List F) (v : F) (s : Lpf F) → Holds us s → Holds (us ++ v ∷ []) (sample v s)
  unfolding sample
  sample-Holds us v s h =
      let size = length-append us (v ∷ []) in
      record {
        storage = length-set s.lpf_samples s.lpf_idx v ∙ h.storage;
        count = ground (arith, size, h.count, h.next);
        next = ground (arith, size, h.next);
        held = λ i lt recent. elim (dec_lt i (length us)) [
          | yes old ↦
              get_or-set_ne s.lpf_samples v (nat 0) (omega (arith, size, h.next))
              ∙ h.held i old (omega (arith, size))
              ∙ sym (get_or-append i us (v ∷ []) (nat 0) old)
          | no new ↦
              let last : i ≡ length us = omega (arith, size) in
              ap (λ k. get_or (set s.lpf_samples s.lpf_idx v) k (nat 0)) (omega (arith, h.next))
              ∙ get_or-set_self s.lpf_samples s.lpf_idx v (nat 0) (omega (arith, h.storage, h.next))
              ∙ sym (get_or-append_last us v)
              ∙ ap (λ k. get_or (us ++ v ∷ []) k (nat 0)) (sym last)
        ];
      }

  run-Holds : (us vs : List F) (s : Lpf F) → Holds us s → Holds (us ++ vs) (run vs s)
  unfolding run
  run-Holds us [] s h = subst (λ l. Holds l s) (sym (append-nil us)) h
  run-Holds us (v ∷ vs) s h =
      subst (λ l. Holds l (run vs (sample v s))) (append_assoc us (v ∷ []) vs)
        (run-Holds (us ++ v ∷ []) vs (sample v s) (sample-Holds us v s h))

  -- After any samples the new filter holds the last twenty of them, each in the slot of its number
  -- modulo 20, and counts them up to twenty.
  pub run-latest :
      (vs : List F)
      → let s = run vs Lpf.new in
        (s.lpf_num_samples ≡ min (length vs) lpf_total_samples)
        × (s.lpf_idx ≡ length vs % lpf_total_samples)
        × ((i : ℕ)
            → i < length vs
            → length vs ≤ i + lpf_total_samples
            → get_or s.lpf_samples (i % lpf_total_samples) (nat 0) ≡ get_or vs i (nat 0))
  unfolding Lpf.new
  run-latest vs =
      let start : Holds [] Lpf.new = record {
        storage = refl;
        count = refl;
        next = refl;
        held = λ i lt recent. absurd (omega arith);
      } in
      let h = run-Holds [] vs Lpf.new start in (h.count, h.next, h.held)
