-- ===== src/LastMinuteBuffer/Recent.antt =====
-- LastMinuteBuffer.cpp: which values the buffer of a node keeps, and their order.
use scdtr_project.Prelude.{
  ℕ, suc, ◌-◌, ◌≤◌, ◌≡◌, inl, inr, false, List, [], ◌∷◌, arith, ltb, ◌==◌, Bool-cases,
}
use scdtr_project.LastMinuteBuffer.{
  LastMinuteBuffer, FrequentDataValues, Entry, remove_old, push_back,
}

module _ {ℓ} {F : Type ℓ} where
  -- The times ascend, from `lo` to `hi` at most.
  abbrev pub IsRecent : ℕ → ℕ → List (Entry F) → Type ℓ
  IsRecent lo hi [] = Unit {ℓ}
  IsRecent lo hi (e ∷ es) = (lo ≤ e.time) × (e.time ≤ hi) × IsRecent (suc e.time) hi es

  -- Every node has values of the minute before the last addition only.
  abbrev pub IsValid : LastMinuteBuffer F → Type ℓ
  IsValid b =
      (id : ℕ)
      → IsRecent (b.last_time_added_entry - 60) b.last_time_added_entry (b.last_minute_buffer id)

  pub IsRecent-weaken :
      (es : List (Entry F)) (lo lo' hi hi' : ℕ)
      → lo' ≤ lo
      → hi ≤ hi'
      → IsRecent lo hi es
      → IsRecent lo' hi' es
  IsRecent-weaken [] lo lo' hi hi' l h v = v
  IsRecent-weaken (e ∷ es) lo lo' hi hi' l h (a, b, v) = (
    omega arith,
    omega arith,
    IsRecent-weaken es (suc e.time) (suc e.time) hi hi' (omega arith) h v,
  )

  pub remove_old-IsRecent :
      (threshold : ℕ) (es : List (Entry F)) (lo hi : ℕ)
      → IsRecent lo hi es
      → IsRecent threshold hi (remove_old threshold es)
  unfolding remove_old
  remove_old-IsRecent threshold [] lo hi v = v
  remove_old-IsRecent threshold (e ∷ es) lo hi (a, b, v) =
      elim (Bool-cases (ltb e.time threshold)) [
        | inl t ↦ rw t (remove_old-IsRecent threshold es (suc e.time) hi v)
        | inr t ↦ rw t (ground arith, b, v)
      ]

  pub push_back-IsRecent :
      (time : ℕ) (v : FrequentDataValues F) (es : List (Entry F)) (lo hi : ℕ)
      → IsRecent lo hi es
      → lo ≤ time
      → hi ≤ time
      → IsRecent lo time (push_back time v es)
  unfolding push_back
  push_back-IsRecent time v [] lo hi r l h = (l, omega arith, _)
  push_back-IsRecent time v (e ∷ es) lo hi (a, b, r) l h =
      let old : ltb time e.time ≡ false = ground arith in
      elim (Bool-cases (time == e.time)) [
        | inl t ↦
            rw (old, t)
              (
                a,
                ground arith,
                IsRecent-weaken es (suc e.time) (suc e.time) hi time (omega arith) h r,
              )
        | inr t ↦
            rw (old, t)
              (a, omega arith, push_back-IsRecent time v es (suc e.time) hi r (ground arith) h)
      ]
