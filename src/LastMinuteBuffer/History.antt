-- ===== src/LastMinuteBuffer/History.antt =====
-- LastMinuteBuffer.cpp: what an addition does to the values of all nodes.
use scdtr_project.Prelude.{
  ℕ, suc, ◌-◌, ◌≤◌, ◌≡◌, refl, sym, ap, ap₂, ◌∙◌, inl, inr, true, false, List, [], ◌∷◌, ◌++◌,
  append-nil, append_assoc, arith, ltb, ◌==◌, if◌then◌else◌, Bool-cases,
}
use scdtr_project.LastMinuteBuffer.{
  LastMinuteBuffer, FrequentDataValues, Entry, remove_old, push_back, add_to_last_minute_buffer,
  remove_old_last_minute_buffer_entries,
}
use scdtr_project.LastMinuteBuffer.Recent.{
  IsRecent, IsValid, IsRecent-weaken, remove_old-IsRecent, push_back-IsRecent,
}

module _ {ℓ} {F : Type ℓ} where
  abbrev stamp : ℕ → List (FrequentDataValues F) → List (ℕ × FrequentDataValues F)
  stamp time [] = []
  stamp time (v ∷ vs) = (time, v) ∷ stamp time vs

  -- The abstract view: the values with their times.
  abbrev pub history : List (Entry F) → List (ℕ × FrequentDataValues F)
  history [] = []
  history (e ∷ es) = stamp e.time e.values ++ history es

  -- The values from a time on.
  abbrev pub since : ℕ → List (ℕ × FrequentDataValues F) → List (ℕ × FrequentDataValues F)
  since threshold [] = []
  since threshold (p ∷ ps) =
      let rest = since threshold ps in if ltb p.0 threshold then rest else p ∷ rest

  since-append :
      (threshold : ℕ) (xs ys : List (ℕ × FrequentDataValues F))
      → since threshold (xs ++ ys) ≡ since threshold xs ++ since threshold ys
  since-append threshold [] ys = refl
  since-append threshold (x ∷ xs) ys = elim (Bool-cases (ltb x.0 threshold)) [
    | inl t ↦ rw t (since-append threshold xs ys)
    | inr t ↦ rw t (ap (λ l. x ∷ l) (since-append threshold xs ys))
  ]

  since-stamp_old :
      (threshold time : ℕ) (vs : List (FrequentDataValues F))
      → ltb time threshold ≡ true
      → since threshold (stamp time vs) ≡ []
  since-stamp_old threshold time [] t = refl
  since-stamp_old threshold time (v ∷ vs) t = rw t (since-stamp_old threshold time vs t)

  since-stamp :
      (threshold time : ℕ) (vs : List (FrequentDataValues F))
      → ltb time threshold ≡ false
      → since threshold (stamp time vs) ≡ stamp time vs
  since-stamp threshold time [] t = refl
  since-stamp threshold time (v ∷ vs) t =
      rw t (ap (λ l. (time, v) ∷ l) (since-stamp threshold time vs t))

  stamp-append :
      (time : ℕ) (vs ws : List (FrequentDataValues F))
      → stamp time (vs ++ ws) ≡ stamp time vs ++ stamp time ws
  stamp-append time [] ws = refl
  stamp-append time (v ∷ vs) ws = ap (λ l. (time, v) ∷ l) (stamp-append time vs ws)

  since-history :
      (threshold : ℕ) (es : List (Entry F)) (lo hi : ℕ)
      → threshold ≤ lo
      → IsRecent lo hi es
      → since threshold (history es) ≡ history es
  since-history threshold [] lo hi l v = refl
  since-history threshold (e ∷ es) lo hi l (a, b, v) =
      let recent : ltb e.time threshold ≡ false = ground arith in
      since-append threshold (stamp e.time e.values) (history es)
      ∙ ap₂ ◌++◌ (since-stamp threshold e.time e.values recent)
          (since-history threshold es (suc e.time) hi (omega arith) v)

  history-remove_old :
      (threshold : ℕ) (es : List (Entry F)) (lo hi : ℕ)
      → IsRecent lo hi es
      → history (remove_old threshold es) ≡ since threshold (history es)
  unfolding remove_old
  history-remove_old threshold [] lo hi v = refl
  history-remove_old threshold (e ∷ es) lo hi (a, b, v) = elim (Bool-cases (ltb e.time threshold)) [
    | inl t ↦ rw t (
        history-remove_old threshold es (suc e.time) hi v
        ∙ sym (
            since-append threshold (stamp e.time e.values) (history es)
            ∙ ap (λ l. l ++ since threshold (history es))
                (since-stamp_old threshold e.time e.values t)))
    | inr t ↦ rw t (
        sym (
          since-append threshold (stamp e.time e.values) (history es)
          ∙ ap₂ ◌++◌ (since-stamp threshold e.time e.values t)
              (since-history threshold es (suc e.time) hi (ground arith) v)))
  ]

  nothing_later :
      (es : List (Entry F)) (time hi : ℕ) → IsRecent (suc time) hi es → hi ≤ time → es ≡ []
  nothing_later [] time hi r h = refl
  nothing_later (e ∷ es) time hi (a, b, r) h = absurd (omega arith)

  history-push_back :
      (time : ℕ) (v : FrequentDataValues F) (es : List (Entry F)) (lo hi : ℕ)
      → IsRecent lo hi es
      → hi ≤ time
      → history (push_back time v es) ≡ history es ++ (time, v) ∷ []
  unfolding push_back
  history-push_back time v [] lo hi r h = refl
  history-push_back time v (e ∷ es) lo hi (a, b, r) h =
      let old : ltb time e.time ≡ false = ground arith in
      elim (Bool-cases (time == e.time)) [
        | inl t ↦
            let same : e.time ≡ time = ground arith in
            let none_later = nothing_later es e.time hi r (ground arith) in
            rw (old, t)
              (ap (λ l. l ++ history es) (stamp-append e.time e.values (v ∷ []))
                ∙ append_assoc (stamp e.time e.values) ((e.time, v) ∷ []) (history es)
                ∙ ap (λ l. stamp e.time e.values ++ (e.time, v) ∷ history l) none_later
                ∙ ap₂ (λ x k. x ++ (k, v) ∷ [])
                    (sym (
                      ap (λ l. stamp e.time e.values ++ history l) none_later
                      ∙ append-nil (stamp e.time e.values)))
                    same)
        | inr t ↦
            rw (old, t)
              (ap (λ l. stamp e.time e.values ++ l)
                  (history-push_back time v es (suc e.time) hi r h)
                ∙ sym (append_assoc (stamp e.time e.values) (history es) ((time, v) ∷ [])))
      ]

  -- The time before which an addition removes values.
  abbrev pub threshold_at : LastMinuteBuffer F → ℕ → ℕ → ℕ
  threshold_at b time_now later =
      (if time_now == b.last_time_added_entry then time_now else later) - 60

  abbrev aged : LastMinuteBuffer F → ℕ → ℕ → LastMinuteBuffer F
  aged b time_now later =
      if time_now == b.last_time_added_entry
      then b
      else remove_old_last_minute_buffer_entries later b

  aged-history :
      (b : LastMinuteBuffer F) (time_now later id : ℕ)
      → IsValid b
      → let threshold = threshold_at b time_now later in
        IsRecent threshold b.last_time_added_entry ((aged b time_now later).last_minute_buffer id)
        × (history ((aged b time_now later).last_minute_buffer id)
            ≡ since threshold (history (b.last_minute_buffer id)))
  unfolding remove_old_last_minute_buffer_entries
  aged-history b time_now later id v =
      let last = b.last_time_added_entry in
      let es = b.last_minute_buffer id in
      elim (Bool-cases (time_now == last)) [
        | inl t ↦ rw t (
          IsRecent-weaken es (last - 60) (time_now - 60) last last (ground arith) (omega arith)
              (v id),
          sym (since-history (time_now - 60) es (last - 60) last (ground arith) (v id)),
        )
        | inr t ↦ rw t (
          remove_old-IsRecent (later - 60) es (last - 60) last (v id),
          history-remove_old (later - 60) es (last - 60) last (v id),
        )
      ]

  -- As the clock goes on, an addition to a valid buffer removes the values older than a minute from every node, keeps
  -- the others in their order, and puts the new value behind those of its node; what is kept
  -- is of the minute before this addition.
  pub add_to_last_minute_buffer-history :
      (b : LastMinuteBuffer F) (time_now later node_id : ℕ) (v : FrequentDataValues F)
      → IsValid b
      → b.last_time_added_entry ≤ time_now
      → time_now ≤ later
      → let threshold = threshold_at b time_now later in
        let b' = add_to_last_minute_buffer time_now later node_id v b in
        IsValid b'
        × ((id : ℕ)
            → history (b'.last_minute_buffer id)
              ≡ since threshold (history (b.last_minute_buffer id))
                ++ (if id == node_id then (time_now, v) ∷ [] else []))
  unfolding add_to_last_minute_buffer
  add_to_last_minute_buffer-history b time_now later node_id v valid h h' =
      let threshold = threshold_at b time_now later in
      let last = b.last_time_added_entry in
      let late : time_now - 60 ≤ threshold = ground arith in
      (
        λ id.
            let r = (aged-history b time_now later id valid).0 in
            let es = (aged b time_now later).last_minute_buffer id in
            elim (Bool-cases (id == node_id)) [
              | inl t ↦ rw t (
                  push_back-IsRecent time_now v es (time_now - 60) last
                    (IsRecent-weaken es threshold (time_now - 60) last last late (omega arith) r)
                    (omega arith) h)
              | inr t ↦ rw t (IsRecent-weaken es threshold (time_now - 60) last time_now late h r)
            ],
        λ id.
            let (r, e) = aged-history b time_now later id valid in
            let es = (aged b time_now later).last_minute_buffer id in
            elim (Bool-cases (id == node_id)) [
              | inl t ↦ rw t (
                  history-push_back time_now v es threshold last r h
                  ∙ ap (λ l. l ++ (time_now, v) ∷ []) e)
              | inr t ↦
                  rw t (e ∙ sym (append-nil (since threshold (history (b.last_minute_buffer id)))))
            ],
      )
