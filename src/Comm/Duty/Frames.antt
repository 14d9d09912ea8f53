-- ===== src/Comm/Duty/Frames.antt =====
-- One CAN_CONSENSUS frame: what the sender puts into it and what the receiver takes from it.
use scdtr_project.Prelude.{
  ℕ, zero, suc, ◌+◌, ◌*◌, ◌/◌, ◌%◌, ◌<◌, ◌≡◌, refl, ap, ◌∙◌, ◌≢◌, inl, inr, true, List, [], ◌∷◌,
  arith, leb, Bool-cases, length, get_or, length-set, get_or-set_self, get_or-set_ne, eight,
}
use scdtr_project.Float.{Float, nat}
use scdtr_project.Comm.Duty.{
  fill_values, duty_payload, encode_duty, decode_duty, duty_at, receive_one, receive_duty,
}

pub below_three {κ} : (P : ℕ → Type κ) → P 0 → P 1 → P 2 → (i : ℕ) → i < 3 → P i
below_three P a b c zero h = a
below_three P a b c (suc zero) h = b
below_three P a b c (suc (suc zero)) h = c
below_three P a b c (suc (suc (suc i))) h = absurd (omega arith)

module _ {ℓ} {F : Type ℓ} ⦃d : Float F⦄ where
  -- The frame carries its number, and each of its values that belongs to a node.
  abbrev pub Carries : ℕ → ℕ → List F → List ℕ → Type 0
  Carries msg_i n val bytes =
      (length bytes ≡ 8)
      × (get_or bytes 6 0 ≡ msg_i)
      × ((i : ℕ)
          → i < 3
          → msg_i * 3 + i < n
          → duty_at bytes i ≡ encode_duty (get_or val (msg_i * 3 + i) (nat 0)))

  duty_payload-at :
      (k n : ℕ) (val : List F) (a b c e f g h j : ℕ)
      → let bytes = duty_payload k n val (a ∷ b ∷ c ∷ e ∷ f ∷ g ∷ h ∷ j ∷ []) in
        (length bytes ≡ 8)
        × (get_or bytes 6 0 ≡ k)
        × (k * 3 < n → duty_at bytes 0 ≡ encode_duty (get_or val (k * 3 + 0) (nat 0)))
        × (k * 3 + 1 < n → duty_at bytes 1 ≡ encode_duty (get_or val (k * 3 + 1) (nat 0)))
        × (k * 3 + 2 < n → duty_at bytes 2 ≡ encode_duty (get_or val (k * 3 + 2) (nat 0)))
  unfolding duty_payload fill_values
  duty_payload-at k n val a b c e f g h j = ground arith

  pub duty_payload-Carries :
      (k n : ℕ) (val : List F) (bytes : List ℕ)
      → length bytes ≡ 8
      → Carries k n val (duty_payload k n val bytes)
  duty_payload-Carries k n val =
      eight (λ bytes. Carries k n val (duty_payload k n val bytes))
        λ a b c e f g h j.
          let t = duty_payload-at k n val a b c e f g h j in
          (
            t.0,
            t.1,
            below_three
                (λ i.
                  k * 3 + i < n
                  → duty_at (duty_payload k n val (a ∷ b ∷ c ∷ e ∷ f ∷ g ∷ h ∷ j ∷ [])) i
                    ≡ encode_duty (get_or val (k * 3 + i) (nat 0)))
                (λ lt. t.2 (omega arith)) t.3 t.4,
          )

  length-receive_one :
      (n : ℕ) (bytes : List ℕ) (pos i : ℕ) (received : List F)
      → length (receive_one n bytes i pos received) ≡ length received
  unfolding receive_one
  length-receive_one n bytes pos i received = ground (
    arith,
    length-set received pos (d.add (get_or received pos (nat 0)) (decode_duty (duty_at bytes i))),
  )

  -- A round adds the frame's value at its position and leaves the others.
  receive_one-here :
      (n : ℕ) (bytes : List ℕ) (i j : ℕ) (received : List F)
      → j < n
      → j < length received
      → get_or (receive_one n bytes i j received) j (nat 0)
        ≡ d.add (get_or received j (nat 0)) (decode_duty (duty_at bytes i))
  unfolding receive_one
  receive_one-here n bytes i j received h len =
      let v = d.add (get_or received j (nat 0)) (decode_duty (duty_at bytes i)) in
      let t : leb j n ≡ true = ground arith in rw t (get_or-set_self received j v (nat 0) len)

  receive_one-other :
      (n : ℕ) (bytes : List ℕ) (i pos j : ℕ) (received : List F)
      → pos ≢ j
      → get_or (receive_one n bytes i pos received) j (nat 0) ≡ get_or received j (nat 0)
  unfolding receive_one
  receive_one-other n bytes i pos j received ne =
      let v = d.add (get_or received pos (nat 0)) (decode_duty (duty_at bytes i)) in
      elim (Bool-cases (leb pos n)) [
        | inl e ↦ rw e (get_or-set_ne received v (nat 0) ne)
        | inr e ↦ rw e refl
      ]

  module _ (k n : ℕ) (bytes : List ℕ) (received : List F) (j : ℕ) (small : k < 80) (h : j < n)
      (len : j < length received) where
    abbrev step : ℕ → List F → List F
    step i = receive_one n bytes i ((k * 3 + i) % 256)

    step-here :
        (i : ℕ) (l : List F)
        → j ≡ k * 3 + i
        → i < 3
        → length l ≡ length received
        → get_or l j (nat 0) ≡ get_or received j (nat 0)
        → get_or (step i l) j (nat 0)
          ≡ d.add (get_or received j (nat 0)) (decode_duty (duty_at bytes i))
    step-here i l e lt same old =
        let p : (k * 3 + i) % 256 ≡ j = omega arith in
        rw (ap (λ q. receive_one n bytes i q l) p) (
          receive_one-here n bytes i j l h (omega arith)
          ∙ ap (λ x. d.add x (decode_duty (duty_at bytes i))) old)

    step-other :
        (i : ℕ) (l : List F)
        → j ≢ k * 3 + i
        → i < 3
        → get_or (step i l) j (nat 0) ≡ get_or l j (nat 0)
    step-other i l ne lt = receive_one-other n bytes i ((k * 3 + i) % 256) j l (omega arith)

    abbrev once : List F
    once = step 0 received

    abbrev twice : List F
    twice = step 1 once

    length-once : length once ≡ length received
    length-once = length-receive_one n bytes ((k * 3 + 0) % 256) 0 received

    length-twice : length twice ≡ length received
    length-twice = length-receive_one n bytes ((k * 3 + 1) % 256) 1 once ∙ length-once

    all_steps-here :
        (i : ℕ)
        → i < 3
        → j ≡ k * 3 + i
        → get_or (step 2 twice) j (nat 0)
          ≡ d.add (get_or received j (nat 0)) (decode_duty (duty_at bytes i))
    all_steps-here =
        below_three
          (λ i.
            j ≡ k * 3 + i
            → get_or (step 2 twice) j (nat 0)
              ≡ d.add (get_or received j (nat 0)) (decode_duty (duty_at bytes i)))
          (λ e.
            step-other 2 twice (omega arith) (omega arith)
            ∙ step-other 1 once (omega arith) (omega arith)
            ∙ step-here 0 received e (omega arith) refl refl)
          (λ e.
            step-other 2 twice (omega arith) (omega arith)
            ∙ step-here 1 once e (omega arith) length-once
                (step-other 0 received (omega arith) (omega arith)))
          (λ e. step-here 2 twice e (omega arith) length-twice (
            step-other 1 once (omega arith) (omega arith)
            ∙ step-other 0 received (omega arith) (omega arith)))

    all_steps-other :
        ((i : ℕ) → i < 3 → j ≢ k * 3 + i)
        → get_or (step 2 twice) j (nat 0) ≡ get_or received j (nat 0)
    all_steps-other ne =
        step-other 2 twice (ne 2 (omega arith)) (omega arith)
        ∙ step-other 1 once (ne 1 (omega arith)) (omega arith)
        ∙ step-other 0 received (ne 0 (omega arith)) (omega arith)

  pub length-receive_duty :
      (n : ℕ) (bytes : List ℕ) (received : List F)
      → length (receive_duty n bytes received) ≡ length received
  unfolding receive_duty
  length-receive_duty n bytes received =
      let p = λ (i : ℕ). (get_or bytes 6 0 * 3 + i) % 256 in
      let one = receive_one n bytes 0 (p 0) received in
      let two = receive_one n bytes 1 (p 1) one in
      length-receive_one n bytes (p 2) 2 two
      ∙ length-receive_one n bytes (p 1) 1 one
      ∙ length-receive_one n bytes (p 0) 0 received

  -- A frame adds its value `i` at the position `3 * k + i` of a node, `k` being its number.
  pub receive_duty-here :
      (k n : ℕ) (bytes : List ℕ) (received : List F) (i : ℕ)
      → get_or bytes 6 0 ≡ k
      → k < 80
      → i < 3
      → k * 3 + i < n
      → k * 3 + i < length received
      → get_or (receive_duty n bytes received) (k * 3 + i) (nat 0)
        ≡ d.add (get_or received (k * 3 + i) (nat 0)) (decode_duty (duty_at bytes i))
  unfolding receive_duty
  receive_duty-here k n bytes received i e small lt h len =
      rw e (all_steps-here k n bytes received (k * 3 + i) small h len i lt refl)

  -- It changes no other position of a node.
  pub receive_duty-other :
      (k n : ℕ) (bytes : List ℕ) (received : List F) (j : ℕ)
      → get_or bytes 6 0 ≡ k
      → k < 80
      → j < n
      → j < length received
      → j / 3 ≢ k
      → get_or (receive_duty n bytes received) j (nat 0) ≡ get_or received j (nat 0)
  unfolding receive_duty
  receive_duty-other k n bytes received j e small h len ne =
      rw e (all_steps-other k n bytes received j small h len (λ i lt. omega arith))
