-- ===== src/MainLoop/Drain.antt =====
-- The loop that empties the frame buffer.
use scdtr_project.Prelude.{
  ℕ, zero, suc, ◌+◌, ◌<◌, ◌≡◌, refl, sym, ap, subst, ◌∙◌, true, false, List, [], ◌∷◌, arith, length,
}
use scdtr_project.Frame.{Frame}
use scdtr_project.Stream.{FrameStream, get}
use scdtr_project.Stream.Inv.{IsValid, get-IsValid}
use scdtr_project.Stream.Refine.{contents, dequeue, get_refines, length-contents}
use scdtr_project.Float.{Float}
use scdtr_project.Firmware.{Firmware}
use scdtr_project.MainLoop.{
  when_frame, Main, Environment, handle_frame, drain, drain_fuel, receive_frames,
}

module _ {ℓ} {F : Type ℓ} ⦃d : Float F⦄ (env : ℕ → Environment) where
  -- The specification: the frames are handled one after the other.
  abbrev pub handle_all : ℕ → List Frame → Firmware F → Firmware F
  handle_all i [] s = s
  handle_all i (f ∷ fs) s = handle_all (i + 1) fs (handle_frame env i f s)

  drain_lem :
      (fuel i : ℕ) (q : List Frame) (stream : FrameStream) (s : Firmware F)
      → IsValid stream
      → contents stream ≡ q
      → length q < fuel
      → let (stream', s') = drain fuel env i stream s in
        (contents stream' ≡ []) × IsValid stream' × (s' ≡ handle_all i q s)
  unfolding drain dequeue
  drain_lem zero i q stream s v e h = absurd (omega arith)
  drain_lem (suc fuel) i [] stream s v e h =
      let r = get_refines v ∙ ap dequeue e in
      let step : drain (suc fuel) env i stream s ≡ ((get stream).1, s) =
        ap
          (λ a.
            when_frame a ((get stream).1, s)
              (λ f. drain fuel env (i + 1) (get stream).1 (handle_frame env i f s)))
          (ap (λ p. p.0) r) in
      (
        ap (λ p. contents p.0) step ∙ ap (λ p. p.1) r,
        subst (λ p. IsValid p.0) (sym step) (get-IsValid v),
        ap (λ p. p.1) step,
      )
  drain_lem (suc fuel) i (f ∷ fs) stream s v e h =
      let r = get_refines v ∙ ap dequeue e in
      let step : drain (suc fuel) env i stream s
          ≡ drain fuel env (i + 1) (get stream).1 (handle_frame env i f s) =
        ap
          (λ a.
            when_frame a ((get stream).1, s)
              (λ f. drain fuel env (i + 1) (get stream).1 (handle_frame env i f s)))
          (ap (λ p. p.0) r) in
      let (empty, valid, same) =
        drain_lem fuel (i + 1) fs (get stream).1 (handle_frame env i f s) (get-IsValid v)
          (ap (λ p. p.1) r) (omega arith) in
      (
        ap (λ p. contents p.0) step ∙ empty,
        subst (λ p. IsValid p.0) (sym step) valid,
        ap (λ p. p.1) step ∙ same,
      )

  -- After an interrupt a round of the main loop handles every frame in a valid buffer, oldest first, and
  -- leaves the buffer valid and empty and the flags of the interrupt and of its overflow cleared.
  pub receive_frames-all :
      (m : Main F)
      → IsValid m.cf_stream
      → m.interrupt ≡ true
      → let m' = receive_frames env m in
        (m'.node ≡ handle_all 0 (contents m.cf_stream) m.node)
        × (contents m'.cf_stream ≡ [])
        × IsValid m'.cf_stream
        × (m'.interrupt ≡ false)
        × (m'.arduino_overflow ≡ false)
  unfolding receive_frames
  receive_frames-all m v e =
      let few : length (contents m.cf_stream) < drain_fuel =
        ground (arith, length-contents m.cf_stream, v) in
      let (empty, valid, done) =
        drain_lem drain_fuel 0 (contents m.cf_stream) m.cf_stream m.node v refl few in
      rw e (done, empty, valid, refl, refl)
