-- ===== src/Session/Events.antt =====
-- What can happen at the server, one event after the other.
use scdtr_project.Prelude.{
  ℕ, ◌≡◌, sym, ap, subst, ◌∙◌, inl, inr, true, false, some, List, [], ◌∷◌, arith, ltb,
  if◌then◌else◌, Bool-cases, if-both, length, All, is_in,
}
use scdtr_project.Float.{Float}
use scdtr_project.Server.Queue.{is_client, command_timed_out, remove_client_session}
use scdtr_project.Server.Parser.{handle_read_serial}
use scdtr_project.Session.Streams.{is_connected-some, gone_from, erase_stream-gone}
use scdtr_project.Session.Kept.{command_timed_out-IsKept, handle_read_serial-IsKept}
use scdtr_project.Session.{
  Pc, Event, accepts, reads, closes, types, hears, times_out, c_string, store, set_connection,
  start_receive_read, take_line, receive_read, handle, happen, happen_all,
}
use scdtr_project.Session.Serving.{
  IsServing, kept-IsServing, accept-IsServing, remove-IsServing, restart-IsServing, reading-closed,
}
use scdtr_project.Session.Typed.{take_line-IsServing, take_line-sessions, read_console-IsServing}

module _ {ℓ} {F : Type ℓ} ⦃d : Float F⦄ where
  reads-IsServing :
      (now c : ℕ) (chunk : List ℕ) (pc : Pc F)
      → is_in c pc.server.client_sessions ≡ true
      → IsServing pc
      → IsServing (receive_read now c false chunk pc)
  unfolding receive_read
  reads-IsServing now c chunk pc on v =
      let buffer = store chunk (pc.connections c).received in
      let line = c_string buffer in
      let typed : Pc F = record pc { server = take_line now line (some c) pc.server } in
      let over : Pc F = set_connection c (record { received = buffer; reading = false }) pc in
      let v' =
        take_line-IsServing now line (some c) pc (is_connected-some c pc.server.client_sessions on)
          v in
      if-both IsServing (ltb 0 (length chunk)) {x = start_receive_read c buffer typed} {y = over}
        (restart-IsServing c buffer typed
          (ap (is_in c) (take_line-sessions now line (some c) pc.server) ∙ on) v')
        (record {
          made = v.made;
          distinct = v.distinct;
          read = λ i r. v.read i (reading-closed c i buffer pc.connections r).1;
          streamed = v.streamed;
        })

  handle-IsServing : (e : Event) (pc : Pc F) → IsServing pc → IsServing (handle e pc)
  unfolding handle receive_read
  handle-IsServing (accepts stale) pc v = accept-IsServing stale pc v
  handle-IsServing (reads now c chunk) pc v = elim (Bool-cases (pc.connections c).reading) [
    | inl on ↦
        subst (λ b. IsServing (if b then receive_read now c false chunk pc else pc)) (sym on)
          (reads-IsServing now c chunk pc (v.read c on) v)
    | inr off ↦
        subst (λ b. IsServing (if b then receive_read now c false chunk pc else pc)) (sym off) v
  ]
  handle-IsServing (closes now c) pc v = elim (Bool-cases (pc.connections c).reading) [
    | inl on ↦
        subst (λ b. IsServing (if b then receive_read now c true [] pc else pc)) (sym on)
          (remove-IsServing c (pc.connections c).received pc v)
    | inr off ↦ subst (λ b. IsServing (if b then receive_read now c true [] pc else pc)) (sym off) v
  ]
  handle-IsServing (types now line) pc v = read_console-IsServing now line pc v
  handle-IsServing (hears clock bytes) pc v =
      kept-IsServing pc (handle_read_serial clock bytes pc.server)
        (handle_read_serial-IsKept clock bytes pc.server) v
  handle-IsServing times_out pc v =
      if-both IsServing pc.server.timer_running
        {x = record pc { server = command_timed_out pc.server }} {y = pc}
        (kept-IsServing pc (command_timed_out pc.server) (command_timed_out-IsKept pc.server) v) v

  -- Whatever happens at the server, in any order, if no write to a client fails: every read that is
  -- under way is that of a session, so that a client that leaves is found in the list that it
  -- is removed from; every stream goes to the console or to a session; the sessions are distinct.
  pub happen_all-IsServing :
      (events : List Event) (pc : Pc F) → IsServing pc → IsServing (happen_all events pc)
  unfolding happen_all happen
  happen_all-IsServing [] pc v = v
  happen_all-IsServing (e ∷ events) pc v =
      happen_all-IsServing events (happen e pc)
        (if-both IsServing pc.running {x = handle e pc} {y = pc} (handle-IsServing e pc v) v)

  -- When the read of a client ends with an error, and what the theorem above states held before, this
  -- client has no session any more, no node streams to it, and it is not read again.
  pub happen-closes :
      (now c : ℕ) (pc : Pc F)
      → IsServing pc
      → pc.running ≡ true
      → (pc.connections c).reading ≡ true
      → let pc' = happen (closes now c) pc in
        (is_in c pc'.server.client_sessions ≡ false)
        × ((id : ℕ) → All (λ a. is_client c a.to_client ≡ false) (pc'.server.active_streams id))
        × ((pc'.connections c).reading ≡ false)
  unfolding happen handle receive_read remove_client_session
  happen-closes now c pc v on reading =
      rw (on, reading)
        (
          gone_from c pc.server.client_sessions v.distinct,
          (λ id. erase_stream-gone c (pc.server.active_streams id)),
          (ground arith),
        )
