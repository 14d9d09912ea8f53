-- ===== src/Session/Typed.antt =====
-- The lines that come in at the server, from a session or from the console.
use scdtr_project.Prelude.{
  ℕ, ◌<◌, ◌≡◌, sym, ap, subst, ◌∙◌, inl, inr, true, false, none, List, ◌==◌, if◌then◌else◌, if-both,
  All, is_in,
}
use scdtr_project.Float.{Float}
use scdtr_project.Command.{Command}
use scdtr_project.Server.{Server, Client}
use scdtr_project.Server.Queue.{is_connected, add_command_to_queue}
use scdtr_project.Interpreter.{interpret_command}
use scdtr_project.Interpreter.Outcome.{
  IsChanged, one-IsChanged, IsOutcome, interpret_command-IsOutcome,
}
use scdtr_project.Session.Streams.{is_connected-none, Connected, Distinct, Connected-changed}
use scdtr_project.Session.Kept.{add_command_to_queue-IsKept}
use scdtr_project.Session.{Pc, quit, take_line, read_console}
use scdtr_project.Session.Serving.{IsServing, kept-IsServing}

module _ {ℓ} {F : Type ℓ} ⦃d : Float F⦄ where
  -- A line keeps the sessions, and changes streams of its own client alone.
  pub record IsTyped (client : Client) (s s' : Server F) : Type 0 where
    sessions : s'.client_sessions ≡ s.client_sessions
    streams : (id : ℕ) → IsChanged client (s.active_streams id) (s'.active_streams id)

  outcome-IsTyped :
      (client : Client) (s s' : Server F) (c : Command)
      → IsOutcome client s (s', c)
      → IsTyped client s s'
  outcome-IsTyped client s s' c (inl same) = record {
    sessions = ap (λ (t : Server F). t.client_sessions) same;
    streams = λ id. inl (ap (λ (t : Server F). t.active_streams id) same);
  }
  outcome-IsTyped client s s' c (inr (empty, inl (texts, few, changed, streams))) = record {
    sessions = ap (λ (t : Server F). t.client_sessions) changed;
    streams = λ id. one-IsChanged client s.active_streams s'.active_streams id streams;
  }
  outcome-IsTyped client s s' c (inr (empty, inr (id, pwm, texts, few, changed))) = record {
    sessions = ap (λ (t : Server F). t.client_sessions) changed;
    streams = λ id. inl (ap (λ (t : Server F). t.active_streams id) changed);
  }

  pub typed-IsServing :
      (client : Client) (pc : Pc F) (s : Server F)
      → is_connected client pc.server.client_sessions ≡ true
      → IsTyped client pc.server s
      → IsServing pc
      → IsServing (record pc { server = s })
  typed-IsServing client pc s on t v =
      let sessions = pc.server.client_sessions in
      record {
        made = subst (All (λ c. c < pc.sessions_made)) (sym t.sessions) v.made;
        distinct = subst Distinct (sym t.sessions) v.distinct;
        read = λ c r. ap (is_in c) t.sessions ∙ v.read c r;
        streamed = λ id.
            subst (λ (l : List ℕ). Connected l (s.active_streams id)) (sym t.sessions)
              (Connected-changed client sessions (pc.server.active_streams id) (s.active_streams id)
                on (t.streams id) (v.streamed id));
      }

  queued-IsServing :
      (c : Command) (client : Client) (pc : Pc F) (s : Server F)
      → IsServing (record pc { server = s })
      → IsServing (record pc { server = add_command_to_queue c client s })
  queued-IsServing c client pc s v =
      kept-IsServing (record pc { server = s }) (add_command_to_queue c client s)
        (add_command_to_queue-IsKept c client s) v

  pub take_line-IsServing :
      (now : ℕ) (line : List ℕ) (client : Client) (pc : Pc F)
      → is_connected client pc.server.client_sessions ≡ true
      → IsServing pc
      → IsServing (record pc { server = take_line now line client pc.server })
  unfolding take_line
  take_line-IsServing now line client pc on v =
      let r = interpret_command now line client pc.server in
      let v' =
        typed-IsServing client pc r.0 on
          (outcome-IsTyped client pc.server r.0 r.1
            (interpret_command-IsOutcome now line client pc.server))
          v in
      if-both (λ (s : Server F). IsServing (record pc { server = s })) (r.1.cmd == 0) {x = r.0}
        {y = add_command_to_queue r.1 client r.0} v' (queued-IsServing r.1 client pc r.0 v')

  pub take_line-sessions :
      (now : ℕ) (line : List ℕ) (client : Client) (s : Server F)
      → (take_line now line client s).client_sessions ≡ s.client_sessions
  unfolding take_line
  take_line-sessions now line client s =
      let r = interpret_command now line client s in
      let t = outcome-IsTyped client s r.0 r.1 (interpret_command-IsOutcome now line client s) in
      let k = add_command_to_queue-IsKept r.1 client r.0 in
      if-both (λ (s' : Server F). s'.client_sessions ≡ s.client_sessions) (r.1.cmd == 0) {x = r.0}
        {y = add_command_to_queue r.1 client r.0} t.sessions (k.sessions ∙ t.sessions)

  pub read_console-IsServing :
      (now : ℕ) (line : List ℕ) (pc : Pc F) → IsServing pc → IsServing (read_console now line pc)
  unfolding read_console quit
  read_console-IsServing now line pc v =
      let r = interpret_command now line none pc.server in
      let v' =
        typed-IsServing none pc r.0 (is_connected-none pc.server.client_sessions)
          (outcome-IsTyped none pc.server r.0 r.1
            (interpret_command-IsOutcome now line none pc.server))
          v in
      let typed : Pc F = record pc { server = r.0 } in
      let sent : Pc F = record pc { server = add_command_to_queue r.1 none r.0 } in
      let stopped : Pc F = record typed { running = false } in
      if-both IsServing (r.1.cmd == b'q') {x = stopped} {y = if r.1.cmd == 0 then typed else sent}
        (record { made = v'.made; distinct = v'.distinct; read = v'.read; streamed = v'.streamed })
        (if-both IsServing (r.1.cmd == 0) {x = typed} {y = sent} v'
          (queued-IsServing r.1 none pc r.0 v'))
