-- ===== src/Session/Serving.antt =====
-- What holds of the sessions, of the reads that are under way and of the streams.
use scdtr_project.Prelude.{
  ℕ, ◌+◌, ◌<◌, ◌≡◌, sym, ap, subst, ◌∙◌, ◌⊎◌, inl, inr, true, false, List, [], ◌∷◌, arith, ◌==◌,
  if◌then◌else◌, ==_iff, Bool-cases, All, All-append, is_in,
}
use scdtr_project.Server.{Server, ActiveStream, write_text}
use scdtr_project.Server.Queue.{is_connected, remove_client_session}
use scdtr_project.Session.Streams.{
  Connected, Distinct, is_in-append_left, is_in-append_self, Distinct-append, All-lt_suc,
  is_in-erase, Distinct-erase, All-erase, Connected-append, Connected-erase,
}
use scdtr_project.Session.Kept.{IsKept}
use scdtr_project.Session.{
  Connection, Pc, set_connection, start_receive_read, start_session, accept,
}

-- Every read that is under way is that of a session, every stream goes to the console or to a
-- session, and the sessions are distinct and have been made.
pub record IsServing {ℓ} {F : Type ℓ} (pc : Pc F) : Type 0 where
  pub made : All (λ c. c < pc.sessions_made) pc.server.client_sessions
  pub distinct : Distinct pc.server.client_sessions
  pub read : (c : ℕ) → (pc.connections c).reading ≡ true → is_in c pc.server.client_sessions ≡ true
  pub streamed :
      (id : ℕ)
      → All
          (λ a. is_connected a.to_client pc.server.client_sessions ≡ true)
          (pc.server.active_streams id)

reading-started :
    (c i : ℕ) (buffer : List ℕ) (connections : ℕ → Connection)
    → (if i == c then record { received = buffer; reading = true } else connections i).reading
      ≡ true
    → (i ≡ c) ⊎ ((connections i).reading ≡ true)
reading-started c i buffer connections on = elim (Bool-cases (i == c)) [
  | inl t ↦ inl ((==_iff i c).0 t)
  | inr f ↦ inr (rw f at on)
]

not_both : false ≡ true → ⊥
not_both h = cc

pub reading-closed :
    (c i : ℕ) (buffer : List ℕ) (connections : ℕ → Connection)
    → (if i == c then record { received = buffer; reading = false } else connections i).reading
      ≡ true
    → ((i == c) ≡ false) × ((connections i).reading ≡ true)
reading-closed c i buffer connections on = elim (Bool-cases (i == c)) [
  | inl t ↦ absurd (not_both (rw t at on))
  | inr f ↦ (f, rw f at on)
]

module _ {ℓ} {F : Type ℓ} where
  -- The same sessions and streams.
  pub kept-IsServing :
      (pc : Pc F) (s : Server F)
      → IsKept pc.server s
      → IsServing pc
      → IsServing (record pc { server = s })
  kept-IsServing pc s k v = record {
    made = subst (All (λ c. c < pc.sessions_made)) (sym k.sessions) v.made;
    distinct = subst Distinct (sym k.sessions) v.distinct;
    read = λ c on. ap (is_in c) k.sessions ∙ v.read c on;
    streamed = λ id.
        subst (λ (l : List ℕ). Connected l (s.active_streams id)) (sym k.sessions)
          (subst (λ (f : ℕ → List ActiveStream). Connected pc.server.client_sessions (f id))
            (sym k.streams) (v.streamed id));
  }

  pub accept-IsServing : (stale : List ℕ) (pc : Pc F) → IsServing pc → IsServing (accept stale pc)
  unfolding accept start_session start_receive_read write_text
  accept-IsServing stale pc v =
      let c = pc.sessions_made in
      let sessions = pc.server.client_sessions in
      record {
        made =
            All-append (λ x. x < c + 1) sessions (c ∷ []) (All-lt_suc c sessions v.made)
              (omega arith, tt);
        distinct = Distinct-append c sessions v.made v.distinct;
        read = λ i on. elim (reading-started c i stale pc.connections on) [
          | inl self ↦ rw self (is_in-append_self c sessions)
          | inr was ↦ is_in-append_left i c sessions (v.read i was)
        ];
        streamed = λ id. Connected-append c sessions (pc.server.active_streams id) (v.streamed id);
      }

  -- The session goes, and its read is not started again.
  pub remove-IsServing :
      (c : ℕ) (buffer : List ℕ) (pc : Pc F)
      → IsServing pc
      → IsServing (
          set_connection c
            (record { received = buffer; reading = false })
            (record pc { server = remove_client_session c pc.server }))
  unfolding remove_client_session
  remove-IsServing c buffer pc v =
      let sessions = pc.server.client_sessions in
      record {
        made = All-erase pc.sessions_made c sessions v.made;
        distinct = Distinct-erase c sessions v.distinct;
        read = λ i on.
            let (other, was) = reading-closed c i buffer pc.connections on in
            is_in-erase c i sessions other ∙ v.read i was;
        streamed = λ id. Connected-erase c sessions (pc.server.active_streams id) (v.streamed id);
      }

  -- A read that goes on.
  pub restart-IsServing :
      (c : ℕ) (buffer : List ℕ) (pc : Pc F)
      → is_in c pc.server.client_sessions ≡ true
      → IsServing pc
      → IsServing (start_receive_read c buffer pc)
  unfolding start_receive_read
  restart-IsServing c buffer pc on v = record {
    made = v.made;
    distinct = v.distinct;
    read = λ i r. elim (reading-started c i buffer pc.connections r) [
      | inl self ↦ rw self on
      | inr was ↦ v.read i was
    ];
    streamed = v.streamed;
  }
