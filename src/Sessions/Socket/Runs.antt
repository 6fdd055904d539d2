-- ===== src/Sessions/Socket/Runs.antt =====
-- Every run of a web socket among the others of the server (lib/inc/websocket_session.h).
use geoff.Prelude.{
  ℕ, suc, ◌+◌, ◌≤◌, ◌<◌, ◌≡◌, refl, false, List, none, some, arith, sym, ◌∙◌, ap, subst,
  >>=-eq-some,
}
use mathlib.Core.Option.{some-injective}
use geoff.SortedMap.{insert}
use geoff.SortedMap.Laws.{lookup-insert}
use geoff.Http.Text.{codes}
use geoff.Sessions.{SessionType, Sessions, add_session, delete_by_id, server_comms_handler}
use geoff.Sessions.Reachable.{
  IsSessions, insert-IsSessions, add_session-IsSessions, delete_by_id-IsSessions, step-IsSessions,
}
use geoff.Sessions.Reachable
use geoff.Http.Connection.{plain, ssl}
use geoff.Sessions.Socket.{
  make_websocket_session, Socket, closed, read_error, message, do_read, failed, send_next,
  find_and_send, with_callback, on_accept, on_message, on_read, on_write,
}
use geoff.Sessions.Socket.Steps.{
  Move, Step, Reach, moved, accepted, received, wrote, posted, others, start, later,
}
use geoff.Sessions.Socket.Present.{
  Present, server_comms_handler-Present, OneWrite, send_next-Sent, find_and_send-Sent,
}
use geoff.Sessions.Found.{find_by_id-add_session}

module _ {S W : Type 0} (t : SessionType S W) (this : ℕ) where
  -- At most one handshake or read is under way, and one write; and while a read is, the socket has a
  -- session, which is in the map.
  pub record IsSocket (s : Socket) (m : Sessions S W) : Type 0 where
    pub sessions : IsSessions t m
    pub one_read : s.accepts + s.reads ≤ 1
    pub one_write : OneWrite s
    pub named : 0 < s.reads + s.writes → (id : ℕ) × (s.session_id ≡ some id)
    pub present : (id : ℕ) → 0 < s.reads → s.session_id ≡ some id → Present id m

  -- A socket that has its session.
  ready :
      (s : Socket) (m : Sessions S W) (id : ℕ)
      → s.session_id ≡ some id
      → IsSessions t m
      → (0 < s.reads → Present id m)
      → OneWrite s
      → s.accepts + s.reads ≤ 1
      → IsSocket s m
  ready s m id e i p w one = record {
    sessions = i;
    one_read = one;
    one_write = w;
    named = λ h. (id, e);
    present = λ id' h e'. subst (λ k. Present k m) (some-injective _ _ (sym e ∙ e')) (p h);
  }

  -- An operation is over, and nothing else has changed but the log.
  fewer :
      (s s' : Socket) (m : Sessions S W)
      → IsSocket s m
      → s'.session_id ≡ s.session_id
      → s'.accepts + s'.reads ≤ s.accepts + s.reads
      → s'.reads ≤ s.reads
      → s'.writes ≤ s.writes
      → OneWrite s'
      → IsSocket s' m
  fewer s s' m i e a r w one =
      let one_read = i.one_read in
      record {
        sessions = i.sessions;
        one_read = omega arith;
        one_write = one;
        named = λ h. let (id, e') = i.named (omega arith) in (id, e ∙ e');
        present = λ id h e'. i.present id (omega arith) (sym e ∙ e');
      }

  pub accepted-IsSocket :
      (s : Socket) (m : Sessions S W) (n : ℕ)
      → IsSocket s m
      → s.accepts ≡ suc n
      → (s' : Socket) × (m' : Sessions S W) × (on_accept t this none (record s { accepts = n }, m)
          ≡ some (s', m'))
        × IsSocket s' m'
        × (s'.reads ≡ 1)
  unfolding on_accept with_callback add_session
  accepted-IsSocket s m n i e =
      let one = i.one_read in
      let (id, m1) = add_session t m in
      let x = t.set_on_tx_ready_callback this (t.make m.next_id) in
      let m' : Sessions S W = record m1 { map = insert id (some x) m1.map } in
      let s' : Socket = record s { accepts = n; reads = suc s.reads; session_id = some id } in
      let keyed = t.session_id-set this (t.make m.next_id) ∙ t.session_id-make m.next_id in
      (
        s',
        m',
        ap (λ f. with_callback t this id f (record s { accepts = n })) (find_by_id-add_session t m),
        ready s' m' id refl
            (insert-IsSessions t id x m1 keyed (add_session-IsSessions t m i.sessions))
            (λ h. (x, lookup-insert id (some x) m1.map)) i.one_write (omega arith),
        omega arith,
      )

  on_message-IsSocket :
      (id : ℕ) (bytes : List ℕ) (s s' : Socket) (m m' : Sessions S W)
      → s.session_id ≡ some id
      → s.accepts + s.reads ≡ 0
      → OneWrite s
      → IsSessions t m
      → Present id m
      → on_message t id bytes (s, m) ≡ some (s', m')
      → IsSocket s' m'
  unfolding on_message
  on_message-IsSocket id bytes s s' m m' sid none_read w i p e =
      let (m1, handled, e1) = >>=-eq-some (server_comms_handler t id bytes m) _ e in
      let i1 = step-IsSessions t (Reachable.Step.message id bytes handled) i in
      let p1 = server_comms_handler-Present t id bytes m m1 p handled in
      let r = find_and_send-Sent t id s m1 i1 w in
      let sent = find_and_send t id (s, m1) in
      let accepts = r.same_accepts in
      let reads = r.same_reads in
      subst (λ q. IsSocket q.0 q.1) (some-injective _ _ e1)
        (ready (do_read sent.0) sent.1 id (r.same_id ∙ sid) r.sessions (λ h. r.present p1)
          r.one_write (omega arith))

  move-IsSocket :
      {s s' : Socket} {m m' : Sessions S W} → Move t this s m s' m' → IsSocket s m → IsSocket s' m'
  unfolding on_accept on_read on_write
  move-IsSocket {s} {s'} {m} {m'} (accepted n none e h) i =
      let (s1, m1, h1, i1, _) = accepted-IsSocket s m n i e in
      subst (λ q. IsSocket q.0 q.1) (some-injective _ _ (sym h1 ∙ h)) i1
  move-IsSocket {s} {s'} {m} {m'} (accepted n (some ec) e h) i =
      subst (λ q. IsSocket q.0 q.1) (some-injective _ _ h)
        (fewer s (failed ec (codes "accept") (record s { accepts = n })) m i refl (omega arith)
          (omega arith) (omega arith) i.one_write)
  move-IsSocket {s} {s'} {m} {m'} (received n closed e h) i =
      let (id, sid, h1) = >>=-eq-some s.session_id _ h in
      let one = i.one_read in
      subst (λ q. IsSocket q.0 q.1) (some-injective _ _ h1)
        (ready (record s { reads = n }) (delete_by_id id m) id sid
          (delete_by_id-IsSessions t id m i.sessions) (λ h2. absurd (omega arith)) i.one_write
          (omega arith))
  move-IsSocket {s} {s'} {m} {m'} (received n (read_error ec) e h) i =
      subst (λ q. IsSocket q.0 q.1) (some-injective _ _ h)
        (fewer s (failed ec (codes "read") (record s { reads = n })) m i refl (omega arith)
          (omega arith) (omega arith) i.one_write)
  move-IsSocket {s} {s'} {m} {m'} (received n (message bytes) e h) i =
      let (id, sid, h1) = >>=-eq-some s.session_id _ h in
      let one = i.one_read in
      on_message-IsSocket id bytes (record s { reads = n }) s' m m' sid (omega arith) i.one_write
        i.sessions (i.present id (omega arith) sid) h1
  move-IsSocket {s} {s'} {m} {m'} (wrote n (some ec) e h) i =
      let (one, idle) = i.one_write in
      subst (λ q. IsSocket q.0 q.1) (some-injective _ _ h)
        (fewer s (failed ec (codes "write") (record s { writes = n })) m i refl (omega arith)
          (omega arith) (omega arith) (ground arith))
  move-IsSocket {s} {s'} {m} {m'} (wrote n none e h) i =
      let (id, sid, h1) = >>=-eq-some s.session_id _ h in
      let (one, idle) = i.one_write in
      let s0 : Socket = record s { writes = n; write_active = false } in
      let none_left : OneWrite s0 = (omega arith, λ h2. omega arith) in
      let r = find_and_send-Sent t id s0 m i.sessions none_left in
      let accepts = r.same_accepts in
      let reads = r.same_reads in
      let one_read = i.one_read in
      let sent = find_and_send t id (s0, m) in
      subst (λ q. IsSocket q.0 q.1) (some-injective _ _ h1)
        (ready sent.0 sent.1 id (r.same_id ∙ sid) r.sessions
          (λ h2. r.present (i.present id (omega arith) sid)) r.one_write (omega arith))
  move-IsSocket {s} {s'} {m} {m'} (posted id x sid e alive) i =
      let keyed : (x' : S) → some x ≡ some x' → t.session_id x' ≡ id =
        λ x' e'. i.sessions.keyed id x' (e ∙ ap some e') in
      let r = send_next-Sent t id (some x) s m i.sessions keyed i.one_write in
      let sent = send_next t id (some x) (s, m) in
      let accepts = r.same_accepts in
      let reads = r.same_reads in
      let one_read = i.one_read in
      ready sent.0 sent.1 id (r.same_id ∙ sid) r.sessions (λ h. r.present (x, e)) r.one_write
        (omega arith)

  step-IsSocket :
      {s s' : Socket} {m m' : Sessions S W} → Step t this s m s' m' → IsSocket s m → IsSocket s' m'
  step-IsSocket (moved move) i = move-IsSocket move i
  step-IsSocket {s} {s'} {m} {m'} (others m1 i1 keeps) i = record {
    sessions = i1;
    one_read = i.one_read;
    one_write = i.one_write;
    named = i.named;
    present = λ id h e. keeps id e (i.present id h e);
  }

  -- A socket of which nothing but the handshake is under way.
  begun :
      (s : Socket) (m : Sessions S W)
      → s.accepts ≡ 1
      → s.reads ≡ 0
      → s.writes ≡ 0
      → IsSessions t m
      → IsSocket s m
  begun s m a r w i = record {
    sessions = i;
    one_read = omega arith;
    one_write = (omega arith, λ h. w);
    named = λ h. absurd (omega arith);
    present = λ id h e. absurd (omega arith);
  }

  -- In every state that a web socket reaches, whatever the other sockets and the ticks do to their
  -- sessions: at most one handshake or read and one write is under way, and while it reads it has a
  -- session, which is in the map.
  pub Reach-IsSocket : {s : Socket} {m : Sessions S W} → Reach t this s m → IsSocket s m
  Reach-IsSocket (start plain m i) = begun (make_websocket_session plain) m refl refl refl i
  Reach-IsSocket (start ssl m i) = begun (make_websocket_session ssl) m refl refl refl i
  Reach-IsSocket (later r step) = step-IsSocket step (Reach-IsSocket r)
