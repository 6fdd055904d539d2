-- ===== src/Sessions/Socket/Effect.antt =====
-- What the handlers of a web socket do to the socket's name and to the sessions
-- (lib/inc/websocket_session.h).
use geoff.Prelude.{
  List, false, ℕ, suc, ◌+◌, ◌%◌, ◌≤◌, ◌≡◌, ◌≢◌, refl, Option, none, some, arith, inl, inr, ◌⊎◌, sym,
  ◌∙◌, ap, subst, >>=-eq-some,
}
use mathlib.Core.Option.{some-injective}
use geoff.Words.{u32_mod}
use geoff.SortedMap.{lookup, insert}
use geoff.SortedMap.Laws.{lookup-insert, lookup-insert_other}
use geoff.Http.Text.{codes}
use geoff.Sessions.{SessionType, Sessions, add_session, server_comms_handler}
use geoff.Sessions.Found.{find_by_id-add_session}
use geoff.Sessions.Reachable.{IsSessions}
use geoff.Sessions.Socket.{
  Socket, closed, read_error, message, failed, do_read, with_callback, send_next, find_and_send,
  on_accept, on_message, on_read, on_write,
}
use geoff.Sessions.Socket.Present.{write_popped_frame}
use geoff.Sessions.Socket.Within.{
  Within, Within-trans, delete_by_id-Within, server_comms_handler-Within, send_next-Within,
  find_and_send-Within,
}
use geoff.Sessions.Socket.Steps.{Move, accepted, received, wrote, posted}

module _ {S W : Type 0} (t : SessionType S W) (this : ℕ) where
  -- The socket keeps its name, and no session but its own is lost.
  pub record Keeps (s s' : Socket) (m m' : Sessions S W) : Type 0 where
    pub same_id : s'.session_id ≡ s.session_id
    pub accepts : s'.accepts ≤ s.accepts
    pub within : (m' ≡ m) ⊎ ((id : ℕ) × (s.session_id ≡ some id) × Within t id m m')

  -- The socket gets a new session, which calls it back.
  pub record Joins (s s' : Socket) (m m' : Sessions S W) : Type 0 where
    pub handshake : s.accepts ≡ suc s'.accepts
    pub named : s'.session_id ≡ some m.next_id
    pub next : m'.next_id ≡ (m.next_id + 1) % u32_mod
    pub others : (k : ℕ) → k ≢ m.next_id → lookup k m'.map ≡ lookup k m.map
    pub mine : (x : S) → lookup m.next_id m'.map ≡ some (some x) → t.on_tx_ready x ≡ some this

  -- Only the log has changed, and what is under way.
  Keeps-same :
      (s s' : Socket) (m : Sessions S W)
      → s'.session_id ≡ s.session_id
      → s'.accepts ≤ s.accepts
      → Keeps s s' m m
  Keeps-same s s' m e a = record { same_id = e; accepts = a; within = inl refl }

  send_next_frame :
      (id : ℕ) (o : Option S) (s : Socket) (m : Sessions S W)
      → let s' = (send_next t id o (s, m)).0 in
        (s'.session_id ≡ s.session_id) × (s'.accepts ≡ s.accepts)
  unfolding send_next
  send_next_frame id none s m = (refl, refl)
  send_next_frame id (some x) s m =
      let (same_id, accepts, _) = write_popped_frame (t.get_next_tx_buffer x).0 s in
      (same_id, accepts)

  find_and_send_frame :
      (id : ℕ) (s : Socket) (m : Sessions S W)
      → let s' = (find_and_send t id (s, m)).0 in
        (s'.session_id ≡ s.session_id) × (s'.accepts ≡ s.accepts)
  unfolding find_and_send
  find_and_send_frame id s m = send_next_frame id _ s _

  on_message-Keeps :
      (id : ℕ) (s s' : Socket) (m m' : Sessions S W) (bytes : List ℕ)
      → s.session_id ≡ some id
      → on_message t id bytes (s, m) ≡ some (s', m')
      → Keeps s s' m m'
  unfolding on_message
  on_message-Keeps id s s' m m' bytes sid e =
      let (m1, handled, e1) = >>=-eq-some (server_comms_handler t id bytes m) _ e in
      let sent = find_and_send t id (s, m1) in
      let (same_id, accepts) = find_and_send_frame id s m1 in
      subst (λ q. Keeps s q.0 m q.1) (some-injective _ _ e1)
        (record {
          same_id = same_id;
          accepts = omega (arith, accepts);
          within = inr (
            id,
            sid,
            Within-trans t (server_comms_handler-Within t id bytes m m1 handled)
                (find_and_send-Within t id s m1),
          );
        })

  join :
      (s : Socket) (m : Sessions S W)
      → (s' : Socket) × (m' : Sessions S W) × (on_accept t this none (s, m) ≡ some (s', m'))
        × ((s0 : Socket) → s0.accepts ≡ suc s.accepts → Joins s0 s' m m')
  unfolding on_accept with_callback add_session
  join s m =
      let (id, m1) = add_session t m in
      let x = t.set_on_tx_ready_callback this (t.make id) in
      let m' : Sessions S W = record m1 { map = insert id (some x) m1.map } in
      (
        do_read (record s { session_id = some id }),
        m',
        ap (λ f. with_callback t this id f s) (find_by_id-add_session t m),
        λ s0 a. record {
          handshake = a;
          named = refl;
          next = refl;
          others = λ k ne.
              lookup-insert_other id k (some x) m1.map ne
              ∙ lookup-insert_other id k (some (t.make id)) m.map ne;
          mine = λ y e.
              ap t.on_tx_ready (
                sym (
                  some-injective _ _
                    (some-injective _ _ (sym (lookup-insert id (some x) m1.map) ∙ e))))
              ∙ t.on_tx_ready-set this (t.make id);
        },
      )

  -- Whatever the socket does, it keeps its name, or it gets one from a handshake.
  abbrev pub Effect :
      {s : Socket} {m : Sessions S W} {s' : Socket} {m' : Sessions S W}
      → Move t this s m s' m'
      → Type 0
  Effect {s} {m} {s'} {m'} (accepted n none a e) = Joins s s' m m'
  Effect {s} {m} {s'} {m'} _ = Keeps s s' m m'

  pub move-Effect :
      {s : Socket} {m : Sessions S W} {s' : Socket} {m' : Sessions S W}
      → IsSessions t m
      → (move : Move t this s m s' m') → Effect move
  unfolding on_accept on_read on_write
  move-Effect {s} {m} {s'} {m'} i (accepted n (some ec) a e) =
      (subst (λ q. Keeps s q.0 m q.1) (some-injective _ _ e)
        (Keeps-same s (failed ec (codes "accept") (record s { accepts = n })) m refl (omega arith)))
  move-Effect {s} {m} {s'} {m'} i (accepted n none a e) =
      let (s1, m1, e1, h) = join (record s { accepts = n }) m in
      (subst (λ q. Joins s q.0 m q.1) (some-injective _ _ (sym e1 ∙ e)) (h s a))
  move-Effect {s} {m} {s'} {m'} i (received n closed r e) =
      let (id, sid, e1) = >>=-eq-some s.session_id _ e in
      (subst (λ q. Keeps s q.0 m q.1) (some-injective _ _ e1)
        (record {
          same_id = refl;
          accepts = omega arith;
          within = inr (id, sid, delete_by_id-Within t id m i);
        }))
  move-Effect {s} {m} {s'} {m'} i (received n (read_error ec) r e) =
      (subst (λ q. Keeps s q.0 m q.1) (some-injective _ _ e)
        (Keeps-same s (failed ec (codes "read") (record s { reads = n })) m refl (omega arith)))
  move-Effect {s} {m} {s'} {m'} i (received n (message bytes) r e) =
      let (id, sid, e1) = >>=-eq-some s.session_id _ e in
      let k = on_message-Keeps id (record s { reads = n }) s' m m' bytes sid e1 in
      (record { same_id = k.same_id; accepts = k.accepts; within = k.within })
  move-Effect {s} {m} {s'} {m'} i (wrote n (some ec) r e) =
      (subst (λ q. Keeps s q.0 m q.1) (some-injective _ _ e)
        (Keeps-same s (failed ec (codes "write") (record s { writes = n })) m refl (omega arith)))
  move-Effect {s} {m} {s'} {m'} i (wrote n none r e) =
      let (id, sid, e1) = >>=-eq-some s.session_id _ e in
      let s0 : Socket = record s { writes = n; write_active = false } in
      let (same_id, accepts) = find_and_send_frame id s0 m in
      (subst (λ q. Keeps s q.0 m q.1) (some-injective _ _ e1)
        (record {
          same_id = same_id;
          accepts = omega (arith, accepts);
          within = inr (id, sid, find_and_send-Within t id s0 m);
        }))
  move-Effect {s} {m} {s'} {m'} i (posted id x sid e alive) =
      let (same_id, accepts) = send_next_frame id (some x) s m in
      (record {
        same_id = same_id;
        accepts = omega (arith, accepts);
        within = inr (id, sid, send_next-Within t id (some x) s m (λ y e'. e ∙ ap some e'));
      })
