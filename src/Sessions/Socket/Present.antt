-- ===== src/Sessions/Socket/Present.antt =====
-- What the handlers of a web socket do to its session, while it is in the map
-- (lib/inc/websocket_session.h, lib/src/WebsockServer.cpp).
use geoff.Prelude.{
  ℕ, ◌≤◌, ◌≡◌, refl, false, List, Option, none, some, arith, sym, ◌∙◌, ap, subst, >>=-eq-some,
}
use mathlib.Core.Option.{some-injective}
use geoff.AppBuffer.{AppBuffer}
use geoff.SortedMap.{lookup}
use geoff.SortedMap.Laws.{lookup-insert}
use geoff.Sessions.{
  SessionType, Sessions, find_by_id, entered, add_session, server_comms_handler, handled,
}
use geoff.Sessions.Reachable.{IsSessions, insert-IsSessions, find_by_id-IsSessions}
use geoff.Sessions.Socket.{Socket, do_write, write_popped, send_next, find_and_send}

module _ {S W : Type 0} where
  -- A session stands at the id.
  abbrev pub Present : ℕ → Sessions S W → Type 0
  Present id m = (x : S) × (lookup id m.map ≡ some (some x))

  pub find_by_id-present :
      (id : ℕ) (m : Sessions S W) (x : S)
      → lookup id m.map ≡ some (some x)
      → find_by_id id m ≡ (some x, m)
  unfolding find_by_id entered
  find_by_id-present id m x e = rw e refl

  module _ (t : SessionType S W) where
    pub server_comms_handler-Present :
        (id : ℕ) (bytes : List ℕ) (m m' : Sessions S W)
        → Present id m
        → server_comms_handler t id bytes m ≡ some m'
        → Present id m'
    unfolding server_comms_handler handled
    server_comms_handler-Present id bytes m m' (x, e) h =
        let h' : handled t id bytes (some x) m ≡ some m' =
          subst (λ f. handled t id bytes f.0 f.1 ≡ some m') (find_by_id-present id m x e) h in
        let ((x', w'), _, e1) = >>=-eq-some (t.comms_handler bytes (x, m.world)) _ h' in
        (
          x',
          ap (λ q. lookup id q.map) (sym (some-injective _ _ e1))
              ∙ lookup-insert id (some x') m.map,
        )

    pub add_session-Present : (m : Sessions S W) → Present (add_session t m).0 (add_session t m).1
    unfolding add_session
    add_session-Present m =
        (t.make m.next_id, lookup-insert m.next_id (some (t.make m.next_id)) m.map)

-- What a write leaves of the operations.
pub write_popped_frame :
    (tx : Option AppBuffer) (s : Socket)
    → let s' = write_popped tx s in
      (s'.session_id ≡ s.session_id) × (s'.accepts ≡ s.accepts) × (s'.reads ≡ s.reads)
unfolding do_write
write_popped_frame tx s = ground arith

-- At most one write is under way, and none when the flag is down.
abbrev pub OneWrite : Socket → Type 0
OneWrite s = (s.writes ≤ 1) × (s.write_active ≡ false → s.writes ≡ 0)

pub write_popped-OneWrite :
    (tx : Option AppBuffer) (s : Socket) → OneWrite s → OneWrite (write_popped tx s)
unfolding do_write
write_popped-OneWrite tx s h = ground arith

-- The session at `id` is not lost, and the rest of the socket is as it was.
pub record Sent {S W : Type 0} (t : SessionType S W) (id : ℕ) (s s' : Socket) (m m' : Sessions S W)
    : Type 0 where
  pub sessions : IsSessions t m'
  pub one_write : OneWrite s'
  pub same_id : s'.session_id ≡ s.session_id
  pub same_accepts : s'.accepts ≡ s.accepts
  pub same_reads : s'.reads ≡ s.reads
  pub present : Present id m → Present id m'

module _ {S W : Type 0} (t : SessionType S W) where
  -- What the handler that OnTxReady posts sends.
  pub send_next-Sent :
      (id : ℕ) (o : Option S) (s : Socket) (m : Sessions S W)
      → IsSessions t m
      → ((x : S) → o ≡ some x → t.session_id x ≡ id)
      → OneWrite s
      → let (s', m') = send_next t id o (s, m) in Sent t id s s' m m'
  unfolding send_next
  send_next-Sent id none s m i keyed h = record {
    sessions = i;
    one_write = h;
    same_id = refl;
    same_accepts = refl;
    same_reads = refl;
    present = λ p. p;
  }
  send_next-Sent id (some x) s m i keyed h =
      let (named, accepts, reads) = write_popped_frame (t.get_next_tx_buffer x).0 s in
      record {
        sessions =
            insert-IsSessions t id (t.get_next_tx_buffer x).1 m
              ((t.get_next_tx_buffer_frame x).0 ∙ keyed x refl) i;
        one_write = write_popped-OneWrite (t.get_next_tx_buffer x).0 s h;
        same_id = named;
        same_accepts = accepts;
        same_reads = reads;
        present = λ p.
            ((t.get_next_tx_buffer x).1, lookup-insert id (some (t.get_next_tx_buffer x).1) m.map);
      }

  -- What the end of a read and of a write send.
  pub find_and_send-Sent :
      (id : ℕ) (s : Socket) (m : Sessions S W)
      → IsSessions t m
      → OneWrite s
      → let (s', m') = find_and_send t id (s, m) in Sent t id s s' m m'
  unfolding find_and_send
  find_and_send-Sent id s m i h =
      let (i', keyed) = find_by_id-IsSessions t id m i in
      let found = find_by_id id m in
      let r = send_next-Sent id found.0 s found.1 i' keyed h in
      record {
        sessions = r.sessions;
        one_write = r.one_write;
        same_id = r.same_id;
        same_accepts = r.same_accepts;
        same_reads = r.same_reads;
        present = λ (x, e).
            r.present (subst (λ f. Present id f.1) (sym (find_by_id-present id m x e)) (x, e));
      }
