-- ===== src/Sessions/Socket/Talking.antt =====
-- A web socket after its handshake, until it is closed or fails to read
-- (lib/inc/websocket_session.h).
use geoff.Prelude.{
  ℕ, suc, ◌≡◌, refl, Bool, true, false, List, Option, none, some, arith, sym, ◌∙◌, ap, >>=-eq-some,
}
use mathlib.Core.Option.{some-injective}
use geoff.Sessions.{SessionType, Sessions, server_comms_handler}
use geoff.Sessions.Socket.{
  Socket, closed, read_error, message, send_next, find_and_send, on_accept, on_message, on_read,
  on_write,
}
use geoff.Sessions.Socket.Present.{Present, write_popped_frame}
use geoff.Sessions.Socket.Steps
use geoff.Sessions.Socket.Steps.{
  Move, Step, Reach, moved, accepted, received, wrote, posted, others,
}
use geoff.Sessions.Socket.Runs.{IsSocket, accepted-IsSocket, Reach-IsSocket}

module _ {S W : Type 0} (t : SessionType S W) (this : ℕ) where
  -- Whether the step is the end of the last read: the client has closed the socket, or an error.
  unfoldable pub ends_reading :
      {s : Socket} {m : Sessions S W} {s' : Socket} {m' : Sessions S W}
      → Step t this s m s' m'
      → Bool
  ends_reading (moved (received n closed e h)) = true
  ends_reading (moved (received n (read_error ec) e h)) = true
  ends_reading _ = false

  -- The runs after a handshake that has succeeded in which no read was the last.
  pub data Talking : Socket → Sessions S W → Type 0 where
    begun :
        {s s' : Socket} {m m' : Sessions S W} (n : ℕ)
        → Reach t this s m
        → s.accepts ≡ suc n
        → on_accept t this none (record s { accepts = n }, m) ≡ some (s', m')
        → Talking s' m'
    going :
        {s s' : Socket} {m m' : Sessions S W}
        → Talking s m
        → (step : Step t this s m s' m') → ends_reading step ≡ false
        → Talking s' m'

  Talking-Reach : {s : Socket} {m : Sessions S W} → Talking s m → Reach t this s m
  Talking-Reach (begun n r e h) = Steps.Reach.later r (moved (accepted n none e h))
  Talking-Reach (going talking step h) = Steps.Reach.later (Talking-Reach talking) step

  send_next_reads :
      (id : ℕ) (o : Option S) (s : Socket) (m : Sessions S W)
      → (send_next t id o (s, m)).0.reads ≡ s.reads
  unfolding send_next
  send_next_reads id none s m = refl
  send_next_reads id (some x) s m =
      let (_, _, reads) = write_popped_frame (t.get_next_tx_buffer x).0 s in reads

  find_and_send_reads :
      (id : ℕ) (s : Socket) (m : Sessions S W) → (find_and_send t id (s, m)).0.reads ≡ s.reads
  unfolding find_and_send
  find_and_send_reads id s m = send_next_reads id _ s _

  on_message_reads :
      (id : ℕ) (bytes : List ℕ) (s s' : Socket) (m m' : Sessions S W)
      → on_message t id bytes (s, m) ≡ some (s', m')
      → s'.reads ≡ suc s.reads
  unfolding on_message
  on_message_reads id bytes s s' m m' e =
      let (m1, _, e1) = >>=-eq-some (server_comms_handler t id bytes m) _ e in
      sym (ap (λ q. q.0.reads) (some-injective _ _ e1)) ∙ ap suc (find_and_send_reads id s m1)

  -- The only steps that change how many reads are under way are a handshake and the last read.
  step_reads :
      {s : Socket} {m : Sessions S W} {s' : Socket} {m' : Sessions S W}
      → IsSocket t this s m
      → s.reads ≡ 1
      → (step : Step t this s m s' m') → ends_reading step ≡ false
      → s'.reads ≡ 1
  unfolding on_read on_write ends_reading
  step_reads i one (moved (accepted n ec e h)) goes =
      let one_read = i.one_read in absurd (omega arith)
  step_reads i one (moved (received n closed e h)) goes = absurd (ground arith)
  step_reads i one (moved (received n (read_error ec) e h)) goes = absurd (ground arith)
  step_reads {s} {m} {s'} {m'} i one (moved (received n (message bytes) e h)) goes =
      let (id, sid, h1) = >>=-eq-some s.session_id _ h in
      on_message_reads id bytes (record s { reads = n }) s' m m' h1 ∙ sym e ∙ one
  step_reads i one (moved (wrote n (some ec) e h)) goes =
      sym (ap (λ q. q.0.reads) (some-injective _ _ h)) ∙ one
  step_reads {s} {m} {s'} {m'} i one (moved (wrote n none e h)) goes =
      let (id, sid, h1) = >>=-eq-some s.session_id _ h in
      sym (ap (λ q. q.0.reads) (some-injective _ _ h1))
      ∙ find_and_send_reads id (record s { writes = n; write_active = false }) m
      ∙ one
  step_reads {s} {m} {s'} {m'} i one (moved (posted id x sid e alive)) goes =
      send_next_reads id (some x) s m ∙ one
  step_reads i one (others m1 i1 keeps) goes = one

  Talking-reads : {s : Socket} {m : Sessions S W} → Talking s m → s.reads ≡ 1
  Talking-reads (begun {s = s} {m = m} n r e h) =
      let (s1, m1, h1, _, one) = accepted-IsSocket t this s m n (Reach-IsSocket t this r) e in
      sym (ap (λ q. q.0.reads) (some-injective _ _ (sym h1 ∙ h))) ∙ one
  Talking-reads (going talking step goes) =
      step_reads (Reach-IsSocket t this (Talking-Reach talking)) (Talking-reads talking) step goes

  -- In every state that a web socket reaches after a handshake that succeeded, until the client closes
  -- it or it fails to read, exactly one read is under way and no handshake, and its session is in the
  -- map, whatever the other sockets, the writes and their errors, and the ticks do meanwhile.
  pub Talking-reading :
      {s : Socket} {m : Sessions S W}
      → Talking s m
      → (s.reads ≡ 1) × (s.accepts ≡ 0) × ((id : ℕ) × (s.session_id ≡ some id) × Present id m)
  Talking-reading talking =
      let i = Reach-IsSocket t this (Talking-Reach talking) in
      let one = Talking-reads talking in
      let one_read = i.one_read in
      let (id, sid) = i.named (omega arith) in
      (one, omega arith, (id, sid, i.present id (omega arith) sid))
