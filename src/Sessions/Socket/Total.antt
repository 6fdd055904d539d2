-- ===== src/Sessions/Socket/Total.antt =====
-- No handler of a web socket faults (lib/inc/websocket_session.h): each finds the session that it
-- asks for.
use geoff.Prelude.{◌>>=◌, ℕ, suc, ◌≡◌, refl, List, Option, none, some, arith, ◌∙◌, ap}
use geoff.SortedMap.{lookup}
use geoff.Http.Failure.{ErrorCode}
use geoff.Sessions.{SessionType, Sessions, add_session, server_comms_handler, handled}
use geoff.Sessions.Found.{find_by_id-add_session}
use geoff.Sessions.Socket.{
  Socket, Incoming, closed, read_error, message, with_callback, on_accept, on_message, on_read,
  on_write,
}
use geoff.Sessions.Socket.Present.{find_by_id-present}
use geoff.Sessions.Socket.Steps.{Reach}
use geoff.Sessions.Socket.Runs.{Reach-IsSocket}

-- The end of an asynchronous operation of a web socket.
pub data Completion : Type 0 where
  accepted : Option ErrorCode → Completion
  received : Incoming → Completion
  wrote : Option ErrorCode → Completion

-- How many of the operations are under way, and the socket when `n` are.
abbrev pub under_way : Completion → Socket → ℕ
under_way (accepted ec) s = s.accepts
under_way (received incoming) s = s.reads
under_way (wrote ec) s = s.writes

abbrev pub with_under_way : Completion → ℕ → Socket → Socket
with_under_way (accepted ec) n s = record s { accepts = n }
with_under_way (received incoming) n s = record s { reads = n }
with_under_way (wrote ec) n s = record s { writes = n }

>>=-some :
    {A B : Type 0} (o : Option A) (a : A) (f : A → Option B)
    → o ≡ some a
    → (b : B) × (f a ≡ some b)
    → (b : B) × ((o >>= f) ≡ some b)
>>=-some o a f e (b, h) = (b, ap (λ x. x >>= f) e ∙ h)

module _ {S W : Type 0} (t : SessionType S W) (this : ℕ) where
  abbrev pub handle : Completion → Socket × Sessions S W → Option (Socket × Sessions S W)
  handle (accepted ec) q = on_accept t this ec q
  handle (received incoming) q = on_read t incoming q
  handle (wrote ec) q = on_write t ec q

  -- The session handles the message that was received, if it was one.
  abbrev pub Handles : Completion → Socket → Sessions S W → Type 0
  Handles (received (message bytes)) s m =
      (id : ℕ) (x : S)
      → s.session_id ≡ some id
      → lookup id m.map ≡ some (some x)
      → (r : S × W) × (t.comms_handler bytes (x, m.world) ≡ some r)
  Handles _ s m = Unit {0}

  on_accept-some :
      (ec : Option ErrorCode) (s : Socket) (m : Sessions S W)
      → (q : Socket × Sessions S W) × (on_accept t this ec (s, m) ≡ some q)
  unfolding on_accept with_callback
  on_accept-some (some ec) s m = (_, refl)
  on_accept-some none s m =
      (_, ap (λ f. with_callback t this (add_session t m).0 f s) (find_by_id-add_session t m))

  server_comms_handler-some :
      (id : ℕ) (bytes : List ℕ) (m : Sessions S W) (x : S) (r : S × W)
      → lookup id m.map ≡ some (some x)
      → t.comms_handler bytes (x, m.world) ≡ some r
      → (m' : Sessions S W) × (server_comms_handler t id bytes m ≡ some m')
  unfolding server_comms_handler handled
  server_comms_handler-some id bytes m x r e h =
      let (m', handled_at) = >>=-some (t.comms_handler bytes (x, m.world)) r _ h (_, refl) in
      (m', ap (λ f. handled t id bytes f.0 f.1) (find_by_id-present id m x e) ∙ handled_at)

  -- In every state that a web socket reaches, the handler of an operation that completes returns,
  -- if the session handles the message when one was received.
  pub Reach-handle :
      {s : Socket} {m : Sessions S W} (n : ℕ) (e : Completion)
      → Reach t this s m
      → under_way e s ≡ suc n
      → Handles e s m
      → (q : Socket × Sessions S W) × (handle e (with_under_way e n s, m) ≡ some q)
  unfolding on_read on_write on_message
  Reach-handle {s} {m} n (accepted ec) r u h = on_accept-some ec (record s { accepts = n }) m
  Reach-handle {s} {m} n (received closed) r u h =
      let (id, sid) = (Reach-IsSocket t this r).named (omega arith) in
      >>=-some s.session_id id _ sid (_, refl)
  Reach-handle {s} {m} n (received (read_error ec)) r u h = (_, refl)
  Reach-handle {s} {m} n (received (message bytes)) r u h =
      let i = Reach-IsSocket t this r in
      let (id, sid) = i.named (omega arith) in
      let (x, found) = i.present id (omega arith) sid in
      let (r', handles) = h id x sid found in
      let (m', e) = server_comms_handler-some id bytes m x r' found handles in
      >>=-some s.session_id id _ sid (>>=-some (server_comms_handler t id bytes m) m' _ e (_, refl))
  Reach-handle {s} {m} n (wrote none) r u h =
      let (id, sid) = (Reach-IsSocket t this r).named (omega arith) in
      >>=-some s.session_id id _ sid (_, refl)
  Reach-handle {s} {m} n (wrote (some ec)) r u h = (_, refl)
