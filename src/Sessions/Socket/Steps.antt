-- ===== src/Sessions/Socket/Steps.antt =====
-- One step of a web socket among the others of the server, and its runs
-- (lib/inc/websocket_session.h).
use geoff.Prelude.{ℕ, suc, ◌≡◌, Option, some}
use geoff.SortedMap.{lookup}
use geoff.Http.Failure.{ErrorCode}
use geoff.Sessions.{SessionType, Sessions}
use geoff.Sessions.Reachable.{IsSessions}
use geoff.Http.Connection.{Kind}
use geoff.Sessions.Socket.{
  Socket, IsAlive, make_websocket_session, Incoming, send_next, on_accept, on_read, on_write,
}
use geoff.Sessions.Socket.Present.{Present}

module _ {S W : Type 0} (t : SessionType S W) (this : ℕ) where
  -- An operation of the socket completes, or the handler runs that its session's OnTxReady posted, which
  -- is undefined when the socket is not there any more.
  pub data Move (s : Socket) (m : Sessions S W) : Socket → Sessions S W → Type 0 where
    accepted :
        {s' : Socket} {m' : Sessions S W} (n : ℕ) (ec : Option ErrorCode)
        → s.accepts ≡ suc n
        → on_accept t this ec (record s { accepts = n }, m) ≡ some (s', m')
        → Move s m s' m'
    received :
        {s' : Socket} {m' : Sessions S W} (n : ℕ) (incoming : Incoming)
        → s.reads ≡ suc n
        → on_read t incoming (record s { reads = n }, m) ≡ some (s', m')
        → Move s m s' m'
    wrote :
        {s' : Socket} {m' : Sessions S W} (n : ℕ) (ec : Option ErrorCode)
        → s.writes ≡ suc n
        → on_write t ec (record s { writes = n }, m) ≡ some (s', m')
        → Move s m s' m'
    posted :
        (id : ℕ) (x : S)
        → s.session_id ≡ some id
        → lookup id m.map ≡ some (some x)
        → IsAlive s
        → Move s m (send_next t id (some x) (s, m)).0 (send_next t id (some x) (s, m)).1

  -- The socket moves, or the rest of the server changes the sessions and leaves this one where it is.
  pub data Step (s : Socket) (m : Sessions S W) : Socket → Sessions S W → Type 0 where
    moved : {s' : Socket} {m' : Sessions S W} → Move s m s' m' → Step s m s' m'
    others :
        (m' : Sessions S W)
        → IsSessions t m'
        → ((id : ℕ) → s.session_id ≡ some id → Present id m → Present id m')
        → Step s m s m'

  pub data Reach : Socket → Sessions S W → Type 0 where
    start :
        (kind : Kind) (m : Sessions S W) → IsSessions t m → Reach (make_websocket_session kind) m
    later : {s s' : Socket} {m m' : Sessions S W} → Reach s m → Step s m s' m' → Reach s' m'
