-- ===== src/Sessions/SocketExamples.antt =====
-- A web socket that is accepted by a server without sessions, and the theorems about its runs at it.
use geoff.Prelude.{◌∷◌, ℕ, ◌+◌, ◌≡◌, refl, false, [], none, some}
use geoff.Words.{little}
use geoff.SortedMap.{lookup, insert}
use geoff.Websock.{WebsockSession}
use geoff.Http.Connection.{plain}
use geoff.GameSession.Managed.{echo_sessions}
use geoff.Http.Failure.{ErrorCode}
use geoff.Sessions.{SessionType, Sessions, empty, find_by_id, entered, add_session}
use geoff.Sessions.Reachable
use geoff.Sessions.Reachable.{IsSessions, Reach-IsSessions}
use geoff.Sessions.Socket.{
  Socket, make_websocket_session, closed, read_error, on_accept, with_callback, on_read,
}
use geoff.Sessions.Socket.Present.{Present}
use geoff.Sessions.Socket.Steps.{Reach, start, later, moved, accepted}
use geoff.Sessions.Socket.Runs.{IsSocket, Reach-IsSocket}
use geoff.Sessions.Socket.Total
use geoff.Sessions.Socket.Total.{handle, Reach-handle}
use geoff.Sessions.Socket.Ends.{Reach-on_read}

abbrev echoes : SessionType WebsockSession (Unit {0})
echoes = echo_sessions ⦃host = little⦄

-- The session that the web socket of number 7 begins with.
abbrev one : Sessions WebsockSession (Unit {0})
one = record {
  next_id = 1;
  map = (0, some (echoes.set_on_tx_ready_callback 7 (echoes.make 0))) ∷ [];
  world = tt;
}

abbrev reset : ErrorCode
reset = record { stream_truncated = false; message = [] }

abbrev reading : Socket
reading = record (make_websocket_session plain) { session_id = some 0; accepts = 0; reads = 1 }

accept_step :
    on_accept echoes 7 none (record (make_websocket_session plain) { accepts = 0 }, empty tt)
    ≡ some (reading, one)
unfolding on_accept with_callback find_by_id entered add_session lookup insert
accept_step = refl

reading-Reach : Reach echoes 7 reading one
reading-Reach =
    later (start plain (empty tt) (Reach-IsSessions echoes (Reachable.Reach.start tt)))
      (moved (accepted 0 none refl accept_step))

Reach-IsSocket_example : IsSocket echoes 7 reading one
Reach-IsSocket_example = Reach-IsSocket echoes 7 reading-Reach

Reach-on_read_example :
    (id : ℕ) × (some 0 ≡ some id)
    × ((m' : Sessions WebsockSession (Unit {0})) × (on_read echoes closed
            (record reading { reads = 0 }, one)
          ≡ some (record reading { reads = 0 }, m'))
        × (lookup id m'.map ≡ none))
    × ((s' : Socket) × (on_read echoes (read_error reset) (record reading { reads = 0 }, one)
          ≡ some (s', one))
        × (s'.accepts + s'.reads ≡ 0)
        × (s'.writes ≡ 0)
        × Present id one)
Reach-on_read_example = Reach-on_read echoes 7 0 reset reading-Reach refl

-- The client closes the web socket.
Reach-handle_example :
    (q : Socket × Sessions WebsockSession (Unit {0})) × (handle echoes 7
        (Total.Completion.received closed)
        (record reading { reads = 0 }, one)
      ≡ some q)
Reach-handle_example =
    Reach-handle echoes 7 0 (Total.Completion.received closed) reading-Reach refl tt
