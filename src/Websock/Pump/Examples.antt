-- ===== src/Websock/Pump/Examples.antt =====
-- A connection of lib/inc/websocket_session.h on which ticks commit while a write is active.
use geoff.Prelude.{refl, ℕ, true, [], ◌∷◌}
use geoff.AppBuffer.{AppBuffer}
use geoff.AppBuffer.Filled.{filled}
use geoff.Websock.{create, commit_tx_buffer, get_next_tx_buffer}
use geoff.Websock.Pump.{
  Pump, accepted, commit_to, commit, do_write, write_popped, send_from, send_next, close,
  committed_tx, posted, on_closed, Reach, start, later,
}
use geoff.Websock.Pump.Fate.{Accounted, Reach-Accounted}

abbrev message : ℕ → AppBuffer
message n = filled true (n ∷ []) 0

-- The second message comes before the first is written.
abbrev busy : Pump
busy = commit (message 2) (send_next (commit (message 1) (accepted 3)))

-- The client then closes the socket.
closed_reached : Reach 3 (close (commit (message 3) (send_next busy)))
unfolding send_next send_from write_popped do_write commit commit_to commit_tx_buffer
    get_next_tx_buffer create
closed_reached =
    later
      (later
        (later
          (later (later (later start (committed_tx (message 1))) (posted _ refl))
            (committed_tx (message 2)))
          (posted _ refl))
        (committed_tx (message 3)))
      on_closed

Reach-Accounted_example : Accounted (close (commit (message 3) (send_next busy)))
Reach-Accounted_example = Reach-Accounted closed_reached

abbrev writing : Pump
writing = send_next (commit (message 1) (accepted 3))
