-- ===== src/Web/Worlds.antt =====
-- What the web sockets keep of what the sessions share (lib/inc/websocket_session.h).
use geoff.Prelude.{ℕ, ◌≡◌, List, some, sym, subst}
use geoff.Sessions.{SessionType}
use geoff.Sessions.Socket.Shared.{send_next_world, on_accept-keeps, on_read-keeps, on_write-keeps}
use geoff.Web.{Web, SocketStep, accepted, received, wrote, ran}

module _ {S W : Type 0} (t : SessionType S W) (P : W → Type 0)
    (handler : (bytes : List ℕ) (s s' : S) (w w' : W)
      → P w
      → t.comms_handler bytes (s, w) ≡ some (s', w')
      → P w') where
  -- What every message that is handled keeps, every step of a web socket keeps.
  pub socket-keeps :
      {d : ℕ} {w w' : Web S W} → SocketStep t w d w' → P w.sessions.world → P w'.sessions.world
  socket-keeps {d} {w} {w'} (accepted k n ec q a e) p =
      on_accept-keeps t P handler k ec _ w.sessions q p e
  socket-keeps {d} {w} {w'} (received k n incoming q a e) p =
      on_read-keeps t P handler incoming _ w.sessions q p e
  socket-keeps {d} {w} {w'} (wrote k n ec q a e) p =
      on_write-keeps t P handler ec _ w.sessions q p e
  socket-keeps {d} {w} {w'} (ran before after k id x e found alive) p =
      subst P (sym (send_next_world t id (some x) (w.sockets k) w.sessions)) p
