-- ===== src/Sessions/Socket.antt =====
-- One web socket (websocket_session in lib/inc/websocket_session.h) and the sessions of the server: the
-- completion handlers of its asynchronous operations, and the operations that are under way.
pub mod Present
pub mod Within
pub mod Steps
pub mod Effect
pub mod Runs
pub mod Ends
pub mod Shared
pub mod Total
pub mod Talking
pub mod Cell
pub mod Local
pub mod Commute
use geoff.Prelude.{
  ◌>>=◌, ℕ, zero, suc, ◌+◌, ◌≤◌, ◌<◌, ◌≡◌, refl, Bool, true, false, List, [], ◌∷◌, Option, none,
  some, if◌then◌else◌,
}
use geoff.AppBuffer.{AppBuffer}
use geoff.SortedMap.{insert, lookup}
use geoff.Http.Text.{Text, codes}
use geoff.Http.Failure.{ErrorCode, fail}
use geoff.Http.Connection.{Kind, plain, ssl}
use geoff.Sessions.{
  SessionType, Sessions, find_by_id, delete_by_id, add_session, server_comms_handler,
}

-- `accepts`, `reads` and `writes` are the asynchronous operations under way: they keep the object
-- alive, and it is destroyed when there are none. `session_id` is `none` until on_accept sets it.
pub record Socket : Type 0 where
  pub kind : Kind
  pub session_id : Option ℕ
  pub write_active : Bool
  pub accepts : ℕ
  pub reads : ℕ
  pub writes : ℕ
  pub log : List Text

-- It is there: an operation keeps it alive.
abbrev pub IsAlive : Socket → Type 0
IsAlive s = 0 < s.accepts + s.reads + s.writes

-- The constructors of plain_websocket_session and ssl_websocket_session.
abbrev pub create : Kind → Socket
create kind = record {
  kind = kind;
  session_id = none;
  write_active = false;
  accepts = 0;
  reads = 0;
  writes = 0;
  log = [];
}

-- The handshake begins.
abbrev do_accept : Socket → Socket
do_accept s = record s { accepts = suc s.accepts }

abbrev run : Socket → Socket
run s = do_accept s

-- The two of make_websocket_session.
abbrev pub make_websocket_session : Kind → Socket
make_websocket_session plain = run (create plain)
make_websocket_session ssl = run (create ssl)

-- What a read completes with: websocket::error::closed, another error, or a message.
pub data Incoming : Type 0 where
  closed : Incoming
  read_error : ErrorCode → Incoming
  message : List ℕ → Incoming

abbrev pub do_read : Socket → Socket
do_read s = record s { reads = suc s.reads }

unfoldable pub do_write : AppBuffer → Socket → Socket
do_write tx s =
    if s.write_active then s else record s { write_active = true; writes = suc s.writes }

abbrev pub failed : ErrorCode → Text → Socket → Socket
failed ec what s = record s { log = fail ec what s.log }

abbrev pub write_popped : Option AppBuffer → Socket → Socket
write_popped none s = s
write_popped (some tx) s = do_write tx s

module _ {S W : Type 0} (t : SessionType S W) where
  -- If there is a session, its next buffer is popped and written.
  unfoldable pub send_next : ℕ → Option S → Socket × Sessions S W → Socket × Sessions S W
  send_next id none (s, m) = (s, m)
  send_next id (some session) (s, m) =
      let (tx, session') = t.get_next_tx_buffer session in
      (write_popped tx s, record m { map = insert id (some session') m.map })

  -- FindSessionByID, and then send_next.
  unfoldable pub find_and_send : ℕ → Socket × Sessions S W → Socket × Sessions S W
  unfolding send_next
  find_and_send id (s, m) = let (session, m') = find_by_id id m in send_next id session (s, m')

  -- What SetOnTxReadyCallback, called through the pointer that FindSessionByID returns, leaves for
  -- the web socket `this`.
  unfoldable pub with_callback :
      ℕ → ℕ → Option S × Sessions S W → Socket → Option (Socket × Sessions S W)
  with_callback this id (none, m) s = none
  with_callback this id (some session, m) s =
      let session' = t.set_on_tx_ready_callback this session in
      some (
        do_read (record s { session_id = some id }),
        record m { map = insert id (some session') m.map },
      )

  unfoldable pub on_accept :
      ℕ → Option ErrorCode → Socket × Sessions S W → Option (Socket × Sessions S W)
  unfolding with_callback
  on_accept this (some ec) (s, m) = some (failed ec (codes "accept") s, m)
  on_accept this none (s, m) =
      let (id, m') = add_session t m in with_callback this id (find_by_id id m') s

  -- A message is handled by the session, whose answer is sent, and the next read begins.
  unfoldable pub on_message : ℕ → List ℕ → Socket × Sessions S W → Option (Socket × Sessions S W)
  unfolding find_and_send
  on_message id bytes (s, m) = do
    m' ← server_comms_handler t id bytes m
    let (s', m'') = find_and_send id (s, m')
    some (do_read s', m'')

  unfoldable pub on_read : Incoming → Socket × Sessions S W → Option (Socket × Sessions S W)
  on_read closed (s, m) = do id ← s.session_id; some (s, delete_by_id id m)
  on_read (read_error ec) (s, m) = some (failed ec (codes "read") s, m)
  on_read (message bytes) (s, m) = do id ← s.session_id; on_message id bytes (s, m)

  unfoldable pub on_write :
      Option ErrorCode → Socket × Sessions S W → Option (Socket × Sessions S W)
  unfolding find_and_send
  on_write (some ec) (s, m) = some (failed ec (codes "write") s, m)
  on_write none (s, m) = do
    id ← s.session_id
    some (find_and_send id (record s { write_active = false }, m))
