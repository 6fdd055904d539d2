-- ===== src/Websock/Pump.antt =====
-- The write pump of lib/inc/websocket_session.h: how the queue of a session reaches
-- `ws().async_write`, which is Boost.Beast's. `committed`, `handed`, `dropped` and `discarded` are a
-- record of what was committed, given to async_write, let go of, and destroyed with the session; the
-- program keeps none of them.
pub mod Fate
pub mod Examples
use geoff.Prelude.{
  ℕ, Bool, true, false, List, [], ◌∷◌, ◌++◌, Option, none, some, ◌≡◌, if◌then◌else◌,
}
use geoff.AppBuffer.{AppBuffer}
use geoff.Websock.{WebsockSession, commit_tx_buffer, get_next_tx_buffer}
use geoff.Websock

-- `session` is `none` when it was destroyed.
pub record Pump : Type 0 where
  pub session : Option WebsockSession
  pub write_active : Bool
  pub committed : List AppBuffer
  pub handed : List AppBuffer
  pub dropped : List AppBuffer
  pub discarded : List AppBuffer

abbrev pub accepted : ℕ → Pump
accepted id = record {
  session = some (Websock.create id);
  write_active = false;
  committed = [];
  handed = [];
  dropped = [];
  discarded = [];
}

-- Nobody commits to a session that is gone.
commit_to : AppBuffer → Option WebsockSession → Pump → Pump
commit_to tx none p = p
commit_to tx (some session) p = record p {
  session = some (commit_tx_buffer tx session);
  committed = p.committed ++ (tx ∷ []);
}

pub commit : AppBuffer → Pump → Pump
commit tx p = commit_to tx p.session p

pub commit_all : List AppBuffer → Pump → Pump
commit_all [] p = p
commit_all (tx ∷ txs) p = commit_all txs (commit tx p)

-- A buffer that comes while a write is active is not kept.
pub do_write : AppBuffer → Pump → Pump
do_write tx p =
    if p.write_active
    then record p { dropped = p.dropped ++ (tx ∷ []) }
    else record p { write_active = true; handed = p.handed ++ (tx ∷ []) }

write_popped : Option AppBuffer → Pump → Pump
write_popped none p = p
write_popped (some tx) p = do_write tx p

-- If the session is found and its queue is not empty, its next buffer is popped and written.
send_from : Option WebsockSession → Pump → Pump
send_from none p = p
send_from (some session) p =
    let (tx, session') = get_next_tx_buffer session in
    write_popped tx (record p { session = some session' })

pub send_next : Pump → Pump
send_next p = send_from p.session p

abbrev pub queue : Option WebsockSession → List AppBuffer
queue none = []
queue (some session) = session.tx_que

-- OnClose destroys the session with its queue.
pub close : Pump → Pump
close p = record p { session = none; discarded = p.discarded ++ queue p.session }

-- What happens to a connection: a buffer is committed by a tick, the handler that OnTxReady posted
-- runs, which is undefined when the session is gone, a message was read and answered, the client
-- closed the socket, or a write is complete. After any other error nothing is done but to report it.
pub data Step (p : Pump) : Pump → Type 0 where
  committed_tx : (tx : AppBuffer) → Step p (commit tx p)
  posted : (session : WebsockSession) → p.session ≡ some session → Step p (send_next p)
  on_read : (answers : List AppBuffer) → Step p (send_next (commit_all answers p))
  on_closed : Step p (close p)
  on_error : Step p p
  on_write : p.write_active ≡ true → Step p (send_next (record p { write_active = false }))

pub data Reach (id : ℕ) : Pump → Type 0 where
  start : Reach id (accepted id)
  later : {p q : Pump} → Reach id p → Step p q → Reach id q
