-- ===== src/Websock.antt =====
-- lib/inc/WebsockSession.h and src/WebsockSession.cpp: the side of a session that holds its id, the
-- byte order of its client, and the buffers to be sent.
pub mod Queue
pub mod Pump
use geoff.Prelude.{ℕ, Bool, true, List, [], ◌∷◌, ◌++◌, Option, none, some, ◌==◌, ◌≡◌, arith}
use geoff.AppBuffer.{AppBuffer, of_bytes}

-- A callback is the one that websocket_session::on_accept makes, which holds the address of a
-- websocket_session: `tx_ready_callback` is its number, and `none` an empty std::function.
pub record WebsockSession : Type 0 where
  pub session_id : ℕ
  pub is_little_endian : Bool
  pub tx_que : List AppBuffer
  pub tx_ready_callback : Option ℕ

unfoldable pub create : ℕ → WebsockSession
create id = record {
  session_id = id;
  is_little_endian = true;
  tx_que = [];
  tx_ready_callback = none;
}

-- SetOnTxReadyCallback
unfoldable pub set_on_tx_ready_callback : ℕ → WebsockSession → WebsockSession
set_on_tx_ready_callback this s = record s { tx_ready_callback = some this }

-- OnTxReady: the web socket to whose executor a handler is posted, if the callback is set.
unfoldable pub on_tx_ready : WebsockSession → Option ℕ
on_tx_ready s = elim s.tx_ready_callback [ none ↦ none | some this ↦ some this ]

-- CommitTxBuffer
unfoldable pub commit_tx_buffer : AppBuffer → WebsockSession → WebsockSession
commit_tx_buffer tx s = record s { tx_que = s.tx_que ++ (tx ∷ []) }

-- GetNextTxBuffer: `none` in place of the buffer where the source returns false.
unfoldable pub get_next_tx_buffer : WebsockSession → Option AppBuffer × WebsockSession
get_next_tx_buffer s = elim s.tx_que [
  | [] ↦ (none, s)
  | tx ∷ rest ↦ (some tx, record s { tx_que = rest })
]

-- CommsHandler(buff, length): the first byte is the byte order, and the rest is the message. A
-- message of less than two bytes is ignored.
unfoldable pub receive : List ℕ → WebsockSession → Option AppBuffer × WebsockSession
receive [] s = (none, s)
receive (b ∷ []) s = (none, s)
receive (b ∷ c ∷ bytes) s =
    let flag = b == 0xAB in (some (of_bytes (c ∷ bytes) flag), record s { is_little_endian = flag })

pub get_next_tx_buffer_id :
    (s : WebsockSession) → (get_next_tx_buffer s).1.session_id ≡ s.session_id
unfolding get_next_tx_buffer
get_next_tx_buffer_id s = ground arith
