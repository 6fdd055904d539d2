-- ===== src/GameSession.antt =====
-- lib/inc/GameSession.h and src/GameSession.cpp: the messages of a client by their type, and the
-- handlers that answer them when a game overrides none. A violated `assert` is `none`.
pub mod Echo
pub mod Keeps
pub mod Managed
use geoff.Prelude.{◌>>=◌, ℕ, not, Bool, List, [], ◌∷◌, Option, none, some, ltb, ◌==◌, if◌then◌else◌}
use geoff.Words.{Host}
use geoff.AppBuffer.{AppBuffer, make, size, get_uint8_at, get_uint16_at, get_uint32_at}
use geoff.AppBuffer.Message.{Field, u8, u16, u32, write}
use geoff.Websock.{WebsockSession, receive, commit_tx_buffer}

-- GAME_APP_VERSION
abbrev pub game_app_version : ℕ
game_app_version = 3

-- The virtual methods of a session, on a state that holds it.
pub record Handlers (S : Type 0) : Type 0 where
  pub handle_new_session : AppBuffer → S → Option S
  pub handle_click_event : AppBuffer → S → Option S
  pub handle_key_event : AppBuffer → S → Option S
  pub handle_resize_event : AppBuffer → S → Option S

module _ {S : Type 0} ⦃host : Host⦄ (handlers : Handlers S) where
  open handlers use {handle_new_session, handle_click_event, handle_key_event, handle_resize_event}

  -- The switch of GameSession::CommsHandler.
  unfoldable pub dispatch : ℕ → AppBuffer → S → Option S
  dispatch request rx s =
      if request == 0
      then handle_new_session rx s
      else if request == 2
      then handle_click_event rx s
      else if request == 4
      then handle_key_event rx s
      else if request == 6
      then handle_resize_event rx s
      else some s

  unfoldable pub comms_handler : AppBuffer → S → Option S
  comms_handler rx s = do request ← get_uint8_at 0 rx; dispatch request rx s

  unfoldable pub handle_received : Option AppBuffer → S → Option S
  handle_received none s = some s
  handle_received (some rx) s = comms_handler rx s

module _ ⦃host : Host⦄ where
  -- The bytes of a client, handled.
  pub on_message : Handlers WebsockSession → List ℕ → WebsockSession → Option WebsockSession
  on_message handlers bytes s = let (rx, s') = receive bytes s in handle_received handlers rx s'

  -- A message of some length is written, and committed.
  pub reply : Bool → ℕ → List Field → WebsockSession → Option WebsockSession
  reply flag length fields s = do tx ← write fields (make length flag); some (commit_tx_buffer tx s)

  echo_new_session : AppBuffer → WebsockSession → Option WebsockSession
  echo_new_session rx s =
      reply rx.is_little_endian 12
        (u8 0xBB ∷ u8 0x01 ∷ u32 s.session_id ∷ u16 game_app_version ∷ []) s

  echo_key_event : AppBuffer → WebsockSession → Option WebsockSession
  echo_key_event rx s = if ltb (size rx) 3 then none else (do
    is_down ← get_uint8_at 1 rx
    key_code ← get_uint8_at 2 rx
    reply rx.is_little_endian 8
        (u8 0xBB
          ∷ u8 0x05
          ∷ u32 s.session_id
          ∷ u8 (if is_down == 0 then 0 else 1)
          ∷ u8 key_code
          ∷ [])
        s)

  click_reply : AppBuffer → ℕ → ℕ → ℕ → WebsockSession → Option WebsockSession
  click_reply rx session_id x y s =
      if not (session_id == s.session_id)
      then none
      else reply rx.is_little_endian 12 (u8 0xBB ∷ u8 0x03 ∷ u32 s.session_id ∷ u16 x ∷ u16 y ∷ [])
          s

  echo_click_event : AppBuffer → WebsockSession → Option WebsockSession
  echo_click_event rx s = if ltb (size rx) 11 then none else (do
    session_id ← get_uint32_at 1 rx
    x ← get_uint16_at 5 rx
    y ← get_uint16_at 7 rx
    click_reply rx session_id x y s)

  pub echo : Handlers WebsockSession
  echo = record {
    handle_new_session = echo_new_session;
    handle_click_event = echo_click_event;
    handle_key_event = echo_key_event;
    handle_resize_event = λ rx s. some s;
  }
