-- ===== src/Asteroids/Session/Managed.antt =====
-- The session of the game as the manager of the sessions takes it (apps/AppSession.h,
-- apps/asteroids/src/Session.cpp, lib/src/WebsockServer.cpp).
use geoff.Prelude.{ℕ, List, Option, some, ◌≡◌, refl, >>=-eq-some, subst}
use mathlib.Core.Option.{some-injective}
use geoff.Words.{Host}
use geoff.AppBuffer.{AppBuffer, get_uint8_at, get_uint16_at}
use geoff.AppBuffer.Message.{write}
use geoff.Websock.{
  commit_tx_buffer, receive, get_next_tx_buffer, set_on_tx_ready_callback, on_tx_ready,
}
use geoff.Sessions.{SessionType}
use geoff.GameSession.Keeps.{Keeps, handle_received-Keeps}
use geoff.GameSession.Managed.{
  Same, Same-frame, receive-Same, get_next_tx_buffer-Same, set_frame, create_frame,
}
use geoff.Double.{Double}
use geoff.Asteroids.Session.{
  Session, World, create, commit, handle_new_session, handle_key_event, handle_click_event,
  handle_resize_event, game, on_message,
}

-- Who a session is does not change.
abbrev pub SameSession : Session → Session → Type 0
SameSession s s' = Same s.websock s'.websock

pub commit-Same : (tx : AppBuffer) (s : Session) → SameSession s (commit tx s)
unfolding commit commit_tx_buffer
commit-Same tx s = (refl, refl)

session_id_of : Session → ℕ
session_id_of s = s.websock.session_id

tx_ready_of : Session → Option ℕ
tx_ready_of s = on_tx_ready s.websock

next_tx_buffer_of : Session → Option AppBuffer × Session
next_tx_buffer_of s =
    let (tx, websock) = get_next_tx_buffer s.websock in (tx, record s { websock = websock })

set_callback_of : ℕ → Session → Session
set_callback_of this s = record s { websock = set_on_tx_ready_callback this s.websock }

SameSession-frame :
    (s s' : Session)
    → SameSession s s'
    → (session_id_of s' ≡ session_id_of s) × (tx_ready_of s' ≡ tx_ready_of s)
unfolding session_id_of tx_ready_of
SameSession-frame s s' h = Same-frame s.websock s'.websock h

make_frame : (id : ℕ) → (session_id_of (create id) ≡ id) × (tx_ready_of (create id) ≡ Option.none)
unfolding session_id_of tx_ready_of create
make_frame id = create_frame id

set_callback_frame :
    (this : ℕ) (s : Session)
    → (session_id_of (set_callback_of this s) ≡ session_id_of s)
      × (tx_ready_of (set_callback_of this s) ≡ some this)
unfolding session_id_of tx_ready_of set_callback_of
set_callback_frame this s = set_frame this s.websock

next_frame :
    (s : Session)
    → let s' = (next_tx_buffer_of s).1 in
      (session_id_of s' ≡ session_id_of s) × (tx_ready_of s' ≡ tx_ready_of s)
unfolding next_tx_buffer_of
next_frame s = SameSession-frame s _ (get_next_tx_buffer-Same s.websock)

-- The id and the callback, as the manager and the web sockets ask for them.
pub record Unchanged {S W : Type 0} (t : SessionType S W) (s s' : S) : Type 0 where
  pub same_id : t.session_id s' ≡ t.session_id s
  pub same_callback : t.on_tx_ready s' ≡ t.on_tx_ready s

module _ {W : Type 0} ⦃d : Double W⦄ ⦃host : Host⦄ (rand : ℕ → ℕ) (rand_max : ℕ) where
  module _ (s0 : Session) where
    abbrev IsSame : Session × World W → Type 0
    IsSame o = SameSession s0 o.0

    new_session-Keeps : Keeps (game rand rand_max) IsSame (handle_new_session rand rand_max)
    unfolding handle_new_session commit commit_tx_buffer
    new_session-Keeps rx (s, w) o p e =
        let (width, _, e1) = >>=-eq-some (get_uint16_at 3 rx) _ e in
        let (height, _, e2) = >>=-eq-some (get_uint16_at 5 rx) _ e1 in
        let (tx, _, e3) = >>=-eq-some (write _ _) _ e2 in subst IsSame (some-injective _ _ e3) p

    key_event-Keeps : Keeps (game rand rand_max) IsSame (handle_key_event rand rand_max)
    unfolding handle_key_event
    key_event-Keeps rx (s, w) o p e =
        let (key, _, e1) = >>=-eq-some (get_uint8_at 2 rx) _ e in
        let (is_down, _, e2) = >>=-eq-some (get_uint8_at 1 rx) _ e1 in
        subst IsSame (some-injective _ _ e2) p

    click_event-Keeps : Keeps (game rand rand_max) IsSame (handle_click_event rand rand_max)
    unfolding handle_click_event
    click_event-Keeps rx (s, w) o p e =
        let (x, _, e1) = >>=-eq-some (get_uint16_at 5 rx) _ e in
        let (y, _, e2) = >>=-eq-some (get_uint16_at 7 rx) _ e1 in
        subst IsSame (some-injective _ _ e2) p

    resize_event-Keeps : Keeps (game rand rand_max) IsSame (handle_resize_event rand rand_max)
    unfolding handle_resize_event
    resize_event-Keeps rx (s, w) o p e =
        let (x, _, e1) = >>=-eq-some (get_uint16_at 5 rx) _ e in
        let (y, _, e2) = >>=-eq-some (get_uint16_at 7 rx) _ e1 in
        subst IsSame (some-injective _ _ e2) p

    on_message-Same :
        (bytes : List ℕ) (w : World W) (o : Session × World W)
        → on_message rand rand_max bytes s0 w ≡ some o
        → IsSame o
    unfolding on_message game
    on_message-Same bytes w o e =
        let (rx, websock) = receive bytes s0.websock in
        handle_received-Keeps (game rand rand_max) IsSame new_session-Keeps click_event-Keeps
          key_event-Keeps resize_event-Keeps rx (record s0 { websock = websock }, w) o
          (receive-Same bytes s0.websock) e

  comms_handler_of : List ℕ → Session × World W → Option (Session × World W)
  comms_handler_of bytes (s, w) = on_message rand rand_max bytes s w

  handler_frame :
      (bytes : List ℕ) (s s' : Session) (w w' : World W)
      → comms_handler_of bytes (s, w) ≡ some (s', w')
      → (session_id_of s' ≡ session_id_of s) × (tx_ready_of s' ≡ tx_ready_of s)
  unfolding comms_handler_of
  handler_frame bytes s s' w w' e = SameSession-frame s s' (on_message-Same s bytes w (s', w') e)

  -- WebsockSessionManager<asteroids::Session>, whose sessions share the universe.
  pub game_sessions : SessionType Session (World W)
  game_sessions = record {
    make = create;
    session_id = session_id_of;
    comms_handler = comms_handler_of;
    get_next_tx_buffer = next_tx_buffer_of;
    set_on_tx_ready_callback = set_callback_of;
    on_tx_ready = tx_ready_of;
    session_id-make = λ id. (make_frame id).0;
    session_id-set = λ this s. (set_callback_frame this s).0;
    on_tx_ready-make = λ id. (make_frame id).1;
    on_tx_ready-set = λ this s. (set_callback_frame this s).1;
    comms_handler_frame = handler_frame;
    get_next_tx_buffer_frame = next_frame;
  }

  pub game-Unchanged : (s s' : Session) → SameSession s s' → Unchanged game_sessions s s'
  unfolding game_sessions
  game-Unchanged s s' h =
      let (i, c) = SameSession-frame s s' h in record { same_id = i; same_callback = c }

  -- The manager hands the bytes of a client to its session and the universe.
  pub comms_handler-on_message :
      (bytes : List ℕ) (s : Session) (w : World W)
      → (game_sessions.comms_handler bytes (s, w)) ≡ on_message rand rand_max bytes s w
  unfolding game_sessions comms_handler_of
  comms_handler-on_message bytes s w = refl
