-- ===== src/GameSession/Managed.antt =====
-- A session of lib/src/GameSession.cpp as the manager of the sessions takes it.
use geoff.Prelude.{
  ◌>>=◌, arith, Option, none, ℕ, Bool, List, [], ◌∷◌, some, ◌≡◌, refl, ◌∙◌, sym, >>=-eq-some,
  guard-eq-some, not, ltb, ◌==◌, subst,
}
use mathlib.Core.Option.{some-injective}
use geoff.Words.{Host}
use geoff.AppBuffer.{make, size, get_uint8_at, get_uint16_at, get_uint32_at}
use geoff.AppBuffer.Message.{Field, write}
use geoff.Websock.{
  WebsockSession, receive, commit_tx_buffer, get_next_tx_buffer, set_on_tx_ready_callback,
  on_tx_ready,
}
use geoff.Websock
use geoff.Sessions.{SessionType}
use geoff.GameSession.{
  reply, echo, echo_new_session, echo_key_event, click_reply, echo_click_event, on_message,
}
use geoff.GameSession.Keeps.{Keeps, handle_received-Keeps}

-- Who a session is: its id and its callback.
abbrev pub Same : WebsockSession → WebsockSession → Type 0
Same s s' = (s'.session_id ≡ s.session_id) × (s'.tx_ready_callback ≡ s.tx_ready_callback)

pub receive-Same : (bytes : List ℕ) (s : WebsockSession) → Same s (receive bytes s).1
unfolding receive
receive-Same [] s = (refl, refl)
receive-Same (b ∷ []) s = (refl, refl)
receive-Same (b ∷ c ∷ bytes) s = (refl, refl)

pub get_next_tx_buffer-Same : (s : WebsockSession) → Same s (get_next_tx_buffer s).1
unfolding get_next_tx_buffer
get_next_tx_buffer-Same s = ground arith

pub on_tx_ready_lem : (s : WebsockSession) → on_tx_ready s ≡ s.tx_ready_callback
unfolding on_tx_ready
on_tx_ready_lem s = ground arith

pub create_frame :
    (id : ℕ) → let s = Websock.create id in (s.session_id ≡ id) × (on_tx_ready s ≡ none)
unfolding Websock.create on_tx_ready
create_frame id = (refl, refl)

pub set_frame :
    (this : ℕ) (s : WebsockSession)
    → let s' = set_on_tx_ready_callback this s in
      (s'.session_id ≡ s.session_id) × (on_tx_ready s' ≡ some this)
unfolding set_on_tx_ready_callback on_tx_ready
set_frame this s = (refl, refl)

module _ ⦃host : Host⦄ (s0 : WebsockSession) where
  reply-Same :
      (flag : Bool) (n : ℕ) (fields : List Field) (s s' : WebsockSession)
      → reply flag n fields s ≡ some s'
      → Same s0 s
      → Same s0 s'
  unfolding reply commit_tx_buffer
  reply-Same flag n fields s s' e h =
      let (tx, _, e1) = >>=-eq-some (write fields (make n flag)) _ e in
      subst (Same s0) (some-injective _ _ e1) h

  new_session-Keeps : Keeps echo (Same s0) echo_new_session
  unfolding echo_new_session
  new_session-Keeps rx s s' p e = reply-Same _ _ _ s s' e p

  key_event-Keeps : Keeps echo (Same s0) echo_key_event
  unfolding echo_key_event
  key_event-Keeps rx s s' p e =
      let e1 = guard-eq-some (ltb (size rx) 3) _ e in
      let (is_down, _, e2) = >>=-eq-some (get_uint8_at 1 rx) _ e1 in
      let (key, _, e3) = >>=-eq-some (get_uint8_at 2 rx) _ e2 in reply-Same _ _ _ s s' e3 p

  click_event-Keeps : Keeps echo (Same s0) echo_click_event
  unfolding echo_click_event click_reply
  click_event-Keeps rx s s' p e =
      let e1 = guard-eq-some (ltb (size rx) 11) _ e in
      let (session_id, _, e2) = >>=-eq-some (get_uint32_at 1 rx) _ e1 in
      let (x, _, e3) = >>=-eq-some (get_uint16_at 5 rx) _ e2 in
      let (y, _, e4) = >>=-eq-some (get_uint16_at 7 rx) _ e3 in
      reply-Same _ _ _ s s' (guard-eq-some (not (session_id == s.session_id)) _ e4) p

  resize_event-Keeps : Keeps echo (Same s0) (λ rx s. some s)
  resize_event-Keeps rx s s' p e = subst (Same s0) (some-injective _ _ e) p

  on_message-Same :
      (bytes : List ℕ) (s' : WebsockSession) → on_message echo bytes s0 ≡ some s' → Same s0 s'
  unfolding on_message echo
  on_message-Same bytes s' e =
      handle_received-Keeps echo (Same s0) new_session-Keeps click_event-Keeps key_event-Keeps
        resize_event-Keeps (receive bytes s0).0 (receive bytes s0).1 s' (receive-Same bytes s0) e

-- What the map holds of a session is what it is.
pub Same-frame :
    (s s' : WebsockSession)
    → Same s s'
    → (s'.session_id ≡ s.session_id) × (on_tx_ready s' ≡ on_tx_ready s)
Same-frame s s' (e, c) = (e, on_tx_ready_lem s' ∙ c ∙ sym (on_tx_ready_lem s))

module _ ⦃host : Host⦄ where
  -- A message that is handled by the echoes alone, which have no world.
  unfoldable alone : List ℕ → WebsockSession × Unit {0} → Option (WebsockSession × Unit {0})
  alone bytes (s, w) = do s' ← on_message echo bytes s; some (s', w)

  alone_frame :
      (bytes : List ℕ) (s s' : WebsockSession) (w w' : Unit {0})
      → alone bytes (s, w) ≡ some (s', w')
      → (s'.session_id ≡ s.session_id) × (on_tx_ready s' ≡ on_tx_ready s)
  unfolding alone
  alone_frame bytes s s' w w' e =
      let (s1, e1, e2) = >>=-eq-some (on_message echo bytes s) _ e in
      Same-frame s s'
        (subst (λ q. Same s q.0) (some-injective _ _ e2) (on_message-Same s bytes s1 e1))

  -- The session of the library is one that the manager can hold.
  pub echo_sessions : SessionType WebsockSession (Unit {0})
  unfolding alone
  echo_sessions = record {
    make = Websock.create;
    session_id = λ s. s.session_id;
    comms_handler = alone;
    get_next_tx_buffer = get_next_tx_buffer;
    set_on_tx_ready_callback = set_on_tx_ready_callback;
    on_tx_ready = on_tx_ready;
    session_id-make = λ id. (create_frame id).0;
    session_id-set = λ this s. (set_frame this s).0;
    on_tx_ready-make = λ id. (create_frame id).1;
    on_tx_ready-set = λ this s. (set_frame this s).1;
    comms_handler_frame = λ bytes s s' w w' e. alone_frame bytes s s' w w' e;
    get_next_tx_buffer_frame = λ s. Same-frame s _ (get_next_tx_buffer-Same s);
  }
