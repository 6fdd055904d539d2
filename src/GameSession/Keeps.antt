-- ===== src/GameSession/Keeps.antt =====
-- What every handler keeps the messages of a client keep (lib/src/GameSession.cpp).
use geoff.Prelude.{ℕ, Option, none, some, ◌≡◌, >>=-eq-some, subst, arith}
use mathlib.Core.Option.{some-injective}
use geoff.Words.{Host}
use geoff.AppBuffer.{AppBuffer, get_uint8_at}
use geoff.GameSession.{Handlers, dispatch, comms_handler, handle_received}

module _ {S : Type 0} ⦃host : Host⦄ (handlers : Handlers S) (P : S → Type 0) where
  -- A handler that keeps P.
  abbrev pub Keeps : (AppBuffer → S → Option S) → Type 0
  Keeps handle = (rx : AppBuffer) (s s' : S) → P s → handle rx s ≡ some s' → P s'

  module _ (new_session : Keeps handlers.handle_new_session)
      (click : Keeps handlers.handle_click_event) (key : Keeps handlers.handle_key_event)
      (resize : Keeps handlers.handle_resize_event) where
    dispatch-Keeps : (request : ℕ) → Keeps (dispatch handlers request)
    unfolding dispatch
    dispatch-Keeps request rx s s' p e =
        ground (arith, new_session rx s s' p, click rx s s' p, key rx s s' p, resize rx s s' p)

    comms_handler-Keeps : Keeps (comms_handler handlers)
    unfolding comms_handler
    comms_handler-Keeps rx s s' p e =
        let (request, _, e1) = >>=-eq-some (get_uint8_at 0 rx) _ e in
        dispatch-Keeps request rx s s' p e1

    pub handle_received-Keeps :
        (o : Option AppBuffer) (s s' : S) → P s → handle_received handlers o s ≡ some s' → P s'
    unfolding handle_received
    handle_received-Keeps none s s' p e = subst P (some-injective _ _ e) p
    handle_received-Keeps (some rx) s s' p e = comms_handler-Keeps rx s s' p e
