-- ===== src/Asteroids/Session/Sky.antt =====
-- What no message of a client changes (apps/asteroids/src/Session.cpp).
use geoff.Prelude.{ℕ, Bool, List, Option, none, some, ◌≡◌, >>=-eq-some, subst}
use mathlib.Core.Option.{some-injective}
use geoff.Words.{Host}
use geoff.AppBuffer.{AppBuffer, get_uint8_at, get_uint16_at}
use geoff.Websock.{receive}
use geoff.AppBuffer.Message.{write}
use geoff.GameSession.Keeps.{handle_received-Keeps}
use geoff.Double.{Double}
use geoff.Asteroids.Player.{Player}
use geoff.Asteroids.Session.{
  Session, World, player_of, put_player, on_key, on_resize, on_click, handle_new_session,
  handle_key_event, handle_click_event, handle_resize_event, game, on_message,
}

-- The size of the universe, its stars and the count of its ticks.
abbrev pub SameSky : {W : Type 0} → World W → World W → Type 0
SameSky w w' = (w'.universe ≡ w.universe) × (w'.stars ≡ w.stars) × (w'.ticks ≡ w.ticks)

pub put_player-SameSky :
    {W : Type 0} (sky w : World W) (s : Session) (p : Player W)
    → SameSky sky w
    → SameSky sky (put_player s p w)
unfolding put_player
put_player-SameSky sky w s p h = h

module _ {W : Type 0} ⦃d : Double W⦄ (sky : World W) where
  on_key-SameSky :
      (key : ℕ) (is_down : Bool) (s : Session) (w : World W) (o : Option (Player W))
      → SameSky sky w
      → SameSky sky (on_key key is_down s w o)
  unfolding on_key put_player
  on_key-SameSky key is_down s w none h = h
  on_key-SameSky key is_down s w (some p) h = h

  on_resize-SameSky :
      (x y : ℕ) (s : Session) (w : World W) (o : Option (Player W))
      → SameSky sky w
      → SameSky sky (on_resize x y s w o)
  unfolding on_resize put_player
  on_resize-SameSky x y s w none h = h
  on_resize-SameSky x y s w (some p) h = h

  module _ (rand : ℕ → ℕ) (rand_max : ℕ) where
    on_click-SameSky :
        (x y : ℕ) (w : World W) (o : Option (Player W))
        → SameSky sky w
        → SameSky sky (on_click rand rand_max x y w o)
    unfolding on_click
    on_click-SameSky x y w none h = h
    on_click-SameSky x y w (some p) h = h

    module _ ⦃host : Host⦄ where
      abbrev Holds : Session × World W → Type 0
      Holds o = SameSky sky o.1

      handle_new_session-SameSky :
          (rx : AppBuffer) (o o' : Session × World W)
          → Holds o
          → handle_new_session rand rand_max rx o ≡ some o'
          → Holds o'
      unfolding handle_new_session put_player
      handle_new_session-SameSky rx (s, w) o' h e =
          let (width, _, e1) = >>=-eq-some (get_uint16_at 3 rx) _ e in
          let (height, _, e2) = >>=-eq-some (get_uint16_at 5 rx) _ e1 in
          let (tx, _, e3) = >>=-eq-some (write _ _) _ e2 in subst Holds (some-injective _ _ e3) h

      handle_key_event-SameSky :
          (rx : AppBuffer) (o o' : Session × World W)
          → Holds o
          → handle_key_event rand rand_max rx o ≡ some o'
          → Holds o'
      unfolding handle_key_event
      handle_key_event-SameSky rx (s, w) o' h e =
          let (key, _, e1) = >>=-eq-some (get_uint8_at 2 rx) _ e in
          let (is_down, _, e2) = >>=-eq-some (get_uint8_at 1 rx) _ e1 in
          subst Holds (some-injective _ _ e2) (on_key-SameSky key _ s w (player_of s w) h)

      handle_click_event-SameSky :
          (rx : AppBuffer) (o o' : Session × World W)
          → Holds o
          → handle_click_event rand rand_max rx o ≡ some o'
          → Holds o'
      unfolding handle_click_event
      handle_click_event-SameSky rx (s, w) o' h e =
          let (x, _, e1) = >>=-eq-some (get_uint16_at 5 rx) _ e in
          let (y, _, e2) = >>=-eq-some (get_uint16_at 7 rx) _ e1 in
          subst Holds (some-injective _ _ e2) (on_click-SameSky x y w (player_of s w) h)

      handle_resize_event-SameSky :
          (rx : AppBuffer) (o o' : Session × World W)
          → Holds o
          → handle_resize_event rand rand_max rx o ≡ some o'
          → Holds o'
      unfolding handle_resize_event
      handle_resize_event-SameSky rx (s, w) o' h e =
          let (x, _, e1) = >>=-eq-some (get_uint16_at 5 rx) _ e in
          let (y, _, e2) = >>=-eq-some (get_uint16_at 7 rx) _ e1 in
          subst Holds (some-injective _ _ e2) (on_resize-SameSky x y s w (player_of s w) h)

      -- A message changes neither the universe's size, nor its stars, nor its count of ticks.
      pub on_message-SameSky :
          (bytes : List ℕ) (s s' : Session) (w w' : World W)
          → SameSky sky w
          → on_message rand rand_max bytes s w ≡ some (s', w')
          → SameSky sky w'
      unfolding on_message game
      on_message-SameSky bytes s s' w w' h e =
          let (rx, websock) = receive bytes s.websock in
          handle_received-Keeps (game rand rand_max) Holds handle_new_session-SameSky
            handle_click_event-SameSky handle_key_event-SameSky handle_resize_event-SameSky rx
            (record s { websock = websock }, w) (s', w') h e
