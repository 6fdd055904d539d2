-- ===== src/Asteroids/Session.antt =====
-- apps/asteroids/inc/Session.h and src/Session.cpp: the messages of a client of the game. `m_player`
-- and the entry of `m_players` with the session's id are always the same object, so a session only
-- says whether it has a player, and the players stand in the world.
pub mod Keeps
pub mod Sky
pub mod Managed
pub mod Examples
use geoff.Prelude.{
  ◌>>=◌, ℕ, ◌+◌, ◌*◌, Bool, true, false, not, List, [], ◌∷◌, Option, none, some, length, ◌==◌,
  if◌then◌else◌,
}
use geoff.Words.{Host}
use geoff.AppBuffer.{AppBuffer, make, get_uint8_at, get_uint16_at}
use geoff.AppBuffer.Message.{Field, u8, u16, u32, write}
use geoff.SortedMap.{SortedMap, lookup, insert}
use geoff.Websock.{WebsockSession, commit_tx_buffer, receive}
use geoff.Websock
use geoff.GameSession.{Handlers, game_app_version, handle_received}
use geoff.Double.{Double}
use geoff.Asteroids.Structs.{Size, Position}
use geoff.Asteroids.RockField.{RockField}
use geoff.Asteroids.Player.{Player, click_event, key_event, resize_event}
use geoff.Asteroids.Player

pub record Session : Type 0 where
  pub websock : WebsockSession
  pub registered : Bool

pub create : ℕ → Session
create id = record { websock = Websock.create id; registered = false }

pub commit : AppBuffer → Session → Session
commit tx s = record s { websock = commit_tx_buffer tx s.websock }

-- The game's side of g_universe.
pub record World (W : Type 0) : Type 0 where
  pub universe : Size W
  pub field : RockField W
  pub players : SortedMap (Player W)
  pub stars : List (Position W)
  pub ticks : ℕ

module _ {W : Type 0} where
  -- m_player, or the null pointer.
  pub player_of : Session → World W → Option (Player W)
  player_of s w = if s.registered then lookup s.websock.session_id w.players else none

  pub put_player : Session → Player W → World W → World W
  put_player s p w = record w { players = insert s.websock.session_id p w.players }

module _ {W : Type 0} ⦃d : Double W⦄ where
  open d use {of_nat, to_u16}

  abbrev pub star_fields : List (Position W) → List Field
  star_fields [] = []
  star_fields (p ∷ stars) = u16 (to_u16 p.pos_x) ∷ u16 (to_u16 p.pos_y) ∷ star_fields stars

  -- SessionRegistered, with the stars.
  abbrev pub welcome : ℕ → List (Position W) → List Field
  welcome id stars =
      u8 0xBB ∷ u8 0x01 ∷ u32 id ∷ u16 game_app_version ∷ u16 (length stars) ∷ star_fields stars

  on_key : ℕ → Bool → Session → World W → Option (Player W) → World W
  on_key key is_down s w none = w
  on_key key is_down s w (some p) = put_player s (key_event key is_down p) w

  on_resize : ℕ → ℕ → Session → World W → Option (Player W) → World W
  on_resize x y s w none = w
  on_resize x y s w (some p) = put_player s (resize_event w.universe x y p) w

  module _ (rand : ℕ → ℕ) (rand_max : ℕ) where
    on_click : ℕ → ℕ → World W → Option (Player W) → World W
    on_click x y w none = w
    on_click x y w (some p) = record w { field = click_event rand rand_max x y p w.field }

    module _ ⦃host : Host⦄ where
      -- The fixed offsets are read without a look at the size: a short message is a fault.
      handle_new_session : AppBuffer → Session × World W → Option (Session × World W)
      handle_new_session rx (s, w) = do
        width ← get_uint16_at 3 rx
        height ← get_uint16_at 5 rx
        tx ←
            write (welcome s.websock.session_id w.stars)
              (make (8 + 2 + length w.stars * (2 * 2)) rx.is_little_endian)
        some (
          commit tx (record s { registered = true }),
          put_player s (Player.create w.universe (of_nat width) (of_nat height)) w,
        )

      handle_key_event : AppBuffer → Session × World W → Option (Session × World W)
      handle_key_event rx (s, w) = do
        key ← get_uint8_at 2 rx
        is_down ← get_uint8_at 1 rx
        some (s, on_key key (not (is_down == 0)) s w (player_of s w))

      handle_click_event : AppBuffer → Session × World W → Option (Session × World W)
      handle_click_event rx (s, w) = do
        x ← get_uint16_at 5 rx
        y ← get_uint16_at 7 rx
        some (s, on_click x y w (player_of s w))

      handle_resize_event : AppBuffer → Session × World W → Option (Session × World W)
      handle_resize_event rx (s, w) = do
        x ← get_uint16_at 5 rx
        y ← get_uint16_at 7 rx
        some (s, on_resize x y s w (player_of s w))

      pub game : Handlers (Session × World W)
      game = record {
        handle_new_session = handle_new_session;
        handle_click_event = handle_click_event;
        handle_key_event = handle_key_event;
        handle_resize_event = handle_resize_event;
      }

      -- The bytes of a client, handled by its session.
      pub on_message : List ℕ → Session → World W → Option (Session × World W)
      on_message bytes s w =
          let (rx, websock) = receive bytes s.websock in
          handle_received game rx (record s { websock = websock }, w)
