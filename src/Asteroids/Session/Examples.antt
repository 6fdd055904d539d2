-- ===== src/Asteroids/Session/Examples.antt =====
-- A client's key, handled by its session (apps/asteroids/src/Session.cpp).
use geoff.Prelude.{none, ◌≡◌, true, [], ◌∷◌, some, arith}
use geoff.Words.{little}
use geoff.AppBuffer.Received.{get_uint8_at-of_bytes}
use geoff.SortedMap.{lookup}
use geoff.Websock.{receive}
use geoff.GameSession.{handle_received, comms_handler, dispatch}
use geoff.Double.Milli.{Milli, milli_double}
use geoff.Asteroids.Ship.Move.Examples.{universe}
use geoff.Asteroids.Player
use geoff.Asteroids.Player.{Player}
use geoff.Asteroids.Collision.Examples.{armed, bullet, field, dice, armed-IsPlayer}
use geoff.Asteroids.Session.{
  Session, World, player_of, put_player, game, handle_key_event, on_key, on_message,
}
use geoff.Asteroids.Session.Keeps.{IsWorld, on_message-IsWorld}

abbrev session : Session
session = record {
  websock = record {
    session_id = 5;
    is_little_endian = true;
    tx_que = [];
    tx_ready_callback = none;
  };
  registered = true;
}

abbrev world : World Milli
world = record {
  universe = universe;
  field = field;
  players = (5, armed (bullet ∷ []) 70) ∷ [];
  stars = [];
  ticks = 0;
}

-- The space bar, pressed.
abbrev fired : World Milli
fired = put_player session (Player.key_event 32 true (armed (bullet ∷ []) 70)) world

pressed :
    on_message dice 2 ⦃host = little⦄ (0xAB ∷ 4 ∷ 1 ∷ 32 ∷ []) session world ≡ some (session, fired)
unfolding on_message receive handle_received comms_handler dispatch game handle_key_event on_key
    player_of lookup
pressed = rw (get_uint8_at-of_bytes ⦃host = little⦄ 0 (4 ∷ 1 ∷ 32 ∷ []) true) (
    rw (get_uint8_at-of_bytes ⦃host = little⦄ 2 (4 ∷ 1 ∷ 32 ∷ []) true)
      (rw (get_uint8_at-of_bytes ⦃host = little⦄ 1 (4 ∷ 1 ∷ 32 ∷ []) true)))

on_message-IsWorld_example : IsWorld fired
on_message-IsWorld_example =
    on_message-IsWorld dice 2 ⦃host = little⦄ (0xAB ∷ 4 ∷ 1 ∷ 32 ∷ []) session session world fired
      (record { players = (armed-IsPlayer, tt); rocks = omega arith }) pressed
