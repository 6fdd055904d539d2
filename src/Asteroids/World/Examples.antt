-- ===== src/Asteroids/World/Examples.antt =====
-- A player, a client's messages and a tick of the whole game (apps/asteroids), and the theorems at such
-- inputs.
use geoff.Prelude.{none, ◌≡◌, refl, true, false, [], ◌∷◌, ◌++◌, some, length, arith}
use geoff.Words.{little}
use geoff.Prelude.Int.{◌+ℤ◌}
use geoff.AppBuffer.Filled.{filled}
use geoff.AppBuffer.Message.{u16, encode_all}
use geoff.Double.Milli.{Milli, milli_double, lift2}
use geoff.Asteroids.Structs.{fly}
use geoff.Asteroids.RockField.{RockField, Node}
use geoff.Asteroids.RockField
use geoff.Asteroids.Rock
use geoff.Asteroids.Ship.Buffer
use geoff.Asteroids.Ship.Buffer.Packet.{trailer}
use geoff.Asteroids.Ship.Move.Examples.{motion, px, universe}
use geoff.Asteroids.Player.{Player, Client, game_over, advance, header, tick_event}
use geoff.Asteroids.Player.Phases.{IsPlayer, advance-IsPlayer}
use geoff.Asteroids.Player.Packet.{player_message}
use geoff.Asteroids.Collision.{collision_detection}
use geoff.Asteroids.Collision.Examples.{
  armed, bullet, field, cleared, dice, all_hit, armed-IsPlayer,
}
use geoff.Asteroids.Universe
use geoff.Asteroids.Universe.{others, rock_fields}
use geoff.Asteroids.Universe.Packet.{universe_message, ship_part}
use geoff.Asteroids.Session.{World}
use geoff.Asteroids.Session.Keeps.{IsWorld}
use geoff.Asteroids.World.{SessionMap, tick}
use geoff.Asteroids.World.Total.{tick-IsWorld}

abbrev player : Player Milli
player = armed (bullet ∷ []) 70

abbrev client : Client
client = record { session_id = 5; is_little_endian = true; tick_count = 0 }

player_message_example :
    tick_event ⦃host = little⦄ universe client player
    ≡ some (
      advance universe player,
      filled true
          (encode_all ⦃host = little⦄ true (header client (advance universe player))
            ++ (encode_all ⦃host = little⦄ true (
                  Buffer.header
                    (advance universe player).ship
                    (length (advance universe player).ship.gun))
                ++ trailer ⦃host = little⦄ true (advance universe player).ship.gun))
          0,
    )
player_message_example =
    player_message ⦃host = little⦄ universe client player
      (omega (arith, (advance-IsPlayer universe player armed-IsPlayer).ship.magazine.fits))

-- A player whose game is over.
abbrev lost : Player Milli
lost = record player {
  ship = record (player.ship) { lives_left = 0; dead = true; exploding = false };
  phase = game_over;
}

lost-IsPlayer : IsPlayer lost
lost-IsPlayer = ground arith

universe_message_example :
    Universe.tick_message ⦃host = little⦄ universe field.rocks
      ((5, some player) ∷ (6, some lost) ∷ [])
      client
    ≡ some (
        filled true
          (encode_all ⦃host = little⦄ true (
            Universe.header universe client
            ++ (u16 1
                ∷ (rock_fields field.rocks
                    ++ ship_part (others 5 ((5, some player) ∷ (6, some lost) ∷ []))))))
          0)
universe_message_example =
    universe_message ⦃host = little⦄ universe field.rocks ((5, some player) ∷ (6, some lost) ∷ [])
      client

-- The rock that the bullet will meet.
abbrev coming : RockField Milli
coming = record field {
  rocks =
      record {
        address = 3;
        rock = record {
          position = record { pos_x = px 31; pos_y = px 4096 };
          velocity = motion.velocity;
          radius = px 8;
        };
      }
      ∷ [];
}

come : RockField.tick_event universe coming ≡ field
unfolding RockField.tick_event Rock.tick_event fly lift2 ◌+ℤ◌
come = refl

abbrev world : World Milli
world = record {
  universe = universe;
  field = coming;
  players = (5, player) ∷ [];
  stars = [];
  ticks = 0;
}

world-IsWorld : IsWorld world
world-IsWorld = record { players = (armed-IsPlayer, tt); rocks = omega arith }

abbrev sessions : SessionMap
sessions =
    (
      5,
      some (record {
        websock = record {
          session_id = 5;
          is_little_endian = true;
          tx_que = [];
          tx_ready_callback = none;
        };
        registered = true;
      }),
    )
    ∷ []

hit_now :
    collision_detection dice 2 world.players (RockField.tick_event universe coming)
    ≡ some ((5, armed [] 170) ∷ [], cleared)
hit_now = rw come all_hit

tick-IsWorld_example :
    (q : SessionMap × World Milli) × (tick ⦃host = little⦄ dice 2 1 sessions world ≡ some q)
    × IsWorld q.1
tick-IsWorld_example =
    tick-IsWorld ⦃host = little⦄ dice 2 1 sessions world ((5, armed [] 170) ∷ [], cleared)
      world-IsWorld tt hit_now
