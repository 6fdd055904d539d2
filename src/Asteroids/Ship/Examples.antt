-- ===== src/Asteroids/Ship/Examples.antt =====
-- Runs of apps/asteroids/src/Ship.cpp on thousandths of a pixel, and its theorems at such inputs.
use geoff.Prelude.{◌≡◌, refl, true, false, [], ◌∷◌, ◌++◌, some, arith}
use geoff.Words.{little}
use geoff.AppBuffer.Filled.{filled}
use geoff.AppBuffer.Message.{encode_all}
use geoff.Double.Milli.{Milli, milli_double, lift2, div_ℤ, quotient}
use geoff.Prelude.Int.{pos, ◌+ℤ◌, ◌-ℤ◌, ◌*ℤ◌}
use geoff.Asteroids.Ship.Move.Examples.{universe, motion, px}
use geoff.Asteroids.Ship.{Ship, tick_event}
use geoff.Asteroids.Ship.Buffer.{make_buffer, header}
use geoff.Asteroids.Ship.Lives.{IsShip, Fate, tick_event-Fate}
use geoff.Asteroids.Ship.Explosion.{Reborn, ticks, explosion_ends}
use geoff.Asteroids.Ship.Buffer.Packet.{ship_packet, trailer}

abbrev pub ship : Ship Milli
ship = record {
  motion = motion;
  gun = record { position = motion.position; velocity = motion.velocity; ticks_left = 7 } ∷ [];
  explosion_duration = some (pos 40);
  inv_duration = some (pos 3000);
  blink_time = px 12;
  blink_num = 15;
  lives_left = 2;
  exploding = true;
  visible = true;
  dead = false;
  invulnerable = false;
}

ship-IsShip : IsShip ship
ship-IsShip = ground arith

tick_event-Fate_example : IsShip (tick_event universe ship) × Fate ship (tick_event universe ship)
tick_event-Fate_example = tick_event-Fate universe ship ship-IsShip

explosion_ends_example : Reborn 2 (ticks 3 universe ship)
unfolding lift2 quotient div_ℤ ◌*ℤ◌ ◌+ℤ◌ ◌-ℤ◌
explosion_ends_example = explosion_ends 3 universe ship refl (refl, (refl, refl))

ship_packet_example :
    make_buffer ⦃host = little⦄ true ship
    ≡ some (
        filled true
          (encode_all ⦃host = little⦄ true (header ship 1) ++ trailer ⦃host = little⦄ true ship.gun)
          0)
ship_packet_example = ship_packet ⦃host = little⦄ true ship (omega arith)
