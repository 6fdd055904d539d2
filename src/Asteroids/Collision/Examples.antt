-- ===== src/Asteroids/Collision/Examples.antt =====
-- Runs of Universe::CollisionDetection of apps/asteroids/src/Universe.cpp on thousandths of a pixel,
-- and its theorems at such inputs.
use geoff.Prelude.{ℕ, ◌+◌, ◌%◌, ◌≡◌, ◌↔◌, refl, [], ◌∷◌, none, some, arith}
use geoff.Words.{u32_mod}
use geoff.Double.Milli.{Milli, milli_double, lift2, div_ℤ, quotient, power, root}
use geoff.Prelude.Int.{◌+ℤ◌, ◌-ℤ◌, ◌*ℤ◌}
use geoff.Asteroids.Bullet.{Bullet}
use geoff.Asteroids.Gun.{Gun}
use geoff.Asteroids.RockField.{RockField, destroy_rock, shatter, find, erase}
use geoff.Asteroids.Ship.Examples.{ship}
use geoff.Asteroids.Ship.Move.Examples.{motion, px}
use geoff.Asteroids.Player.{Player, playing, add_to_score}
use geoff.Asteroids.Player.Phases.{IsPlayer}
use geoff.Asteroids.Collision.{
  distance, is_hit, hits_of, survivors, rams, pushes, meet, sweep, points, award, settle, collide,
  collision_detection,
}
use geoff.Asteroids.Collision.Pushed.{Overkill}
use geoff.Asteroids.Collision.Outcome.{collide-none_iff}
use geoff.Asteroids.Collision.Earned.{earned, may_collide}
use geoff.Asteroids.Collision.Score.{collide_score}

abbrev pub bullet : Bullet Milli
bullet = record { position = motion.position; velocity = motion.velocity; ticks_left = 7 }

-- A player with a gun, whose ship is exploding.
abbrev pub armed : Gun Milli → ℕ → Player Milli
armed gun score = record {
  context = motion.context;
  size = record { size_w = px 800; size_h = px 600 };
  ship = record ship { gun = gun };
  score = score;
  phase = playing;
}

-- A small rock where the bullets are.
abbrev pub field : RockField Milli
field = record {
  rocks =
      record {
        address = 3;
        rock = record { position = motion.position; velocity = motion.velocity; radius = px 8 };
      }
      ∷ [];
  fresh = 4;
  drawn = 0;
}

abbrev pub cleared : RockField Milli
cleared = record { rocks = []; fresh = 4; drawn = 0 }

abbrev pub dice : ℕ → ℕ
dice i = 1

one_hit : collide dice 2 (armed (bullet ∷ []) 70) field ≡ some (armed [] 170, cleared)
unfolding collide sweep pushes hits_of is_hit distance rams meet survivors settle award points
    destroy_rock shatter find erase add_to_score lift2 quotient div_ℤ ◌*ℤ◌ ◌+ℤ◌ ◌-ℤ◌ power root
one_hit = refl

collide_score_example :
    let p = armed (bullet ∷ []) 70 in
    let m = p.ship.motion in
    170 ≡ (70 + earned field.rocks p.ship.gun (may_collide p) m.radius m.position) % u32_mod
collide_score_example =
    collide_score dice 2 (armed (bullet ∷ []) 70) (armed [] 170) field cleared (omega arith)
      (omega arith) one_hit

-- Two bullets in one rock.
collide-none_iff_example :
    (collide dice 2 (armed (bullet ∷ bullet ∷ []) 70) field ≡ none)
    ↔ Overkill field.rocks (armed (bullet ∷ bullet ∷ []) 70)
collide-none_iff_example =
    collide-none_iff dice 2 (armed (bullet ∷ bullet ∷ []) 70) field (omega arith)

two_hits : collide dice 2 (armed (bullet ∷ bullet ∷ []) 70) field ≡ none
unfolding collide sweep pushes hits_of is_hit distance rams meet survivors settle award points
    destroy_rock shatter find erase add_to_score lift2 quotient div_ℤ ◌*ℤ◌ ◌+ℤ◌ ◌-ℤ◌ power root
two_hits = refl

pub armed-IsPlayer : IsPlayer (armed (bullet ∷ []) 70)
armed-IsPlayer = ground arith

pub all_hit :
    collision_detection dice 2 ((5, armed (bullet ∷ []) 70) ∷ []) field
    ≡ some ((5, armed [] 170) ∷ [], cleared)
unfolding collision_detection
all_hit = rw one_hit

pub no_players : (f : RockField Milli) → collision_detection dice 2 [] f ≡ some ([], f)
unfolding collision_detection
no_players f = refl
