-- ===== src/Asteroids/Bullet.antt =====
-- apps/asteroids/inc/Bullet.h and src/Bullet.cpp.
use geoff.Prelude.{ℕ, ◌-◌, Bool, ◌==◌, if◌then◌else◌}
use geoff.Double.{Double}
use geoff.Asteroids.Structs.{Size, Position, Velocity, fly}

pub record Bullet (W : Type 0) : Type 0 where
  pub position : Position W
  pub open position use *
  pub velocity : Velocity W
  pub open velocity use *
  pub ticks_left : ℕ

module _ {W : Type 0} ⦃d : Double W⦄ where
  unfoldable pub launch : (x y dx dy : W) → Bullet W
  launch x y dx dy = record {
    position = record { pos_x = x; pos_y = y };
    velocity = record { delta_x = dx; delta_y = dy };
    ticks_left = 180;
  }

  -- The moved bullet, and whether its time is up. On ℕ, 0 - 1 is 0, as the guard has it.
  unfoldable pub tick_event : Size W → Bullet W → Bullet W × Bool
  tick_event universe b =
      let left = b.ticks_left - 1 in
      if left == 0 then (record b { ticks_left = left }, left == 0) else (
        record b { ticks_left = left; position = fly universe b.position b.velocity },
        left == 0,
      )
