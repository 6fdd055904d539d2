-- ===== src/Asteroids/Structs.antt =====
-- apps/asteroids/inc/Structs.h, and the wrap-around at the edges of the universe that
-- apps/asteroids/src/Bullet.cpp and Rock.cpp share.
pub mod Wrap
use geoff.Prelude.{ℕ, if◌then◌else◌}
use geoff.Double.{Double}

-- The browser window of a player, at an offset in the universe. Every field is a `uint16_t`.
pub record Context : Type 0 where
  pub ctx_w : ℕ
  pub ctx_h : ℕ
  pub ctx_ox : ℕ
  pub ctx_oy : ℕ

pub record Size (W : Type 0) : Type 0 where
  pub size_w : W
  pub size_h : W

pub record Position (W : Type 0) : Type 0 where
  pub pos_x : W
  pub pos_y : W

pub record Velocity (W : Type 0) : Type 0 where
  pub delta_x : W
  pub delta_y : W

module _ {W : Type 0} ⦃d : Double W⦄ where
  open d use {of_nat, add, lt}

  -- if (pos > limit) pos = 0.0; if (pos < 0.0) pos = limit;
  wrap : W → W → W
  wrap limit x =
      let x' = if lt limit x then of_nat 0 else x in if lt x' (of_nat 0) then limit else x'

  -- One tick of flight: the velocity is added, and each coordinate wraps at the universe's edge.
  unfoldable pub fly : Size W → Position W → Velocity W → Position W
  unfolding wrap
  fly universe p v = record {
    pos_x = wrap universe.size_w (add p.pos_x v.delta_x);
    pos_y = wrap universe.size_h (add p.pos_y v.delta_y);
  }
