-- ===== src/Asteroids/Ship/Move.antt =====
-- Ship::MoveShip of apps/asteroids/src/Ship.cpp, for a ship that neither explodes nor is dead, with
-- the fields that it reads and writes.
pub mod Boundary
pub mod Examples
use geoff.Prelude.{ℕ, Bool, if◌then◌else◌}
use geoff.Double.{Double}
use geoff.Asteroids.Structs.{Context, Size, Position, Velocity}
use geoff.Asteroids.Consts.{ship_thrust, ship_rads_per_tick, fps, friction, m_pi}

pub record Motion (W : Type 0) : Type 0 where
  pub context : Context
  pub open context use *
  pub position : Position W
  pub open position use *
  pub velocity : Velocity W
  pub open velocity use *
  pub angle : W
  pub radius : W
  pub rotation : W
  pub max_delta_v : W
  pub margin : W
  pub thrusting : Bool
  pub left : Bool
  pub right : Bool
  pub slide_viewport : Bool
  pub wrap_viewport : Bool
  pub enforce_boundaries : Bool

module _ {W : Type 0} ⦃d : Double W⦄ where
  open d use {of_nat, dbl, add, sub, mul, div, neg, cos, sin, lt, le, to_u16}

  -- m_rotation of this tick.
  pub steer : Motion W → Motion W
  steer m = record m {
    rotation =
        sub (add (of_nat 0) (if m.left then ship_rads_per_tick else of_nat 0))
          (if m.right then ship_rads_per_tick else of_nat 0);
  }

  clamp : W → W → W
  clamp limit v =
      let v' = if lt limit v then limit else v in if lt v' (neg limit) then neg limit else v'

  -- The velocity with the thrust of a tick added.
  pub boosted : Motion W → Velocity W
  boosted m =
      let thrust_x = div (mul (of_nat ship_thrust) (cos m.angle)) fps in
      let thrust_y = div (mul (neg (of_nat ship_thrust)) (sin m.angle)) fps in
      record { delta_x = add m.delta_x thrust_x; delta_y = add m.delta_y thrust_y }

  accelerate : Motion W → Velocity W
  accelerate m = record {
    delta_x = clamp m.max_delta_v (boosted m).delta_x;
    delta_y = clamp m.max_delta_v (boosted m).delta_y;
  }

  decelerate : Motion W → Velocity W
  decelerate m = record {
    delta_x = sub m.delta_x (div (mul friction m.delta_x) fps);
    delta_y = sub m.delta_y (div (mul friction m.delta_y) fps);
  }

  pub thrust : Motion W → Motion W
  thrust m = record m { velocity = if m.thrusting then accelerate m else decelerate m }

  -- The window follows the ship along one axis, if the ship is not too near the universe's edge.
  slide : (margin extent : W) (origin window : ℕ) → W → ℕ
  slide margin extent origin window pos =
      if lt pos (add (of_nat origin) margin)
      then (if lt margin pos then to_u16 (sub pos margin) else origin)
      else if lt (sub (add (of_nat origin) (of_nat window)) margin) pos
      then (if lt pos (sub extent margin)
          then to_u16 (add (sub pos (of_nat window)) margin)
          else origin)
      else origin

  pub slide_window : Size W → Motion W → Motion W
  slide_window universe m =
      if m.slide_viewport
      then record m {
        context = record (m.context) {
          ctx_ox = slide m.margin universe.size_w m.ctx_ox m.ctx_w m.pos_x;
          ctx_oy = slide m.margin universe.size_h m.ctx_oy m.ctx_h m.pos_y;
        };
      }
      else m

  abbrev pub max_angle : W
  max_angle = mul m_pi (dbl 2 0)

  pub turn : Motion W → Motion W
  turn m =
      let angle = add m.angle m.rotation in
      record m {
        angle =
            if le max_angle angle
            then of_nat 0
            else if lt angle (of_nat 0)
            then max_angle
            else angle;
      }

  pub coast : Motion W → Motion W
  coast m = record m {
    position = record { pos_x = add m.pos_x m.delta_x; pos_y = add m.pos_y m.delta_y };
  }

  -- The coordinate and the speed along one axis, at the edges of the universe.
  bounce_pos : (radius extent : W) → W → W
  bounce_pos radius extent pos =
      if lt pos radius
      then radius
      else if le extent (add pos radius)
      then sub extent radius
      else pos

  bounce_delta : (radius extent : W) → W → W → W
  bounce_delta radius extent pos delta =
      if lt pos radius then of_nat 0 else if le extent (add pos radius) then of_nat 0 else delta

  bounce : Size W → Motion W → Motion W
  bounce universe m =
      if m.enforce_boundaries
      then record m {
        position = record {
          pos_x = bounce_pos m.radius universe.size_w m.pos_x;
          pos_y = bounce_pos m.radius universe.size_h m.pos_y;
        };
        velocity = record {
          delta_x = bounce_delta m.radius universe.size_w m.pos_x m.delta_x;
          delta_y = bounce_delta m.radius universe.size_h m.pos_y m.delta_y;
        };
      }
      else m

  -- With m_wrap_viewport the ship leaves the window on one side and comes back on the other.
  wrap_axis : ℕ → ℕ → W → W
  wrap_axis origin window pos =
      let off = of_nat origin in
      let end = add off (of_nat window) in
      if lt pos off then end else if lt end pos then off else pos

  wrap_window : Motion W → Motion W
  wrap_window m =
      if m.wrap_viewport
      then record m {
        position = record {
          pos_x = wrap_axis m.ctx_ox m.ctx_w m.pos_x;
          pos_y = wrap_axis m.ctx_oy m.ctx_h m.pos_y;
        };
      }
      else m

  pub move : Size W → Motion W → Motion W
  move universe m =
      wrap_window (bounce universe (coast (turn (slide_window universe (thrust (steer m))))))
