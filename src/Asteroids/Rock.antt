-- ===== src/Asteroids/Rock.antt =====
-- apps/asteroids/inc/Rock.h and src/Rock.cpp.
use geoff.Double.{Double}
use geoff.Asteroids.Structs.{Size, Position, Velocity, fly}

pub record Rock (W : Type 0) : Type 0 where
  pub position : Position W
  pub open position use *
  pub velocity : Velocity W
  pub open velocity use *
  pub radius : W

module _ {W : Type 0} ⦃d : Double W⦄ where
  unfoldable pub tick_event : Size W → Rock W → Rock W
  tick_event universe r = record r { position = fly universe r.position r.velocity }
