-- ===== src/Asteroids/Gun.antt =====
-- apps/asteroids/inc/Gun.h and src/Gun.cpp. A gun is its list of bullets, oldest first.
pub mod Magazine
pub mod Empties
pub mod Packet
use geoff.Prelude.{
  ◌>>=◌, ◌+◌, ◌*◌, Bool, false, ◌||◌, List, [], ◌∷◌, ◌++◌, Option, none, some, length, ◌==◌,
  if◌then◌else◌,
}
use geoff.Words.{Host}
use geoff.AppBuffer.{AppBuffer, make}
use geoff.AppBuffer.Message.{Field, u16, write}
use geoff.Double.{Double}
use geoff.Asteroids.Structs.{Context, Size, Position}
use geoff.Asteroids.Consts.{gun_mag_size, muzzle_velocity, fps}
use geoff.Asteroids.Bullet.{Bullet}
use geoff.Asteroids.Bullet

abbrev pub Gun : Type 0 → Type 0
Gun W = List (Bullet W)

module _ {W : Type 0} ⦃d : Double W⦄ where
  open d use {of_nat, add, sub, mul, div, neg, cos, sin, to_u16}

  -- The bullet that a ship fires: from its nose, along its heading.
  pub firing_solution : Context → Position W → W → W → Bullet W
  firing_solution ctx p radius angle =
      let off_x = of_nat ctx.ctx_ox in
      let off_y = of_nat ctx.ctx_oy in
      let pos_x = sub p.pos_x off_x in
      let pos_y = sub p.pos_y off_y in
      let px = add (add pos_x (mul radius (cos angle))) off_x in
      let py = add (sub pos_y (mul radius (sin angle))) off_y in
      let mvx = div (mul muzzle_velocity (cos angle)) fps in
      let mvy = div (mul muzzle_velocity (neg (sin angle))) fps in Bullet.launch px py mvx mvy

  -- Gun::Fire, with the fields of the ship that it reads.
  unfoldable pub fire : Context → Position W → W → W → Gun W → Gun W
  fire ctx p radius angle bullets =
      if length bullets == gun_mag_size
      then bullets
      else bullets ++ (firing_solution ctx p radius angle ∷ [])

  -- The loop of Gun::TickEvent: every bullet moves, and any of them may have timed out.
  tick_all : Size W → Gun W → Gun W × Bool
  unfolding Bullet.tick_event
  tick_all universe [] = ([], false)
  tick_all universe (b ∷ bullets) =
      let (b', done) = Bullet.tick_event universe b in
      let (bullets', timed_out) = tick_all universe bullets in (b' ∷ bullets', done || timed_out)

  pop_front : Gun W → Gun W
  pop_front [] = []
  pop_front (b ∷ bullets) = bullets

  unfoldable pub tick_event : Size W → Gun W → Gun W
  unfolding tick_all pop_front
  tick_event universe [] = []
  tick_event universe (b ∷ bullets) =
      let (moved, timed_out) = tick_all universe (b ∷ bullets) in
      if timed_out then pop_front moved else moved

  -- The coordinates of the bullets, as the loop of Gun::MakeBuffer sends them.
  pub bullet_fields : Gun W → List Field
  bullet_fields [] = []
  bullet_fields (b ∷ bullets) = u16 (to_u16 b.pos_x) ∷ u16 (to_u16 b.pos_y) ∷ bullet_fields bullets

  module _ ⦃host : Host⦄ where
    -- Gun::MakeBuffer. The outer `none` is a fault, the inner one the null pointer of an empty gun.
    pub make_buffer : Bool → Gun W → Option (Option AppBuffer)
    make_buffer flag [] = some none
    make_buffer flag (b ∷ bullets) = do
      let count = length (b ∷ bullets)
      tx ← write (u16 count ∷ bullet_fields (b ∷ bullets)) (make (2 + count * 4) flag)
      some (some tx)
