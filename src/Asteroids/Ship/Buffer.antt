-- ===== src/Asteroids/Ship/Buffer.antt =====
-- Ship::MakeBuffer of apps/asteroids/src/Ship.cpp: what a client is told of its ship.
pub mod Packet
use geoff.Prelude.{◌>>=◌, ℕ, ◌+◌, ◌-◌, Bool, List, [], ◌∷◌, Option, none, some, if◌then◌else◌}
use geoff.Words.{Host}
use geoff.AppBuffer.{AppBuffer, make, size, allocate, get_uint16_at, set_uint16_at, copy_in}
use geoff.AppBuffer.Memory.{load}
use geoff.AppBuffer.Message.{Field, u8, u16, write}
use geoff.Double.{Double}
use geoff.Asteroids.Consts.{fp_4_12}
use geoff.Asteroids.Gun.{Gun}
use geoff.Asteroids.Gun
use geoff.Asteroids.Ship.{Ship}

module _ ⦃host : Host⦄ where
  -- The bullets' packet behind the header, whose count it replaces.
  append_bullets : AppBuffer → AppBuffer → Option AppBuffer
  append_bullets bullets tx = do
    let (offset, tx1) = allocate tx (size bullets)
    count ← get_uint16_at 0 bullets
    tx2 ← set_uint16_at (10 - 2) count tx1
    coordinates ← load bullets.buff 2 (size bullets - 2)
    copy_in offset coordinates tx2

module _ {W : Type 0} ⦃d : Double W⦄ where
  open d use {mul, to_u16}

  -- The bits of the flags word are distinct, so `|=` is `+`.
  unfoldable pub flags : Ship W → ℕ
  flags s =
      (if s.motion.thrusting then 1 else 0)
      + (if s.exploding then 2 else 0)
      + (if s.visible then 4 else 0)
      + (if s.dead then 8 else 0)

  abbrev pub header : Ship W → ℕ → List Field
  header s count =
      u16 (to_u16 s.pos_x)
      ∷ u16 (to_u16 s.pos_y)
      ∷ u16 (to_u16 (mul s.angle fp_4_12))
      ∷ u8 (flags s)
      ∷ u8 s.lives_left
      ∷ u16 count
      ∷ []

  module _ ⦃host : Host⦄ where
    with_bullets : Bool → Ship W → Option AppBuffer → Option AppBuffer
    with_bullets flag s none = write (header s 0) (make 10 flag)
    with_bullets flag s (some bullets) = do
      tx ← write (header s 0) (make (10 + size bullets) flag)
      append_bullets bullets tx

    -- Ship::MakeBuffer
    pub make_buffer : Bool → Ship W → Option AppBuffer
    make_buffer flag s = do bullets ← Gun.make_buffer flag s.gun; with_bullets flag s bullets
