-- ===== src/Asteroids/Ship.antt =====
-- apps/asteroids/inc/Ship.h and src/Ship.cpp: the ship of a player. `universe` is the size of
-- `g_universe`. `m_gun` is set by the constructor and never reset, so its null tests are left out.
pub mod Move
pub mod Lives
pub mod Explosion
pub mod Buffer
pub mod Examples
use geoff.Prelude.{ℕ, ◌+◌, ◌-◌, ◌/◌, ◌%◌, Bool, true, false, ◌||◌, [], ◌==◌, ltb, if◌then◌else◌}
use geoff.Words.{u16_mod, u32_mod}
use geoff.Double.{Double}
use geoff.Asteroids.Structs.{Size}
use geoff.Asteroids.Consts.{
  ship_size, num_lives, fps, ship_blink_dur, ship_explode_dur, ship_inv_dur, ship_max_delta_v,
  degrees_to_rads, viewport_margin,
}
use geoff.Asteroids.Gun.{Gun}
use geoff.Asteroids.Gun
use geoff.Asteroids.Ship.Move.{Motion, move}

pub record Ship (W : Type 0) : Type 0 where
  pub motion : Motion W
  pub open motion use *
  pub gun : Gun W
  pub explosion_duration : W
  pub inv_duration : W
  pub blink_time : W
  pub blink_num : ℕ
  pub lives_left : ℕ
  pub exploding : Bool
  pub visible : Bool
  pub dead : Bool
  pub invulnerable : Bool

-- m_lives_left--, of an int that stands here as its 32 bits: one less than 0 is 2 ^ 32 - 1.
unfoldable pub decremented : ℕ → ℕ
decremented n = if n == 0 then u32_mod - 1 else n - 1

module _ {W : Type 0} ⦃d : Double W⦄ where
  open d use {of_nat, sub, div, mul, lt, le, to_u16, to_int}

  -- SHIP_BLINK_DUR * FPS
  abbrev pub blink_ticks : W
  blink_ticks = mul ship_blink_dur fps

  -- SHIP_INV_DUR / SHIP_BLINK_DUR
  abbrev pub blinks : W
  blinks = div ship_inv_dur ship_blink_dur

  -- Ship(cw, ch, x, y, angle)
  unfoldable pub create : Size W → ℕ → ℕ → (x y angle : W) → Ship W
  create universe cw ch x y angle = record {
    motion = record {
      context = record {
        ctx_w = cw;
        ctx_h = ch;
        ctx_ox = to_u16 (sub (div universe.size_w (of_nat 2)) (of_nat (cw / 2)));
        ctx_oy = to_u16 (sub (div universe.size_h (of_nat 2)) (of_nat (ch / 2)));
      };
      position = record { pos_x = x; pos_y = y };
      velocity = record { delta_x = of_nat 0; delta_y = of_nat 0 };
      angle = angle;
      radius = of_nat (ship_size / 2);
      rotation = of_nat 0;
      max_delta_v = ship_max_delta_v;
      margin = viewport_margin;
      thrusting = false;
      left = false;
      right = false;
      slide_viewport = true;
      wrap_viewport = false;
      enforce_boundaries = true;
    };
    gun = [];
    explosion_duration = ship_explode_dur;
    inv_duration = ship_inv_dur;
    blink_time = blink_ticks;
    blink_num = to_int blinks;
    lives_left = num_lives;
    exploding = false;
    visible = true;
    dead = false;
    invulnerable = true;
  }

  -- The middle of the window, at rest and heading up. ctxOX + ctxW / 2 is an addition of ints.
  pub centred : Motion W → Motion W
  centred m = record m {
    position = record {
      pos_x = of_nat (m.ctx_ox + m.ctx_w / 2);
      pos_y = of_nat (m.ctx_oy + m.ctx_h / 2);
    };
    velocity = record { delta_x = of_nat 0; delta_y = of_nat 0 };
    angle = mul (of_nat 90) degrees_to_rads;
  }

  unfoldable pub new_life : Ship W → Ship W
  unfolding centred decremented
  new_life s = if s.lives_left == 0 then record s { dead = true } else record s {
    motion = centred s.motion;
    explosion_duration = ship_explode_dur;
    inv_duration = ship_inv_dur;
    blink_time = blink_ticks;
    blink_num = to_int blinks;
    lives_left = decremented s.lives_left;
    exploding = false;
    visible = true;
    dead = false;
    invulnerable = true;
  }

  unfoldable pub resurrect : Ship W → Ship W
  unfolding new_life
  resurrect s =
      let s' = new_life (record s { dead = false; lives_left = 1 }) in
      record s' { lives_left = num_lives }

  unfoldable pub fire_guns : Ship W → Ship W
  fire_guns s = record s { gun = Gun.fire s.context s.position s.radius s.angle s.gun }

  unfoldable pub explode : Ship W → Ship W
  explode s = record s {
    motion = record (s.motion) { velocity = record { delta_x = of_nat 0; delta_y = of_nat 0 } };
    exploding = true;
  }

  -- The keys are 'A', 'D', 'I' and 'W' with the arrows, and the space bar.
  unfoldable pub key_event : ℕ → Bool → Ship W → Ship W
  unfolding fire_guns
  key_event key is_down s =
      if key == 65 || key == 37
      then record s { motion = record (s.motion) { left = is_down } }
      else if key == 68 || key == 39
      then record s { motion = record (s.motion) { right = is_down } }
      else if key == 73 || key == 87 || key == 38
      then record s { motion = record (s.motion) { thrusting = is_down } }
      else if key == 32
      then (if is_down then fire_guns s else s)
      else s

  -- static_cast<uint16_t>(extent / 2) - window / 2, an int that may be negative, as a `uint16_t`.
  pub centre_offset : W → ℕ → ℕ
  centre_offset extent window = (to_u16 (div extent (of_nat 2)) + u16_mod - window / 2) % u16_mod

  unfoldable pub resize_event : Size W → ℕ → ℕ → Ship W → Ship W
  resize_event universe w h s = record s {
    motion = record (s.motion) {
      context = record {
        ctx_w = w % u16_mod;
        ctx_h = h % u16_mod;
        ctx_ox = centre_offset universe.size_w (w % u16_mod);
        ctx_oy = centre_offset universe.size_h (h % u16_mod);
      };
    };
  }

  -- 1 / FPS
  abbrev pub tick_seconds : W
  tick_seconds = div (of_nat 1) fps

  -- m_visible = m_blink_num % 2, and the count-down of the blinks.
  pub blink : Ship W → Ship W
  blink s =
      let s' = record s { visible = s.blink_num % 2 == 1 } in
      let time = sub s.blink_time (of_nat 1) in
      if ltb 0 s.blink_num
      then (if le time (of_nat 0)
          then record s' { blink_time = blink_ticks; blink_num = s.blink_num - 1 }
          else record s' { blink_time = time })
      else s'

  -- The part of Ship::TickEvent that follows the motion of the ship and its bullets.
  unfoldable pub age : Ship W → Ship W
  age s =
      let burnt = sub s.explosion_duration tick_seconds in
      let shielded = sub s.inv_duration tick_seconds in
      if s.exploding
      then (if lt burnt (of_nat 0)
          then new_life (record s { explosion_duration = ship_explode_dur; exploding = false })
          else record s { explosion_duration = burnt })
      else if s.invulnerable
      then (if lt shielded (of_nat 0)
          then record s { inv_duration = shielded; invulnerable = false }
          else blink (record s { inv_duration = shielded }))
      else s

  unfoldable pub move_ship : Size W → Ship W → Ship W
  move_ship universe s =
      if s.exploding || s.dead then s else record s { motion = move universe s.motion }

  unfoldable pub tick_event : Size W → Ship W → Ship W
  tick_event universe s =
      let s' = move_ship universe s in age (record s' { gun = Gun.tick_event universe s'.gun })
