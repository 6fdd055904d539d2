-- ===== src/Asteroids/Consts.antt =====
-- apps/asteroids/inc/Consts.h.
use geoff.Prelude.{ℕ, ◌/◌}
use geoff.Double.{Double}

abbrev pub ship_size : ℕ
ship_size = 20

abbrev pub ship_thrust : ℕ
ship_thrust = 10

abbrev pub ship_turn_speed : ℕ
ship_turn_speed = 360

abbrev pub gun_mag_size : ℕ
gun_mag_size = 6

abbrev pub rock_speed : ℕ
rock_speed = 50

abbrev pub num_stars : ℕ
num_stars = 1600

abbrev pub num_lives : ℕ
num_lives = 5

module _ {W : Type 0} ⦃d : Double W⦄ where
  open d use {of_nat, dbl, flt, mul, div}

  abbrev pub m_pi : W
  m_pi = dbl 314159265358979323846 20

  abbrev pub fps : W
  fps = dbl 60 0

  abbrev pub friction : W
  friction = flt 7 1

  -- The literal has the suffix `f`, so this is the `float` nearest to 0.2.
  abbrev pub ship_blink_dur : W
  ship_blink_dur = flt 2 1

  abbrev pub ship_explode_dur : W
  ship_explode_dur = flt 5 1

  abbrev pub ship_inv_dur : W
  ship_inv_dur = flt 3 0

  abbrev pub ship_max_delta_v : W
  ship_max_delta_v = dbl 20 0

  abbrev pub muzzle_velocity : W
  muzzle_velocity = flt 500 0

  abbrev pub rock_radius : W
  rock_radius = dbl 32 0

  -- SHIP_TURN_SPEED / 180 is a division of ints.
  abbrev pub ship_rads_per_tick : W
  ship_rads_per_tick = div (mul (of_nat (ship_turn_speed / 180)) (dbl 31415 4)) fps

  abbrev pub fp_4_12 : W
  fp_4_12 = dbl 4096 0

  abbrev pub degrees_to_rads : W
  degrees_to_rads = div m_pi (of_nat 180)

  abbrev pub viewport_margin : W
  viewport_margin = dbl 200 0
