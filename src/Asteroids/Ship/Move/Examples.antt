-- ===== src/Asteroids/Ship/Move/Examples.antt =====
-- Runs of Ship::MoveShip of apps/asteroids/src/Ship.cpp on thousandths of a pixel, and its theorems
-- at such inputs.
use geoff.Prelude.{ℕ, ◌*◌, refl, true, false, some}
use geoff.Double.Milli.{Milli, milli_double, Milli-IsOrdered, lift2, div_ℤ, quotient, cosine, sine}
use geoff.Prelude.Int.{pos, negsuc, ◌+ℤ◌, ◌-ℤ◌, ◌*ℤ◌}
use geoff.Asteroids.Structs.{Size}
use geoff.Asteroids.Ship.Move.{
  Motion, move, coast, turn, slide_window, thrust, steer, boosted, accelerate, clamp, slide,
}
use geoff.Asteroids.Ship.Move.Boundary.{
  Fits, IsInside, IsWithin, move-IsInside, move_thrusting-IsWithin,
}

abbrev pub px : ℕ → Milli
px n = some (pos (n * 1000))

abbrev pub universe : Size Milli
universe = record { size_w = px 8192; size_h = px 8192 }

-- A ship under thrust near the left edge, that turns left.
abbrev pub motion : Motion Milli
motion = record {
  context = record { ctx_w = 800; ctx_h = 600; ctx_ox = 0; ctx_oy = 3796 };
  position = record { pos_x = px 12; pos_y = px 4096 };
  velocity = record { delta_x = some (negsuc 18999); delta_y = px 0 };
  angle = px 0;
  radius = px 10;
  rotation = px 0;
  max_delta_v = px 20;
  margin = px 200;
  thrusting = true;
  left = true;
  right = false;
  slide_viewport = true;
  wrap_viewport = false;
  enforce_boundaries = true;
}

milli-Fits : Fits (px 10) (px 8192)
unfolding lift2 ◌+ℤ◌ ◌-ℤ◌
milli-Fits = record { extent_num = refl; radius_le = refl; diameter_le = refl; far_le = refl }

move-IsInside_example :
    IsInside (px 10) (px 8192) (move universe motion).pos_x
    × IsInside (px 10) (px 8192) (move universe motion).pos_y
unfolding coast turn slide_window slide thrust accelerate clamp boosted steer lift2 quotient div_ℤ
    ◌*ℤ◌ ◌+ℤ◌ ◌-ℤ◌ cosine sine
move-IsInside_example =
    move-IsInside Milli-IsOrdered universe motion refl refl milli-Fits milli-Fits refl refl refl
      refl

move_thrusting-IsWithin_example :
    IsWithin (px 20) (move universe motion).delta_x
    × IsWithin (px 20) (move universe motion).delta_y
unfolding boosted lift2 quotient div_ℤ ◌*ℤ◌ ◌+ℤ◌ ◌-ℤ◌ cosine sine
move_thrusting-IsWithin_example =
    move_thrusting-IsWithin Milli-IsOrdered universe motion refl refl refl refl refl
