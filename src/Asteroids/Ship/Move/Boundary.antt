-- ===== src/Asteroids/Ship/Move/Boundary.antt =====
-- Where a tick of apps/asteroids/src/Ship.cpp can take a ship, and how fast.
use geoff.Prelude.{◌≡◌, ◌∙◌, subst, true, false, arith}
use geoff.Double.{Double, IsNum, IsOrdered}
use geoff.Asteroids.Structs.{Size}
use geoff.Asteroids.Ship.Move.{
  Motion, clamp, accelerate, boosted, thrust, steer, slide_window, turn, coast, bounce_pos,
  bounce_delta, bounce, wrap_window, move,
}

-- The ship is no larger than the universe, and at the far edge there is room for it: of the
-- numbers in question (10 and 8192) this holds with exact sums.
pub record Fits {W : Type 0} ⦃d : Double W⦄ (radius extent : W) : Type 0 where
  pub extent_num : d.le extent extent ≡ true
  pub radius_le : d.le radius (d.sub extent radius) ≡ true
  pub diameter_le : d.le (d.add radius radius) extent ≡ true
  pub far_le : d.le (d.add (d.sub extent radius) radius) extent ≡ true

module _ {W : Type 0} ⦃d : Double W⦄ where
  open d use {of_nat, add, sub, neg, lt, le}

  -- The whole ship lies in the universe along one axis.
  abbrev pub IsInside : W → W → W → Type 0
  IsInside radius extent pos = (le radius pos ≡ true) × (le (add pos radius) extent ≡ true)

  bounce_pos-IsInside :
      (laws : IsOrdered W) (radius extent pos : W)
      → Fits radius extent
      → IsNum pos
      → IsNum (add pos radius)
      → IsInside radius extent (bounce_pos radius extent pos)
  unfolding bounce_pos
  bounce_pos-IsInside laws radius extent pos f n n' =
      let r = laws.num_of_le radius (sub extent radius) f.radius_le in
      ground (
        arith,
        f,
        laws.le_of_not_lt pos radius n r.0,
        laws.lt_of_not_le extent (add pos radius) f.extent_num n',
        laws.le_of_lt (add pos radius) extent,
        r.0,
      )

  -- Where the ship would be without the edges.
  abbrev pub coasted : Size W → Motion W → Motion W
  coasted u m = coast (turn (slide_window u (thrust (steer m))))

  -- Nothing but the edges reads or changes these fields.
  coasted_frame :
      (u : Size W) (m : Motion W)
      → ((coasted u m).radius ≡ m.radius)
        × ((coasted u m).enforce_boundaries ≡ m.enforce_boundaries)
        × ((coasted u m).wrap_viewport ≡ m.wrap_viewport)
        × ((coasted u m).velocity ≡ (thrust (steer m)).velocity)
  unfolding coast turn slide_window thrust steer
  coasted_frame u m = ground arith

  -- The switches of the ship stay.
  pub move_frame :
      (u : Size W) (m : Motion W)
      → ((move u m).slide_viewport ≡ m.slide_viewport)
        × ((move u m).wrap_viewport ≡ m.wrap_viewport)
        × ((move u m).enforce_boundaries ≡ m.enforce_boundaries)
  unfolding move wrap_window bounce coast turn slide_window thrust steer
  move_frame u m = ground arith

  edges-IsInside :
      (laws : IsOrdered W) (u : Size W) (c : Motion W)
      → c.enforce_boundaries ≡ true
      → c.wrap_viewport ≡ false
      → Fits c.radius u.size_w
      → Fits c.radius u.size_h
      → IsNum c.pos_x
      → IsNum (add c.pos_x c.radius)
      → IsNum c.pos_y
      → IsNum (add c.pos_y c.radius)
      → IsInside c.radius u.size_w (wrap_window (bounce u c)).pos_x
        × IsInside c.radius u.size_h (wrap_window (bounce u c)).pos_y
  unfolding wrap_window bounce
  edges-IsInside laws u c e w fw fh nx nx' ny ny' =
      rw (e, bounce)
        (rw (w, wrap_window)
          (
            bounce_pos-IsInside laws c.radius u.size_w c.pos_x fw nx nx',
            bounce_pos-IsInside laws c.radius u.size_h c.pos_y fh ny ny',
          ))

  -- If a ship that enforces the boundaries and does not wrap, as the constructor sets it, fits the
  -- universe, then after a tick the whole ship lies in it, wherever it was, unless its new
  -- coordinates are NaN.
  pub move-IsInside :
      (laws : IsOrdered W) (u : Size W) (m : Motion W)
      → m.enforce_boundaries ≡ true
      → m.wrap_viewport ≡ false
      → Fits m.radius u.size_w
      → Fits m.radius u.size_h
      → IsNum (coasted u m).pos_x
      → IsNum (add (coasted u m).pos_x m.radius)
      → IsNum (coasted u m).pos_y
      → IsNum (add (coasted u m).pos_y m.radius)
      → IsInside m.radius u.size_w (move u m).pos_x × IsInside m.radius u.size_h (move u m).pos_y
  unfolding move
  move-IsInside laws u m e w fw fh nx nx' ny ny' =
      let (same, enforces, wraps, _) = coasted_frame u m in
      subst
        (λ r.
          IsInside r u.size_w (wrap_window (bounce u (coasted u m))).pos_x
          × IsInside r u.size_h (wrap_window (bounce u (coasted u m))).pos_y)
        same
        (edges-IsInside laws u (coasted u m) (enforces ∙ e) (wraps ∙ w) (rw same fw) (rw same fh) nx
          (rw same nx') ny (rw same ny'))

  -- From -limit to limit.
  abbrev pub IsWithin : W → W → Type 0
  IsWithin limit v = (le (neg limit) v ≡ true) × (le v limit ≡ true)

  clamp-IsWithin :
      (laws : IsOrdered W) (limit v : W)
      → le (neg limit) limit ≡ true
      → IsNum v
      → IsWithin limit (clamp limit v)
  unfolding clamp
  clamp-IsWithin laws limit v h n =
      let nums = laws.num_of_le (neg limit) limit h in
      ground (
        arith,
        h,
        nums,
        laws.le_of_not_lt limit v nums.1 n,
        laws.le_of_not_lt limit (neg limit),
        laws.le_of_not_lt v (neg limit) n nums.0,
        laws.le_of_not_lt limit (neg limit) nums.1 nums.0,
      )

  bounce_delta-IsWithin :
      (limit radius extent pos delta : W)
      → IsWithin limit (of_nat 0)
      → IsWithin limit delta
      → IsWithin limit (bounce_delta radius extent pos delta)
  unfolding bounce_delta
  bounce_delta-IsWithin limit radius extent pos delta z h = ground (arith, z, h)

  edges-IsWithin :
      (limit : W) (u : Size W) (c : Motion W)
      → IsWithin limit (of_nat 0)
      → IsWithin limit c.delta_x × IsWithin limit c.delta_y
      → IsWithin limit (wrap_window (bounce u c)).delta_x
        × IsWithin limit (wrap_window (bounce u c)).delta_y
  unfolding wrap_window bounce
  edges-IsWithin limit u c z h = ground (
    arith,
    h,
    bounce_delta-IsWithin limit c.radius u.size_w c.pos_x c.delta_x z h.0,
    bounce_delta-IsWithin limit c.radius u.size_h c.pos_y c.delta_y z h.1,
  )

  thrust-IsWithin :
      (laws : IsOrdered W) (m : Motion W)
      → m.thrusting ≡ true
      → le (neg m.max_delta_v) m.max_delta_v ≡ true
      → IsNum (boosted m).delta_x
      → IsNum (boosted m).delta_y
      → IsWithin m.max_delta_v (thrust (steer m)).delta_x
        × IsWithin m.max_delta_v (thrust (steer m)).delta_y
  unfolding thrust steer accelerate boosted
  thrust-IsWithin laws m t h nx ny =
      rw t (clamp-IsWithin laws m.max_delta_v _ h nx, clamp-IsWithin laws m.max_delta_v _ h ny)

  -- A ship under thrust, whose m_max_delta_v is not negative, leaves a tick no faster than that
  -- along either axis, whatever its speed was, unless the sum of speed and thrust is NaN.
  pub move_thrusting-IsWithin :
      (laws : IsOrdered W) (u : Size W) (m : Motion W)
      → m.thrusting ≡ true
      → le (neg m.max_delta_v) (of_nat 0) ≡ true
      → le (of_nat 0) m.max_delta_v ≡ true
      → IsNum (boosted m).delta_x
      → IsNum (boosted m).delta_y
      → IsWithin m.max_delta_v (move u m).delta_x × IsWithin m.max_delta_v (move u m).delta_y
  unfolding move
  move_thrusting-IsWithin laws u m t lo hi nx ny =
      let (_, _, _, same) = coasted_frame u m in
      edges-IsWithin m.max_delta_v u (coasted u m) (lo, hi)
        (rw same (thrust-IsWithin laws m t (laws.le_trans _ _ _ lo hi) nx ny))
