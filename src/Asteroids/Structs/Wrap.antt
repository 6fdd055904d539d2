-- ===== src/Asteroids/Structs/Wrap.antt =====
-- What flies stays in the universe.
use geoff.Prelude.{◌≡◌, true, arith}
use geoff.Double.{Double, IsNum, IsOrdered}
use geoff.Asteroids.Structs.{Size, Position, Velocity, wrap, fly}

module _ {W : Type 0} ⦃d : Double W⦄ where
  open d use {of_nat, add, le}

  abbrev pub Within : W → W → Type 0
  Within limit x = (le (of_nat 0) x ≡ true) × (le x limit ≡ true)

  abbrev pub InUniverse : Size W → Position W → Type 0
  InUniverse u p = Within u.size_w p.pos_x × Within u.size_h p.pos_y

  wrap-Within :
      (laws : IsOrdered W) (limit x : W)
      → le (of_nat 0) limit ≡ true
      → IsNum x
      → Within limit (wrap limit x)
  unfolding wrap
  wrap-Within laws limit x h n =
      let nums = laws.num_of_le (of_nat 0) limit h in
      ground (
        arith,
        laws.le_of_not_lt limit x nums.1 n,
        laws.le_of_not_lt (of_nat 0) (of_nat 0) nums.0 nums.0,
        laws.le_of_not_lt x (of_nat 0) n nums.0,
        nums,
      )

  -- After a tick of flight in a universe whose size is not negative both coordinates lie in it,
  -- wherever the flight began, unless the sum of position and velocity is NaN.
  pub fly-InUniverse :
      (laws : IsOrdered W) (u : Size W) (p : Position W) (v : Velocity W)
      → le (of_nat 0) u.size_w ≡ true
      → le (of_nat 0) u.size_h ≡ true
      → IsNum (add p.pos_x v.delta_x)
      → IsNum (add p.pos_y v.delta_y)
      → InUniverse u (fly u p v)
  unfolding fly
  fly-InUniverse laws u p v hw hh nx ny =
      (wrap-Within laws u.size_w _ hw nx, wrap-Within laws u.size_h _ hh ny)
