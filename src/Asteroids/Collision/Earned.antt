-- ===== src/Asteroids/Collision/Earned.antt =====
-- What a player is to earn in a turn of Universe::CollisionDetection of
-- apps/asteroids/src/Universe.cpp, from the distances between the rocks, the bullets and the ship.
use geoff.Prelude.{
  ℕ, ◌+◌, ◌≡◌, refl, Bool, false, not, ◌&&◌, ◌||◌, List, [], ◌∷◌, arith, ◌==◌, if◌then◌else◌, ◌∙◌,
}
use geoff.Double.{Double}
use geoff.Asteroids.Structs.{Position}
use geoff.Asteroids.Consts.{rock_radius}
use geoff.Asteroids.Gun.{Gun}
use geoff.Asteroids.Rock.{Rock}
use geoff.Asteroids.RockField.{Node}
use geoff.Asteroids.Ship.{explode}
use geoff.Asteroids.Player.{Player}
use geoff.Asteroids.Collision.{distance, is_hit, hits_of, survivors, rams, pushes, meet, points}

module _ {W : Type 0} ⦃d : Double W⦄ where
  open d use {of_nat, add, div, lt, le}

  -- A bullet or the ship is in the rock: the distance between the two is less than some radius.
  abbrev pub within : Rock W → W → Position W → Bool
  within rock radius p = lt (distance rock.position p) radius

  abbrev pub struck : Rock W → Gun W → Bool
  struck rock [] = false
  struck rock (b ∷ gun) = within rock rock.radius b.position || struck rock gun

  -- The bullets that go on, since they are not in the rock.
  abbrev pub flying : Rock W → Gun W → Gun W
  flying rock [] = []
  flying rock (b ∷ gun) =
      let rest = flying rock gun in if within rock rock.radius b.position then rest else b ∷ rest

  -- The smallest size of a rock of each kind, and what it is worth.
  abbrev pub prices : List (W × ℕ)
  prices =
      (rock_radius, 20) ∷ (div rock_radius (of_nat 2), 50) ∷ (div rock_radius (of_nat 4), 100) ∷ []

  abbrev pub price : List (W × ℕ) → W → ℕ
  price [] r = 0
  price ((size, worth) ∷ more) r = let rest = price more r in if le size r then worth else rest

  -- What the rocks are worth that a bullet or the ship is in, each counted once. A bullet is spent on
  -- the first rock that it is in, and a ship that may collide does so with one rock only.
  abbrev pub earned : List (Node W) → Gun W → Bool → W → Position W → ℕ
  earned [] gun collides radius at = 0
  earned (n ∷ rocks) gun collides radius at =
      let rammed = collides && within n.rock (add n.rock.radius radius) at in
      (if struck n.rock gun || rammed then price prices n.rock.radius else 0)
      + earned rocks (flying n.rock gun) (collides && not rammed) radius at

  abbrev pub may_collide : Player W → Bool
  may_collide p = not p.ship.exploding && not p.ship.invulnerable

  -- The points of the rocks that are pushed, each counted once.
  abbrev pub counted : List (Node W) → Player W → ℕ
  counted [] p = 0
  counted (n ∷ rocks) p =
      (if pushes n.rock p == 0 then 0 else points n.rock.radius) + counted rocks (meet n.rock p)

  points-price : (r : W) → points r ≡ price prices r
  unfolding points
  points-price r = ground arith

  survivors-flying : (rock : Rock W) (gun : Gun W) → survivors rock gun ≡ flying rock gun
  unfolding survivors is_hit
  survivors-flying rock [] = refl
  survivors-flying rock (b ∷ gun) = rw (survivors-flying rock gun) refl

  hits_of-struck : (rock : Rock W) (gun : Gun W) → (hits_of rock gun == 0) ≡ not (struck rock gun)
  unfolding hits_of is_hit
  hits_of-struck rock [] = refl
  hits_of-struck rock (b ∷ gun) = ground (arith, hits_of-struck rock gun)

  pushes-struck :
      (rock : Rock W) (p : Player W)
      → (pushes rock p == 0) ≡ not (struck rock p.ship.gun || rams rock p.ship)
  unfolding pushes
  pushes-struck rock p = ground (arith, hits_of-struck rock p.ship.gun)

  -- Whether the ship of the player runs into the rock.
  abbrev rammed : Rock W → Player W → Bool
  rammed rock p =
      may_collide p && within rock (add rock.radius p.ship.motion.radius) p.ship.motion.position

  rams-rammed : (rock : Rock W) (p : Player W) → rams rock p.ship ≡ rammed rock p
  unfolding rams
  rams-rammed rock p = ground arith

  meet_frame :
      (rock : Rock W) (p : Player W)
      → let p' = meet rock p in
        (p'.ship.gun ≡ flying rock p.ship.gun)
        × (may_collide p' ≡ (may_collide p && not (rammed rock p)))
        × (p'.ship.motion.radius ≡ p.ship.motion.radius)
        × (p'.ship.motion.position ≡ p.ship.motion.position)
  unfolding meet explode
  meet_frame rock p =
      let gun = survivors-flying rock p.ship.gun in
      let hits = rams-rammed rock p in (ground arith, ground arith, ground arith, ground arith)

  counted_head :
      (rock : Rock W) (p : Player W)
      → (if pushes rock p == 0 then 0 else points rock.radius)
        ≡ (if struck rock p.ship.gun || rammed rock p then price prices rock.radius else 0)
  counted_head rock p =
      rw (pushes-struck rock p, rams-rammed rock p, points-price rock.radius) (ground arith)

  earned_same :
      (rocks : List (Node W)) {gun gun' : Gun W} {may may' : Bool} {r r' : W} {at at' : Position W}
      → gun ≡ gun'
      → may ≡ may'
      → r ≡ r'
      → at ≡ at'
      → earned rocks gun may r at ≡ earned rocks gun' may' r' at'
  earned_same rocks e1 e2 e3 e4 = cc

  pub counted-earned :
      (rocks : List (Node W)) (p : Player W)
      → let m = p.ship.motion in
        counted rocks p ≡ earned rocks p.ship.gun (may_collide p) m.radius m.position
  counted-earned [] p = refl
  counted-earned (n ∷ rocks) p =
      let (gun, may, radius, position) = meet_frame n.rock p in
      let ih = counted-earned rocks (meet n.rock p) in
      let head = counted_head n.rock p in
      let tail : counted rocks (meet n.rock p)
          ≡ earned rocks (flying n.rock p.ship.gun) (may_collide p && not (rammed n.rock p))
              p.ship.motion.radius p.ship.motion.position =
        ih ∙ earned_same rocks gun may radius position in
      omega (arith, head, tail)
