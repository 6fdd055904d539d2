-- ===== src/Asteroids/Collision.antt =====
-- Universe::CollisionDetection of apps/asteroids/src/Universe.cpp, and DistanceBetweenPoints of
-- Session.cpp.
pub mod Pushed
pub mod Outcome
pub mod Keeps
pub mod Earned
pub mod Score
pub mod Examples
use geoff.Prelude.{
  ◌>>=◌, ℕ, suc, ◌+◌, Bool, not, ◌&&◌, List, [], ◌∷◌, ◌++◌, Option, some, replicate, ◌==◌,
  if◌then◌else◌,
}
use geoff.Double.{Double}
use geoff.Asteroids.Structs.{Position}
use geoff.Asteroids.Consts.{rock_radius}
use geoff.Asteroids.Bullet.{Bullet}
use geoff.Asteroids.Gun.{Gun}
use geoff.Asteroids.Rock.{Rock}
use geoff.Asteroids.RockField.{Node, RockField, find, destroy_rock}
use geoff.Asteroids.Ship.{Ship, explode}
use geoff.Asteroids.Player.{Player, add_to_score}

module _ {W : Type 0} ⦃d : Double W⦄ where
  open d use {of_nat, add, sub, div, sqrt, pow, lt, le}

  -- DistanceBetweenPoints
  pub distance : Position W → Position W → W
  distance p q = sqrt (add (pow (sub q.pos_x p.pos_x) 2) (pow (sub q.pos_y p.pos_y) 2))

  pub is_hit : Rock W → Bullet W → Bool
  is_hit rock b = lt (distance rock.position b.position) rock.radius

  -- How many bullets are in the rock, and those that are not.
  pub hits_of : Rock W → Gun W → ℕ
  hits_of rock [] = 0
  hits_of rock (b ∷ g) = let n = hits_of rock g in if is_hit rock b then suc n else n

  pub survivors : Rock W → Gun W → Gun W
  survivors rock [] = []
  survivors rock (b ∷ g) = let g' = survivors rock g in if is_hit rock b then g' else b ∷ g'

  -- Whether the ship runs into the rock.
  pub rams : Rock W → Ship W → Bool
  rams rock s =
      not s.exploding
      && not s.invulnerable
      && lt (distance rock.position s.motion.position) (add rock.radius s.motion.radius)

  abbrev pub disarm : Rock W → Player W → Player W
  disarm rock p = record p { ship = record (p.ship) { gun = survivors rock p.ship.gun } }

  -- How often the rock is pushed to collidedRocks: once for every bullet in it, and once for the ship
  -- unless a bullet was before.
  pub pushes : Rock W → Player W → ℕ
  pushes rock p =
      let n = hits_of rock p.ship.gun in if rams rock p.ship then (if n == 0 then 1 else n) else n

  -- The player when one rock has been looked at.
  pub meet : Rock W → Player W → Player W
  meet rock p =
      let p' = disarm rock p in
      if rams rock p.ship then record p' { ship = explode p'.ship } else p'

  -- The player and collidedRocks when all rocks have been looked at.
  pub sweep : List (Node W) → Player W → Player W × List ℕ
  sweep [] p = (p, [])
  sweep (n ∷ rocks) p =
      let (p', hit) = sweep rocks (meet n.rock p) in
      (p', replicate (pushes n.rock p) n.address ++ hit)

  pub points : W → ℕ
  points r =
      if le rock_radius r
      then 20
      else if le (div rock_radius (of_nat 2)) r
      then 50
      else if le (div rock_radius (of_nat 4)) r
      then 100
      else 0

  -- A rock that is smaller than all three sizes leaves the score alone.
  pub award : W → Player W → Player W
  award r p = if points r == 0 then p else add_to_score (points r) p

  module _ (rand : ℕ → ℕ) (rand_max : ℕ) where
    -- The loop over collidedRocks: `none` when an iterator of an erased rock is used.
    pub settle : List ℕ → Player W → RockField W → Option (Player W × RockField W)
    settle [] p f = some (p, f)
    settle (a ∷ hit) p f = do
      rock ← find a f.rocks
      f' ← destroy_rock rand rand_max a f
      settle hit (award rock.radius p) f'

    -- The turn of one player.
    pub collide : Player W → RockField W → Option (Player W × RockField W)
    collide p f = let (p', hit) = sweep f.rocks p in settle hit p' f

    -- The loop over m_players, in the order of their ids.
    pub collision_detection :
        List (ℕ × Player W) → RockField W → Option (List (ℕ × Player W) × RockField W)
    collision_detection [] f = some ([], f)
    collision_detection ((id, p) ∷ players) f = do
      (p', f') ← collide p f
      (players', f'') ← collision_detection players f'
      some ((id, p') ∷ players', f'')
