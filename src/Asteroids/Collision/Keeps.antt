-- ===== src/Asteroids/Collision/Keeps.antt =====
-- What Universe::CollisionDetection of apps/asteroids/src/Universe.cpp keeps.
use geoff.Prelude.{
  ℕ, ◌≤◌, ◌≡◌, refl, List, [], ◌∷◌, some, length, arith, >>=-eq-some, All, subst, map,
}
use mathlib.Core.Option.{some-injective}
use geoff.Double.{Double}
use geoff.Asteroids.Gun.{Gun}
use geoff.Asteroids.Gun.Magazine.{Ages, Ages-mono}
use geoff.Asteroids.Rock.{Rock}
use geoff.Asteroids.RockField.{Node, RockField, find, destroy_rock}
use geoff.Asteroids.RockField.Nodes.{IsList, destroy_rock-IsList}
use geoff.Asteroids.Ship.{explode}
use geoff.Asteroids.Player.{Player}
use geoff.Asteroids.Player.Phases.{IsPlayer, add_to_score-IsPlayer}
use geoff.Asteroids.Collision.{
  survivors, disarm, meet, sweep, award, points, settle, collide, collision_detection,
}

abbrev pub AllPlayers : {W : Type 0} → List (ℕ × Player W) → Type 0
AllPlayers players = All (λ q. IsPlayer q.1) players

module _ {W : Type 0} ⦃d : Double W⦄ where
  length-survivors : (rock : Rock W) (g : Gun W) → length (survivors rock g) ≤ length g
  unfolding survivors
  length-survivors rock [] = omega arith
  length-survivors rock (b ∷ g) = ground (arith, length-survivors rock g)

  survivors-Ages :
      (low top : ℕ) (rock : Rock W) (g : Gun W) → Ages low top g → Ages low top (survivors rock g)
  unfolding survivors
  survivors-Ages low top rock [] a = a
  survivors-Ages low top rock (b ∷ g) (a, as') =
      let rest = survivors-Ages b.ticks_left top rock g as' in
      ground
        (arith, rest, Ages-mono b.ticks_left low top top (survivors rock g) a (omega arith) rest)

  disarm-IsPlayer : (rock : Rock W) (p : Player W) → IsPlayer p → IsPlayer (disarm rock p)
  disarm-IsPlayer rock p i = ground (
    arith,
    length-survivors rock p.ship.gun,
    survivors-Ages 0 180 rock p.ship.gun i.ship.magazine.ages,
  )

  meet-IsPlayer : (rock : Rock W) (p : Player W) → IsPlayer p → IsPlayer (meet rock p)
  unfolding meet explode
  meet-IsPlayer rock p i = ground (arith, disarm-IsPlayer rock p i)

  sweep-IsPlayer : (rocks : List (Node W)) (p : Player W) → IsPlayer p → IsPlayer (sweep rocks p).0
  unfolding sweep
  sweep-IsPlayer [] p i = i
  sweep-IsPlayer (n ∷ rocks) p i = sweep-IsPlayer rocks (meet n.rock p) (meet-IsPlayer n.rock p i)

  award-IsPlayer : (r : W) (p : Player W) → IsPlayer p → IsPlayer (award r p)
  unfolding award
  award-IsPlayer r p i = ground (arith, add_to_score-IsPlayer (points r) p i)

  module _ (rand : ℕ → ℕ) (rand_max : ℕ) where
    settle-IsPlayer :
        (hit : List ℕ) (p p' : Player W) (f f' : RockField W)
        → IsPlayer p
        → IsList f
        → settle rand rand_max hit p f ≡ some (p', f')
        → IsPlayer p' × IsList f'
    unfolding settle
    settle-IsPlayer [] p p' f f' i l e =
        subst (λ o. IsPlayer o.0 × IsList o.1) (some-injective _ _ e) (i, l)
    settle-IsPlayer (a ∷ hit) p p' f f' i l e =
        let (rock, _, e1) = >>=-eq-some (find a f.rocks) _ e in
        let (f1, d1, e2) = >>=-eq-some (destroy_rock rand rand_max a f) _ e1 in
        settle-IsPlayer hit (award rock.radius p) p' f1 f' (award-IsPlayer rock.radius p i)
          (destroy_rock-IsList rand rand_max a f f1 l d1) e2

    pub collide-IsPlayer :
        (p p' : Player W) (f f' : RockField W)
        → IsPlayer p
        → IsList f
        → collide rand rand_max p f ≡ some (p', f')
        → IsPlayer p' × IsList f'
    unfolding collide
    collide-IsPlayer p p' f f' i l e =
        settle-IsPlayer (sweep f.rocks p).1 (sweep f.rocks p).0 p' f f' (sweep-IsPlayer f.rocks p i)
          l e

    -- A collision detection that goes through keeps players that are as IsPlayer says so and the
    -- rocks a list, and it neither adds nor removes a player.
    pub collision_detection-IsPlayer :
        (players players' : List (ℕ × Player W)) (f f' : RockField W)
        → AllPlayers players
        → IsList f
        → collision_detection rand rand_max players f ≡ some (players', f')
        → AllPlayers players' × IsList f' × (map (λ q. q.0) players' ≡ map (λ q. q.0) players)
    unfolding collision_detection
    collision_detection-IsPlayer [] players' f f' all l e =
        subst (λ o. AllPlayers o.0 × IsList o.1 × (map (λ q. q.0) o.0 ≡ [])) (some-injective _ _ e)
          (tt, l, refl)
    collision_detection-IsPlayer ((id, p) ∷ players) players' f f' (i, all) l e =
        let ((p1, f1), e1, e2) = >>=-eq-some (collide rand rand_max p f) _ e in
        let ((rest, f2), e3, e4) =
          >>=-eq-some (collision_detection rand rand_max players f1) _ e2 in
        let (i1, l1) = collide-IsPlayer p p1 f f1 i l e1 in
        let (all', l2, ids) = collision_detection-IsPlayer players rest f1 f2 all l1 e3 in
        subst
          (λ o. AllPlayers o.0 × IsList o.1 × (map (λ q. q.0) o.0 ≡ id ∷ map (λ q. q.0) players))
          (some-injective _ _ e4) ((i1, all'), l2, rw ids)
