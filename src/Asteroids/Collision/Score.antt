-- ===== src/Asteroids/Collision/Score.antt =====
-- What a player earns in Universe::CollisionDetection of apps/asteroids/src/Universe.cpp.
use geoff.Prelude.{
  ℕ, zero, suc, ◌+◌, ◌%◌, ◌≤◌, ◌<◌, ◌≡◌, refl, sym, ◌∙◌, ap, List, [], ◌∷◌, ◌++◌, Option, some,
  none, replicate, arith, inl, inr, ◌==◌, if◌then◌else◌, >>=-eq-some,
}
use mathlib.Core.Option.{some-injective, some-ne-none}
use geoff.Words.{u32_mod}
use geoff.Double.{Double}
use geoff.Asteroids.Rock.{Rock}
use geoff.Asteroids.RockField.{Node, RockField, find, destroy_rock}
use geoff.Asteroids.RockField.Nodes.{IsList}
use geoff.Asteroids.Ship.{explode}
use geoff.Asteroids.Player.{Player, add_to_score}
use geoff.Asteroids.Collision.{hits_of, pushes, meet, sweep, award, points, settle, collide}
use geoff.Asteroids.Collision.Earned.{earned, may_collide, counted, counted-earned}
use geoff.Asteroids.Collision.Pushed.{
  Overkill, Aimed, Placed, Rising-Placed, sweep-Aimed, pushes_le,
}
use geoff.Asteroids.Collision.Outcome.{Aimed-keeps, destroy_rock_keeps, collide-none_iff}

module _ {W : Type 0} ⦃d : Double W⦄ where
  abbrev worth_of : Option (Rock W) → ℕ
  worth_of none = 0
  worth_of (some rock) = points rock.radius

  -- The points of the rocks at some addresses.
  abbrev worth : List ℕ → List (Node W) → ℕ
  worth [] rocks = 0
  worth (a ∷ hit) rocks = worth_of (find a rocks) + worth hit rocks

  worth-replicate :
      (k a : ℕ) (hit : List ℕ) (all : List (Node W)) (rock : Rock W)
      → k ≤ 1
      → find a all ≡ some rock
      → worth (replicate k a ++ hit) all
        ≡ (if k == 0 then 0 else points rock.radius) + worth hit all
  worth-replicate zero a hit all rock h there = omega arith
  worth-replicate (suc zero) a hit all rock h there = rw there
  worth-replicate (suc (suc k)) a hit all rock h there = absurd (omega arith)

  worth-sweep :
      (rocks : List (Node W)) (p : Player W) (all : List (Node W))
      → ¬ Overkill rocks p
      → Placed all rocks
      → worth (sweep rocks p).1 all ≡ counted rocks p
  unfolding sweep
  worth-sweep [] p all few placed = refl
  worth-sweep (n ∷ rocks) p all few (here, placed) =
      let not_two : ¬ (2 ≤ hits_of n.rock p.ship.gun) = λ h. few (inl h) in
      let one : hits_of n.rock p.ship.gun ≤ 1 = omega (arith, not_two) in
      omega (
        arith,
        worth-replicate (pushes n.rock p) n.address (sweep rocks (meet n.rock p)).1 all n.rock
            (pushes_le n.rock p one) here,
        worth-sweep rocks (meet n.rock p) all (λ o. few (inr o)) placed,
      )

  sweep_score : (rocks : List (Node W)) (p : Player W) → (sweep rocks p).0.score ≡ p.score
  unfolding sweep meet explode
  sweep_score [] p = refl
  sweep_score (n ∷ rocks) p = ground (arith, sweep_score rocks (meet n.rock p))

  award_score :
      (r : W) (p : Player W)
      → p.score < u32_mod
      → (award r p).score ≡ (p.score + points r) % u32_mod
  unfolding award add_to_score
  award_score r p h = ground arith

  module _ (rand : ℕ → ℕ) (rand_max : ℕ) where
    worth_keeps :
        (a low : ℕ) (hit : List ℕ) (f f' : RockField W)
        → a < low
        → destroy_rock rand rand_max a f ≡ some f'
        → Aimed low hit f.rocks
        → worth hit f'.rocks ≡ worth hit f.rocks
    worth_keeps a low [] f f' h e aimed = refl
    worth_keeps a low (b ∷ hit) f f' h e (le, (rock, there), aimed) =
        let there' = destroy_rock_keeps rand rand_max a b f f' rock (omega arith) e there in
        rw (there, there') (omega (arith, worth_keeps a (suc b) hit f f' (omega arith) e aimed))

    settle_score :
        (low : ℕ) (hit : List ℕ) (p p' : Player W) (f f' : RockField W)
        → Aimed low hit f.rocks
        → p.score < u32_mod
        → settle rand rand_max hit p f ≡ some (p', f')
        → p'.score ≡ (p.score + worth hit f.rocks) % u32_mod
    unfolding settle
    settle_score low [] p p' f f' aimed h e =
        let same = ap (λ o. o.0.score) (some-injective _ _ e) in omega (arith, same)
    settle_score low (a ∷ hit) p p' f f' (le, (_, _), aimed) h e =
        let (rock, there, e1) = >>=-eq-some (find a f.rocks) _ e in
        let (f1, d1, e2) = >>=-eq-some (destroy_rock rand rand_max a f) _ e1 in
        let more = award_score rock.radius p h in
        let ih =
          settle_score (suc a) hit (award rock.radius p) p' f1 f'
            (Aimed-keeps rand rand_max a (suc a) hit f f1 (omega arith) d1 aimed)
            (omega (arith, more)) e2 in
        let same = worth_keeps a (suc a) hit f f1 (omega arith) d1 aimed in
        rw there (omega (arith, more, ih, same))

    -- With the rocks a list and the score a `uint32_t`, a turn that goes through adds to the score of a
    -- player what the rocks are worth that one of its bullets is in, or that its ship, if it is neither
    -- exploding nor invulnerable, runs into: 20 from ROCK_RADIUS on, 50 from half and 100 from a quarter
    -- of it, each rock once, modulo 2 ^ 32. A bullet counts for the first rock that it is in, and the
    -- ship for the first that it runs into.
    pub collide_score :
        (p p' : Player W) (f f' : RockField W)
        → IsList f
        → p.score < u32_mod
        → collide rand rand_max p f ≡ some (p', f')
        → let m = p.ship.motion in
          p'.score
          ≡ (p.score + earned f.rocks p.ship.gun (may_collide p) m.radius m.position) % u32_mod
    unfolding collide
    collide_score p p' f f' l h e =
        let few : ¬ Overkill f.rocks p =
          λ o. some-ne-none _ (sym e ∙ (collide-none_iff rand rand_max p f l).1 o) in
        let placed = Rising-Placed f.rocks 0 f.fresh l in
        let same = sweep_score f.rocks p in
        let all =
          settle_score 0 (sweep f.rocks p).1 (sweep f.rocks p).0 p' f f'
            (sweep-Aimed f.rocks p 0 f.fresh f.rocks few l placed) (omega (arith, same)) e in
        omega (arith, same, all, worth-sweep f.rocks p f.rocks few placed, counted-earned f.rocks p)
