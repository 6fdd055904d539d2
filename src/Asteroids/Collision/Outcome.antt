-- ===== src/Asteroids/Collision/Outcome.antt =====
-- When Universe::CollisionDetection of apps/asteroids/src/Universe.cpp goes through, and when it uses
-- the iterator of an erased rock.
use geoff.Prelude.{
  ℕ, suc, ◌<◌, ◌≡◌, ◌≢◌, ◌↔◌, ◌∙◌, List, [], ◌∷◌, none, some, arith, inl, inr, Option-cases,
  >>=-eq-some, subst,
}
use mathlib.Core.Option.{some-injective}
use geoff.Double.{Double}
use geoff.Asteroids.Rock.{Rock}
use geoff.Asteroids.RockField.{
  RockField, find, erase, launch_one, launch_two, shatter, destroy_rock,
}
use geoff.Asteroids.RockField.Nodes.{IsList, destroy_rock-IsList, destroy_rock-gone, shatter_cases}
use geoff.Asteroids.Player.{Player}
use geoff.Asteroids.Collision.Pushed.{
  Overkill, Overkill-cases, Aimed, Twice, find_other, find-append, Rising-Placed, sweep-Aimed,
  sweep-Twice,
}
use geoff.Asteroids.Collision.{sweep, award, settle, collide}

module _ {W : Type 0} ⦃d : Double W⦄ where
  module _ (rand : ℕ → ℕ) (rand_max : ℕ) where
    -- To destroy a rock leaves those of greater address.
    pub destroy_rock_keeps :
        (a b : ℕ) (f f' : RockField W) (rock : Rock W)
        → a < b
        → destroy_rock rand rand_max a f ≡ some f'
        → find b f.rocks ≡ some rock
        → find b f'.rocks ≡ some rock
    unfolding destroy_rock launch_two launch_one
    destroy_rock_keeps a b f f' rock h e there =
        let (r, _, e') = >>=-eq-some (find a f.rocks) _ e in
        let f1 = record f { rocks = erase a f.rocks } in
        let left : find b f1.rocks ≡ some rock = find_other a b f.rocks h ∙ there in
        subst (λ g. find b g.rocks ≡ some rock) (some-injective _ _ e')
          (shatter_cases rand rand_max (λ g. find b g.rocks ≡ some rock) r f1 left
            (λ x y z. find-append b _ _ rock (find-append b f1.rocks _ rock left)))

    pub Aimed-keeps :
        (a low : ℕ) (hit : List ℕ) (f f' : RockField W)
        → a < low
        → destroy_rock rand rand_max a f ≡ some f'
        → Aimed low hit f.rocks
        → Aimed low hit f'.rocks
    Aimed-keeps a low [] f f' h e aimed = tt
    Aimed-keeps a low (b ∷ hit) f f' h e (le, (rock, there), aimed) = (
      le,
      (rock, destroy_rock_keeps a b f f' rock (omega arith) e there),
      Aimed-keeps a (suc b) hit f f' (omega arith) e aimed,
    )

    pub destroy_rock_there :
        (a : ℕ) (f : RockField W) (rock : Rock W)
        → find a f.rocks ≡ some rock
        → (f' : RockField W) × (destroy_rock rand rand_max a f ≡ some f')
    unfolding destroy_rock
    destroy_rock_there a f rock there =
        (shatter rand rand_max rock (record f { rocks = erase a f.rocks }), rw there)

    settle-Aimed :
        (low : ℕ) (hit : List ℕ) (p : Player W) (f : RockField W)
        → Aimed low hit f.rocks
        → settle rand rand_max hit p f ≢ none
    unfolding settle
    settle-Aimed low [] p f aimed = λ e. cc
    settle-Aimed low (a ∷ hit) p f (le, (rock, there), aimed) =
        let (f', e) = destroy_rock_there a f rock there in
        rw (there, e)
          (settle-Aimed (suc a) hit (award rock.radius p) f'
            (Aimed-keeps a (suc a) hit f f' (omega arith) e aimed))

    settle-Twice :
        (hit : List ℕ) (p : Player W) (f : RockField W)
        → IsList f
        → Twice hit
        → settle rand rand_max hit p f ≡ none
    unfolding settle
    settle-Twice [] p f l t = absurd t
    settle-Twice (a ∷ []) p f l t = absurd t
    settle-Twice (a ∷ b ∷ hit) p f l t = elim (Option-cases (find a f.rocks)) [
      | inl e ↦ rw e
      | inr (rock, there) ↦
          let (f', e) = destroy_rock_there a f rock there in
          rw (there, e)
            (elim t [
              | inl same ↦ rw (← same) (rw (destroy_rock-gone rand rand_max a f f' l e))
              | inr t' ↦
                  settle-Twice (b ∷ hit) (award rock.radius p) f'
                    (destroy_rock-IsList rand rand_max a f f' l e) t'
            ])
    ]

    -- With the rocks a list, the turn of a player in the collision detection uses the iterator of
    -- an erased rock exactly when some rock is struck by two bullets of that player in one tick;
    -- otherwise it goes through.
    pub collide-none_iff :
        (p : Player W) (f : RockField W)
        → IsList f
        → (collide rand rand_max p f ≡ none) ↔ Overkill f.rocks p
    unfolding collide
    collide-none_iff p f l =
        let (p', hit) = sweep f.rocks p in
        let faults : Overkill f.rocks p → settle rand rand_max hit p' f ≡ none =
          λ o. settle-Twice hit p' f l (sweep-Twice f.rocks p o) in
        elim (Overkill-cases f.rocks p) [
          | inl o ↦ (λ _. o, faults)
          | inr few ↦
              let there =
                sweep-Aimed f.rocks p 0 f.fresh f.rocks few l (Rising-Placed f.rocks 0 f.fresh l) in
              (λ e. absurd (settle-Aimed 0 hit p' f there e), faults)
        ]
