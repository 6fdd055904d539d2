-- ===== src/Asteroids/RockField/Split.antt =====
-- How rocks of apps/asteroids/src/RockField.cpp break: the work that is left in a field.
use geoff.Prelude.{
  ℕ, ◌+◌, ◌*◌, ◌≡◌, refl, ◌⊎◌, inl, inr, true, false, List, [], ◌∷◌, ◌++◌, Option, some, length,
  arith, if◌then◌else◌, ◌>>=◌, >>=-eq-some, All, All-append, subst,
}
use mathlib.Core.Option.{some-injective}
use geoff.Double.{Double}
use geoff.Asteroids.Consts.{rock_radius}
use geoff.Asteroids.Rock.{Rock}
use geoff.Asteroids.RockField.{
  Node, RockField, find, erase, launch_one, launch_two, shatter, destroy_rock,
}

module _ {W : Type 0} ⦃d : Double W⦄ where
  open d use {of_nat, div, le}

  abbrev pub middle : W
  middle = div rock_radius (of_nat 2)

  abbrev pub small : W
  small = div middle (of_nat 2)

-- 32, 16 and 8 compare as they should.
pub record Halving (W : Type 0) ⦃d : Double W⦄ : Type 0 where
  pub large_le_large : d.le (rock_radius {W = W}) rock_radius ≡ true
  pub large_le_middle : d.le (rock_radius {W = W}) middle ≡ false
  pub large_le_small : d.le (rock_radius {W = W}) small ≡ false
  pub middle_le_middle : d.le (middle {W = W}) middle ≡ true
  pub middle_le_small : d.le (middle {W = W}) small ≡ false

module _ {W : Type 0} ⦃d : Double W⦄ where
  open d use {of_nat, div, le}

  abbrev pub IsStandardRadius : W → Type 0
  IsStandardRadius r = (r ≡ rock_radius) ⊎ (r ≡ middle) ⊎ (r ≡ small)

  -- A rock that was launched by a click, or broke off such a rock.
  abbrev pub IsStandard : Node W → Type 0
  IsStandard n = IsStandardRadius n.rock.radius

  -- The number of hits that it takes to clear a rock and all that breaks off it.
  abbrev pub hits : W → ℕ
  hits r = if le rock_radius r then 7 else if le middle r then 3 else 1

  abbrev pub hits_left : List (Node W) → ℕ
  hits_left [] = 0
  hits_left (n ∷ rocks) = hits n.rock.radius + hits_left rocks

  hits_left-append : (xs ys : List (Node W)) → hits_left (xs ++ ys) ≡ hits_left xs + hits_left ys
  hits_left-append [] ys = omega arith
  hits_left-append (n ∷ xs) ys = omega (arith, hits_left-append xs ys)

  hits_left-erase :
      (a : ℕ) (rocks : List (Node W)) (rock : Rock W)
      → find a rocks ≡ some rock
      → hits_left rocks ≡ hits rock.radius + hits_left (erase a rocks)
  unfolding find erase
  hits_left-erase a [] rock e = cc
  hits_left-erase a (n ∷ rocks) rock e = ground (arith, hits_left-erase a rocks rock)

  All-erase :
      (a : ℕ) (rocks : List (Node W)) → All IsStandard rocks → All IsStandard (erase a rocks)
  unfolding erase
  All-erase a [] s = s
  All-erase a (n ∷ rocks) (s, ss) = ground (arith, All-erase a rocks ss)

  find-standard :
      (a : ℕ) (rocks : List (Node W)) (rock : Rock W)
      → All IsStandard rocks
      → find a rocks ≡ some rock
      → IsStandardRadius rock.radius
  unfolding find
  find-standard a [] rock s e = cc
  find-standard a (n ∷ rocks) rock (s, ss) e = ground (arith, find-standard a rocks rock ss)

  module _ (rand : ℕ → ℕ) (rand_max : ℕ) where
    -- Rocks destroyed one after the other.
    unfoldable pub destroy_all : List ℕ → RockField W → Option (RockField W)
    destroy_all [] f = some f
    destroy_all (a ∷ hit) f = do f' ← destroy_rock rand rand_max a f; destroy_all hit f'

  module _ (rand : ℕ → ℕ) (rand_max : ℕ) (sizes : Halving W) where
    open sizes use {
      large_le_large, large_le_middle, large_le_small, middle_le_middle, middle_le_small,
    }

    launch_two-hits_left :
        (x y r : W) (f : RockField W)
        → hits_left (launch_two rand rand_max x y r f).rocks ≡ hits_left f.rocks + 2 * hits r
    unfolding launch_two launch_one
    launch_two-hits_left x y r f = omega (arith, hits_left-append)

    launch_two-IsStandard :
        (x y r : W) (f : RockField W)
        → IsStandardRadius r
        → All IsStandard f.rocks
        → All IsStandard (launch_two rand rand_max x y r f).rocks
    unfolding launch_two launch_one
    launch_two-IsStandard x y r f s h =
        All-append IsStandard _ _ (All-append IsStandard f.rocks _ h (s, tt)) (s, tt)

    hits-middle : hits middle ≡ 3
    hits-middle = rw large_le_middle (rw middle_le_middle)

    hits-small : hits small ≡ 1
    hits-small = rw large_le_small (rw middle_le_small)

    -- A rock of 32 breaks into two of 16, one of 16 into two of 8, and one of 8 is gone.
    shatter-IsStandard :
        (rock : Rock W) (f : RockField W)
        → IsStandardRadius rock.radius
        → All IsStandard f.rocks
        → All IsStandard (shatter rand rand_max rock f).rocks
          × (hits_left (shatter rand rand_max rock f).rocks + 1
              ≡ hits rock.radius + hits_left f.rocks)
    unfolding shatter
    shatter-IsStandard rock f (inl e) h =
        rw (e, shatter)
          (rw large_le_large (
            launch_two-IsStandard rock.pos_x rock.pos_y middle f (inr (inl refl)) h,
            omega (arith, launch_two-hits_left rock.pos_x rock.pos_y middle f, hits-middle),
          ))
    shatter-IsStandard rock f (inr (inl e)) h =
        rw (e, shatter)
          (rw large_le_middle (
            rw middle_le_middle (
              launch_two-IsStandard rock.pos_x rock.pos_y small f (inr (inr refl)) h,
              omega (arith, launch_two-hits_left rock.pos_x rock.pos_y small f, hits-small),
            )))
    shatter-IsStandard rock f (inr (inr e)) h =
        rw (e, shatter) (rw large_le_small (rw middle_le_small (h, omega arith)))

    -- Each hit takes exactly one from the hits that a field of standard rocks still needs.
    destroy_rock-IsStandard :
        (a : ℕ) (f f' : RockField W)
        → All IsStandard f.rocks
        → destroy_rock rand rand_max a f ≡ some f'
        → All IsStandard f'.rocks × (hits_left f'.rocks + 1 ≡ hits_left f.rocks)
    unfolding destroy_rock
    destroy_rock-IsStandard a f f' h e =
        let (rock, found, e') = >>=-eq-some (find a f.rocks) _ e in
        let f1 = record f { rocks = erase a f.rocks } in
        rw (hits_left-erase a f.rocks rock found) (
          subst
            (λ g.
              All IsStandard g.rocks
              × (hits_left g.rocks + 1 ≡ hits rock.radius + hits_left f1.rocks))
            (some-injective _ _ e')
            (shatter-IsStandard rock f1 (find-standard a f.rocks rock h found)
              (All-erase a f.rocks h)))

    -- If 32, 16 and 8 compare as they should: whatever rocks of these sizes are destroyed one after
    -- the other, and in whatever order, each takes exactly one from the hits that the field is
    -- worth, which are 7 for a rock of 32, 3 for one of 16 and 1 for one of 8.
    pub destroy_all-hits_left :
        (hit : List ℕ) (f f' : RockField W)
        → All IsStandard f.rocks
        → destroy_all rand rand_max hit f ≡ some f'
        → hits_left f'.rocks + length hit ≡ hits_left f.rocks
    unfolding destroy_all
    destroy_all-hits_left [] f f' h e = rw (some-injective _ _ e) (omega arith)
    destroy_all-hits_left (a ∷ hit) f f' h e =
        let (f1, e1, e2) = >>=-eq-some (destroy_rock rand rand_max a f) _ e in
        let (h1, fewer) = destroy_rock-IsStandard a f f1 h e1 in
        omega (arith, fewer, destroy_all-hits_left hit f1 f' h1 e2)
