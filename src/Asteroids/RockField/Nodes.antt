-- ===== src/Asteroids/RockField/Nodes.antt =====
-- The nodes of the rock list of apps/asteroids/src/RockField.cpp: each address is used once.
use geoff.Prelude.{
  ℕ, suc, ◌≤◌, ◌<◌, ◌≡◌, refl, List, [], ◌∷◌, ◌++◌, map, none, some, arith, >>=-eq-some, inl, inr,
  Bool-cases, subst,
}
use mathlib.Core.Option.{some-injective}
use geoff.Double.{Double}
use geoff.Asteroids.Consts.{rock_radius}
use geoff.Asteroids.Structs.{Size}
use geoff.Asteroids.Rock.{Rock}
use geoff.Asteroids.RockField.{
  Node, RockField, find, erase, tick_node, tick_event, launch_one, launch_two, shatter,
  destroy_rock,
}

-- Addresses rise along the list, from `low` on and below `fresh`.
abbrev pub Rising : {W : Type 0} → ℕ → ℕ → List (Node W) → Type 0
Rising low fresh [] = low ≤ fresh
Rising low fresh (n ∷ rocks) = (low ≤ n.address) × Rising (suc n.address) fresh rocks

abbrev pub IsList : {W : Type 0} → RockField W → Type 0
IsList f = Rising 0 f.fresh f.rocks

module _ {W : Type 0} where
  Rising-mono :
      (low low' fresh : ℕ) (rocks : List (Node W))
      → low' ≤ low
      → Rising low fresh rocks
      → Rising low' fresh rocks
  Rising-mono low low' fresh [] h r = omega arith
  Rising-mono low low' fresh (n ∷ rocks) h (r, rs) = (omega arith, rs)

  Rising-snoc :
      (low fresh : ℕ) (rocks : List (Node W)) (n : Node W)
      → n.address ≡ fresh
      → Rising low fresh rocks
      → Rising low (suc fresh) (rocks ++ (n ∷ []))
  Rising-snoc low fresh [] n e r = omega arith
  Rising-snoc low fresh (m ∷ rocks) n e (r, rs) =
      (r, Rising-snoc (suc m.address) fresh rocks n e rs)

  Rising-erase :
      (a low fresh : ℕ) (rocks : List (Node W))
      → Rising low fresh rocks
      → Rising low fresh (erase a rocks)
  unfolding erase
  Rising-erase a low fresh [] r = r
  Rising-erase a low fresh (n ∷ rocks) (r, rs) = ground (
    arith,
    Rising-erase a (suc n.address) fresh rocks rs,
    Rising-mono (suc n.address) low fresh rocks (omega arith) rs,
  )

  -- Below the first address nothing is found.
  find_below :
      (a low fresh : ℕ) (rocks : List (Node W))
      → a < low
      → Rising low fresh rocks
      → find a rocks ≡ none
  unfolding find
  find_below a low fresh [] h r = refl
  find_below a low fresh (n ∷ rocks) h (r, rs) =
      ground (arith, find_below a (suc n.address) fresh rocks (omega arith) rs)

  pub find-erase :
      (a low fresh : ℕ) (rocks : List (Node W))
      → Rising low fresh rocks
      → find a (erase a rocks) ≡ none
  unfolding find erase
  find-erase a low fresh [] r = refl
  find-erase a low fresh (n ∷ rocks) (r, rs) =
      ground (
        arith,
        find_below a (suc n.address) fresh rocks,
        find-erase a (suc n.address) fresh rocks rs,
      )

  find-snoc :
      (a : ℕ) (rocks : List (Node W)) (n : Node W)
      → a < n.address
      → find a rocks ≡ none
      → find a (rocks ++ (n ∷ [])) ≡ none
  unfolding find
  find-snoc a [] n h e = ground arith
  find-snoc a (m ∷ rocks) n h e = ground (arith, find-snoc a rocks n h)

  Rising-le : (low fresh : ℕ) (rocks : List (Node W)) → Rising low fresh rocks → low ≤ fresh
  Rising-le low fresh [] r = r
  Rising-le low fresh (n ∷ rocks) (r, rs) = omega (arith, Rising-le (suc n.address) fresh rocks rs)

  find-lt :
      (a low fresh : ℕ) (rocks : List (Node W)) (rock : Rock W)
      → Rising low fresh rocks
      → find a rocks ≡ some rock
      → a < fresh
  unfolding find
  find-lt a low fresh [] rock r e = cc
  find-lt a low fresh (n ∷ rocks) rock (r, rs) e = ground (
    arith,
    find-lt a (suc n.address) fresh rocks rock rs,
    Rising-le (suc n.address) fresh rocks rs,
  )

module _ {W : Type 0} ⦃d : Double W⦄ where
  open d use {of_nat, div, le}

  Rising-tick_node :
      (u : Size W) (low fresh : ℕ) (rocks : List (Node W))
      → Rising low fresh rocks
      → Rising low fresh (map (tick_node u) rocks)
  Rising-tick_node u low fresh [] r = r
  Rising-tick_node u low fresh (n ∷ rocks) (r, rs) =
      (r, Rising-tick_node u (suc n.address) fresh rocks rs)

  pub tick_event-IsList : (u : Size W) (f : RockField W) → IsList f → IsList (tick_event u f)
  unfolding tick_event
  tick_event-IsList u f l = Rising-tick_node u 0 f.fresh f.rocks l

  module _ (rand : ℕ → ℕ) (rand_max : ℕ) where
    pub launch_one-IsList :
        (x y r : W) (f : RockField W) → IsList f → IsList (launch_one rand rand_max x y r f)
    unfolding launch_one
    launch_one-IsList x y r f l = Rising-snoc 0 f.fresh f.rocks _ refl l

    launch_two-IsList :
        (x y r : W) (f : RockField W) → IsList f → IsList (launch_two rand rand_max x y r f)
    unfolding launch_two
    launch_two-IsList x y r f l = launch_one-IsList x y r _ (launch_one-IsList x y r f l)

    -- What holds of the field as it is, and with two rocks more, holds after a rock is shattered.
    pub shatter_cases {ℓ} :
        (P : RockField W → Type ℓ) (rock : Rock W) (f : RockField W)
        → P f
        → ((x y r : W) → P (launch_two rand rand_max x y r f))
        → P (shatter rand rand_max rock f)
    unfolding shatter
    shatter_cases P rock f none_left two = elim (Bool-cases (le rock_radius rock.radius)) [
      | inl large ↦ rw (large, shatter) (two _ _ _)
      | inr not_large ↦
          rw (not_large, shatter)
            (elim (Bool-cases (le (div rock_radius (of_nat 2)) rock.radius)) [
              | inl middle ↦ rw middle (two _ _ _)
              | inr small ↦ rw small none_left
            ])
    ]

    -- Destroying a rock keeps the addresses of the list distinct and below the next one.
    pub destroy_rock-IsList :
        (a : ℕ) (f f' : RockField W)
        → IsList f
        → destroy_rock rand rand_max a f ≡ some f'
        → IsList f'
    unfolding destroy_rock
    destroy_rock-IsList a f f' l e =
        let (rock, _, e') = >>=-eq-some (find a f.rocks) _ e in
        let f1 = record f { rocks = erase a f.rocks } in
        let l1 : IsList f1 = Rising-erase a 0 f.fresh f.rocks l in
        subst IsList (some-injective _ _ e')
          (shatter_cases IsList rock f1 l1 (λ x y r. launch_two-IsList x y r f1 l1))

    launch_two-gone :
        (a : ℕ) (x y r : W) (f : RockField W)
        → a < f.fresh
        → find a f.rocks ≡ none
        → find a (launch_two rand rand_max x y r f).rocks ≡ none
    unfolding launch_two launch_one
    launch_two-gone a x y r f h e = find-snoc a _ _ (omega arith) (find-snoc a f.rocks _ h e)

    -- What has been destroyed is not in the list, and no rock that comes from it has its address.
    pub destroy_rock-gone :
        (a : ℕ) (f f' : RockField W)
        → IsList f
        → destroy_rock rand rand_max a f ≡ some f'
        → find a f'.rocks ≡ none
    unfolding destroy_rock
    destroy_rock-gone a f f' l e =
        let (rock, found, e') = >>=-eq-some (find a f.rocks) _ e in
        let f1 = record f { rocks = erase a f.rocks } in
        let gone = find-erase a 0 f.fresh f.rocks l in
        let below = find-lt a 0 f.fresh f.rocks rock l found in
        subst (λ g. find a g.rocks ≡ none) (some-injective _ _ e')
          (shatter_cases (λ g. find a g.rocks ≡ none) rock f1 gone
            (λ x y r. launch_two-gone a x y r f1 below gone))

    -- With the rocks a list, to destroy a rock a second time is undefined behaviour: the iterator
    -- of an erased node is used.
    pub destroy_rock_twice :
        (a : ℕ) (f f' : RockField W)
        → IsList f
        → destroy_rock rand rand_max a f ≡ some f'
        → destroy_rock rand rand_max a f' ≡ none
    unfolding destroy_rock
    destroy_rock_twice a f f' l e = rw (destroy_rock-gone a f f' l e)
