-- ===== src/Asteroids/RockField.antt =====
-- apps/asteroids/inc/RockField.h and src/RockField.cpp. A rock stands at an address, the node of the
-- std::list that an iterator points to; `rand()` is a stream of numbers that is drawn from in order.
pub mod Nodes
pub mod Split
use geoff.Prelude.{
  ◌>>=◌, ℕ, suc, ◌+◌, List, [], ◌∷◌, ◌++◌, Option, none, some, map, ◌==◌, if◌then◌else◌,
}
use geoff.Double.{Double}
use geoff.Asteroids.Structs.{Size}
use geoff.Asteroids.Consts.{rock_radius, rock_speed, fps}
use geoff.Asteroids.Rock.{Rock}
use geoff.Asteroids.Rock

pub record Node (W : Type 0) : Type 0 where
  pub address : ℕ
  pub rock : Rock W

-- `fresh` is the address of the next node, and `drawn` counts the calls of rand().
pub record RockField (W : Type 0) : Type 0 where
  pub rocks : List (Node W)
  pub fresh : ℕ
  pub drawn : ℕ

unfoldable pub empty : {W : Type 0} → RockField W
empty = record { rocks = []; fresh = 0; drawn = 0 }

-- What stands at an address; `none` if the node has been erased, or never was.
unfoldable pub find : {W : Type 0} → ℕ → List (Node W) → Option (Rock W)
find a [] = none
find a (n ∷ rocks) = if n.address == a then some n.rock else find a rocks

-- m_rocks.erase(rockIt)
unfoldable pub erase : {W : Type 0} → ℕ → List (Node W) → List (Node W)
erase a [] = []
erase a (n ∷ rocks) = if n.address == a then rocks else n ∷ erase a rocks

module _ {W : Type 0} ⦃d : Double W⦄ where
  open d use {of_nat, dbl, mul, div, neg, lt, le}

  abbrev pub tick_node : Size W → Node W → Node W
  tick_node universe n = record n { rock = Rock.tick_event universe n.rock }

  unfoldable pub tick_event : Size W → RockField W → RockField W
  tick_event universe f = record f { rocks = map (tick_node universe) f.rocks }

  -- rand() as a number between 0 and RAND_MAX.
  module _ (rand : ℕ → ℕ) (rand_max : ℕ) where
    unfoldable pub random : ℕ → W
    random i = div (of_nat (rand i)) (of_nat rand_max)

    -- random() * ROCK_SPEED / FPS * (random() < 0.5 ? 1 : -1), the left operand first.
    unfoldable pub drift : ℕ → W
    drift i =
        mul (div (mul (random i) (of_nat rock_speed)) fps)
          (if lt (random (i + 1)) (dbl 5 1) then of_nat 1 else neg (of_nat 1))

    unfoldable pub launch_one : (x y r : W) → RockField W → RockField W
    launch_one x y r f = record {
      rocks =
          f.rocks
          ++ (record {
            address = f.fresh;
            rock = record {
              position = record { pos_x = x; pos_y = y };
              velocity = record { delta_x = drift f.drawn; delta_y = drift (f.drawn + 2) };
              radius = r;
            };
          }
              ∷ []);
      fresh = suc f.fresh;
      drawn = f.drawn + 4;
    }

    unfoldable pub launch_two : (x y r : W) → RockField W → RockField W
    launch_two x y r f = launch_one x y r (launch_one x y r f)

    -- Two rocks of half the radius where a large or a middle one was.
    unfoldable pub shatter : Rock W → RockField W → RockField W
    shatter rock f =
        let half = div rock.radius (of_nat 2) in
        if le rock_radius rock.radius
        then launch_two rock.pos_x rock.pos_y half f
        else (if le (div rock_radius (of_nat 2)) rock.radius
            then launch_two rock.pos_x rock.pos_y half f
            else f)

    -- The copy of the rock is taken before its node is erased. `none`: no node is there.
    unfoldable pub destroy_rock : ℕ → RockField W → Option (RockField W)
    destroy_rock a f = do
      rock ← find a f.rocks
      some (shatter rock (record f { rocks = erase a f.rocks }))
