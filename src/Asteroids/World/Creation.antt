-- ===== src/Asteroids/World/Creation.antt =====
-- The constructor of the universe and GetUniverse (apps/asteroids/src/Universe.cpp), over the same
-- stream of numbers from rand() as the rocks.
use geoff.Prelude.{
  ℕ, zero, suc, ◌+◌, ◌*◌, ◌≡◌, refl, List, [], ◌∷◌, Option, none, some, arith, ap, length,
}
use geoff.Double.{Double}
use geoff.Asteroids.Structs.{Position}
use geoff.Asteroids.Consts.{num_stars}
use geoff.Asteroids.RockField.{random}
use geoff.Asteroids.RockField
use geoff.Asteroids.Session.{World}
use geoff.Asteroids.Session.Keeps.{IsWorld}

module _ {W : Type 0} ⦃d : Double W⦄ (rand : ℕ → ℕ) (rand_max : ℕ) where
  open d use {of_nat, mul}

  -- starX before starY; `i` counts the calls of rand() so far.
  unfoldable pub star : (width height i : ℕ) → Position W
  star width height i = record {
    pos_x = mul (random rand rand_max i) (of_nat width);
    pos_y = mul (random rand rand_max (i + 1)) (of_nat height);
  }

  -- The loop of the constructor.
  unfoldable pub scatter : (n width height i : ℕ) → List (Position W)
  scatter zero width height i = []
  scatter (suc n) width height i = star width height i ∷ scatter n width height (i + 2)

  unfoldable pub create : (width height : ℕ) → World W
  create width height = record {
    universe = record { size_w = of_nat width; size_h = of_nat height };
    field = record RockField.empty { drawn = 2 * num_stars };
    players = [];
    stars = scatter num_stars width height 0;
    ticks = 0;
  }

  -- GetUniverse: g_universe is created once.
  unfoldable pub get_universe : Option (World W) → World W
  get_universe none = create 8192 8192
  get_universe (some w) = w

module _ (W : Type 0) ⦃d : Double W⦄ (rand : ℕ → ℕ) (rand_max : ℕ) where
  length-scatter :
      (n width height i : ℕ) → length (scatter {W = W} rand rand_max n width height i) ≡ n
  unfolding scatter
  length-scatter zero width height i = refl
  length-scatter (suc n) width height i = ap suc (length-scatter n width height (i + 2))

  pub length-create :
      (width height : ℕ) → length (create {W = W} rand rand_max width height).stars ≡ num_stars
  unfolding create
  length-create width height = length-scatter num_stars width height 0

  pub create-IsWorld : (width height : ℕ) → IsWorld (create {W = W} rand rand_max width height)
  unfolding create RockField.empty
  create-IsWorld width height = record { players = tt; rocks = omega arith }
