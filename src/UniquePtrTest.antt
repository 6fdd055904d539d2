-- ===== src/UniquePtrTest.antt =====
-- UniquePtrTest/UniquePtrTest.cpp: a list of rocks from which some are deleted through iterators that
-- were stored before. The traces are left out.
pub mod Deletes
use geoff.Prelude.{
  ◌>>=◌, ℕ, suc, ◌≡◌, ◌&&◌, Bool, List, [], ◌∷◌, ◌++◌, Option, none, some, if◌then◌else◌,
}
use geoff.Double.{Double}
use geoff.SortedMap.{SortedMap, lookup, remove}

pub record Rock (W : Type 0) : Type 0 where
  pub x : W
  pub y : W

-- An iterator is the address of a node, and each address is used once.
pub record RockField (W : Type 0) : Type 0 where
  pub fresh : ℕ
  pub rocks : SortedMap (Rock W)

abbrev empty_field : {W : Type 0} → RockField W
empty_field = record { fresh = 0; rocks = [] }

module _ {W : Type 0} where
  -- CreateOne
  create_one : W → W → RockField W → RockField W
  create_one x y f = record {
    fresh = suc f.fresh;
    rocks = f.rocks ++ ((f.fresh, record { x = x; y = y }) ∷ []);
  }

  -- m_rocks.erase(rock), of which an iterator to a node that is gone is a fault.
  erased : ℕ → Option (Rock W) → SortedMap (Rock W) → Option (SortedMap (Rock W))
  erased rock none rocks = none
  erased rock (some r) rocks = some (remove rock rocks)

  -- DeleteOne, on the list.
  delete_one : ℕ → SortedMap (Rock W) → Option (SortedMap (Rock W))
  delete_one rock rocks = erased rock (lookup rock rocks) rocks

  -- The last loop of main.
  pub delete_all : List ℕ → SortedMap (Rock W) → Option (SortedMap (Rock W))
  delete_all [] rocks = some rocks
  delete_all (it ∷ dt) rocks = do rocks' ← delete_one it rocks; delete_all dt rocks'

module _ {W : Type 0} ⦃d : Double W⦄ where
  open d use {of_nat, le}

  -- rock->x == 1
  abbrev is_one : Rock W → Bool
  is_one rock = le rock.x (of_nat 1) && le (of_nat 1) rock.x

  -- The loop of main that stores the iterators of the rocks to be deleted.
  pub to_delete : SortedMap (Rock W) → List ℕ
  to_delete [] = []
  to_delete ((it, rock) ∷ rocks) = let dt = to_delete rocks in if is_one rock then it ∷ dt else dt

  -- main
  main : Option (SortedMap (Rock W))
  main =
      let rf =
        create_one (of_nat 2) (of_nat 2)
          (create_one (of_nat 1) (of_nat 1) (create_one (of_nat 0) (of_nat 0) empty_field)) in
      delete_all (to_delete rf.rocks) rf.rocks
