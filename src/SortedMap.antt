-- ===== src/SortedMap.antt =====
-- std::map<uint32_t, T>, as lib/inc/WebsockSessionManager.h and apps/asteroids/src/Universe.cpp use
-- it: the entries in the order of their keys.
pub mod Laws
pub mod Cells
use geoff.Prelude.{ℕ, List, [], ◌∷◌, Option, none, some, ltb, ◌==◌, if◌then◌else◌}

abbrev pub SortedMap {ℓ} : Type ℓ → Type ℓ
SortedMap A = List (ℕ × A)

module _ {ℓ} {A : Type ℓ} where
  -- map.find(key)
  unfoldable pub lookup : ℕ → SortedMap A → Option A
  lookup key [] = none
  lookup key ((k, a) ∷ m) = if k == key then some a else lookup key m

  -- map[key] = value
  unfoldable pub insert : ℕ → A → SortedMap A → SortedMap A
  insert key a [] = (key, a) ∷ []
  insert key a ((k, b) ∷ m) =
      let rest = insert key a m in
      if k == key then (key, a) ∷ m else if ltb key k then (key, a) ∷ (k, b) ∷ m else (k, b) ∷ rest

  -- map.erase(key)
  unfoldable pub remove : ℕ → SortedMap A → SortedMap A
  remove key [] = []
  remove key ((k, b) ∷ m) = if k == key then m else (k, b) ∷ remove key m
