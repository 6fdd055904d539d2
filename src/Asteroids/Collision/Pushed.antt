-- ===== src/Asteroids/Collision/Pushed.antt =====
-- The list collidedRocks of Universe::CollisionDetection in apps/asteroids/src/Universe.cpp.
use geoff.Prelude.{
  ℕ, zero, suc, ◌≤◌, ◌<◌, ◌≡◌, ◌⊎◌, refl, List, [], ◌∷◌, ◌++◌, some, replicate, arith, inl, inr,
  All,
}
use geoff.Double.{Double}
use geoff.Asteroids.Rock.{Rock}
use geoff.Asteroids.RockField.{Node, find, erase}
use geoff.Asteroids.RockField.Nodes.{Rising}
use geoff.Asteroids.Player.{Player}
use geoff.Asteroids.Collision.{hits_of, pushes, meet, sweep}

-- Some address stands there twice in a row.
abbrev pub Twice : List ℕ → Type 0
Twice [] = ⊥
Twice (a ∷ []) = ⊥
Twice (a ∷ b ∷ hit) = (a ≡ b) ⊎ Twice (b ∷ hit)

Twice-cons : (a : ℕ) (hit : List ℕ) → Twice hit → Twice (a ∷ hit)
Twice-cons a [] t = absurd t
Twice-cons a (b ∷ hit) t = inr t

Twice-append : (k a : ℕ) (hit : List ℕ) → Twice hit → Twice (replicate k a ++ hit)
Twice-append zero a hit t = t
Twice-append (suc k) a hit t = Twice-cons a (replicate k a ++ hit) (Twice-append k a hit t)

replicate-Twice : (k a : ℕ) (hit : List ℕ) → 2 ≤ k → Twice (replicate k a ++ hit)
replicate-Twice zero a hit h = absurd (omega arith)
replicate-Twice (suc zero) a hit h = absurd (omega arith)
replicate-Twice (suc (suc k)) a hit h = inl refl

module _ {W : Type 0} ⦃d : Double W⦄ where
  -- Some rock is struck by two bullets of the player at once.
  abbrev pub Overkill : List (Node W) → Player W → Type 0
  Overkill [] p = ⊥
  Overkill (n ∷ rocks) p = (2 ≤ hits_of n.rock p.ship.gun) ⊎ Overkill rocks (meet n.rock p)

  -- Each address is that of a rock, and they rise from `low` on.
  abbrev pub Aimed : ℕ → List ℕ → List (Node W) → Type 0
  Aimed low [] rocks = Unit
  Aimed low (a ∷ hit) rocks =
      (low ≤ a) × ((rock : Rock W) × (find a rocks ≡ some rock)) × Aimed (suc a) hit rocks

  pub find_other : (a b : ℕ) (rocks : List (Node W)) → a < b → find b (erase a rocks) ≡ find b rocks
  unfolding find erase
  find_other a b [] h = refl
  find_other a b (n ∷ rocks) h = ground (arith, find_other a b rocks h)

  pub find-append :
      (b : ℕ) (rocks more : List (Node W)) (rock : Rock W)
      → find b rocks ≡ some rock
      → find b (rocks ++ more) ≡ some rock
  unfolding find
  find-append b [] more rock h = cc
  find-append b (n ∷ rocks) more rock h = ground (arith, find-append b rocks more rock)

  Aimed-mono :
      (low low' : ℕ) (hit : List ℕ) (rocks : List (Node W))
      → low' ≤ low
      → Aimed low hit rocks
      → Aimed low' hit rocks
  Aimed-mono low low' [] rocks h aimed = tt
  Aimed-mono low low' (a ∷ hit) rocks h (le, here, aimed) = (omega arith, here, aimed)

  -- Every node stands at its address in the whole list.
  abbrev pub Placed : List (Node W) → List (Node W) → Type 0
  Placed all rocks = All (λ n. find n.address all ≡ some n.rock) rocks

  Placed-cons :
      (n : Node W) (all rocks : List (Node W)) (low fresh : ℕ)
      → n.address < low
      → Rising low fresh rocks
      → Placed all rocks
      → Placed (n ∷ all) rocks
  unfolding find
  Placed-cons n all [] low fresh h r placed = tt
  Placed-cons n all (m ∷ rocks) low fresh h (r, rs) (here, placed) =
      (ground arith, Placed-cons n all rocks (suc m.address) fresh (omega arith) rs placed)

  pub Rising-Placed :
      (rocks : List (Node W)) (low fresh : ℕ) → Rising low fresh rocks → Placed rocks rocks
  unfolding find
  Rising-Placed [] low fresh r = tt
  Rising-Placed (n ∷ rocks) low fresh (r, rs) = (
    ground arith,
    Placed-cons n rocks rocks (suc n.address) fresh (omega arith) rs
        (Rising-Placed rocks (suc n.address) fresh rs),
  )

  pub pushes_le : (rock : Rock W) (p : Player W) → hits_of rock p.ship.gun ≤ 1 → pushes rock p ≤ 1
  unfolding pushes
  pushes_le rock p h = ground arith

  pushes_hits :
      (rock : Rock W) (p : Player W)
      → 2 ≤ hits_of rock p.ship.gun
      → pushes rock p ≡ hits_of rock p.ship.gun
  unfolding pushes
  pushes_hits rock p h = ground arith

  replicate-Aimed :
      (n : Node W) (k low : ℕ) (hit : List ℕ) (all : List (Node W))
      → k ≤ 1
      → low ≤ n.address
      → find n.address all ≡ some n.rock
      → Aimed (suc n.address) hit all
      → Aimed low (replicate k n.address ++ hit) all
  replicate-Aimed n zero low hit all h le here aimed =
      Aimed-mono (suc n.address) low hit all (omega arith) aimed
  replicate-Aimed n (suc zero) low hit all h le here aimed = (le, (n.rock, here), aimed)
  replicate-Aimed n (suc (suc k)) low hit all h le here aimed = absurd (omega arith)

  pub sweep-Aimed :
      (rocks : List (Node W)) (p : Player W) (low fresh : ℕ) (all : List (Node W))
      → ¬ Overkill rocks p
      → Rising low fresh rocks
      → Placed all rocks
      → Aimed low (sweep rocks p).1 all
  unfolding sweep
  sweep-Aimed [] p low fresh all few r placed = tt
  sweep-Aimed (n ∷ rocks) p low fresh all few (r, rs) (here, placed) =
      let not_two : ¬ (2 ≤ hits_of n.rock p.ship.gun) = λ h. few (inl h) in
      let one : hits_of n.rock p.ship.gun ≤ 1 = omega (arith, not_two) in
      replicate-Aimed n (pushes n.rock p) low (sweep rocks (meet n.rock p)).1 all
        (pushes_le n.rock p one) r here
        (sweep-Aimed rocks (meet n.rock p) (suc n.address) fresh all (λ o. few (inr o)) rs placed)

  pub sweep-Twice :
      (rocks : List (Node W)) (p : Player W) → Overkill rocks p → Twice (sweep rocks p).1
  unfolding sweep
  sweep-Twice [] p o = absurd o
  sweep-Twice (n ∷ rocks) p (inl h) =
      replicate-Twice (pushes n.rock p) n.address _ (omega (arith, pushes_hits n.rock p h))
  sweep-Twice (n ∷ rocks) p (inr o) =
      Twice-append (pushes n.rock p) n.address _ (sweep-Twice rocks (meet n.rock p) o)

  pub Overkill-cases :
      (rocks : List (Node W)) (p : Player W) → Overkill rocks p ⊎ ¬ Overkill rocks p
  Overkill-cases [] p = inr (λ o. o)
  Overkill-cases (n ∷ rocks) p = ground (arith, Overkill-cases rocks (meet n.rock p))
