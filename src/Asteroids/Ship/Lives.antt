-- ===== src/Asteroids/Ship/Lives.antt =====
-- The lives of a ship (apps/asteroids/src/Ship.cpp): what every operation keeps, and how a life
-- ends and begins.
use geoff.Prelude.{
  ℕ, suc, ◌≤◌, ◌<◌, ◌≡◌, Bool, true, false, ◌&&◌, arith, inl, inr, ◌⊎◌, refl, Bool-cases, subst,
  sym,
}
use geoff.Double.{Double}
use geoff.Asteroids.Structs.{Size}
use geoff.Asteroids.Consts.{num_lives, ship_explode_dur}
use geoff.Asteroids.Gun.Magazine.{IsMagazine, fire-IsMagazine, tick_event-IsMagazine}
use geoff.Asteroids.Gun
use geoff.Asteroids.Ship.Move.Boundary.{move_frame}
use geoff.Asteroids.Ship.{
  Ship, create, new_life, resurrect, explode, key_event, resize_event, tick_event, age,
  tick_seconds, move_ship, blink,
}

-- What holds of every ship: no more lives than it began with, none left to a dead one, a gun that
-- is a magazine, and the switches as the constructor set them.
pub record IsShip {W : Type 0} (s : Ship W) : Type 0 where
  pub lives_le : s.lives_left ≤ num_lives
  pub dead_has_none : s.dead ≡ true → s.lives_left ≡ 0
  pub magazine : IsMagazine s.gun
  pub slides : s.motion.slide_viewport ≡ true
  pub wraps : s.motion.wrap_viewport ≡ false
  pub enforces : s.motion.enforce_boundaries ≡ true

module _ {W : Type 0} ⦃d : Double W⦄ where
  open d use {of_nat, sub, lt}

  pub create-IsShip : (u : Size W) (cw ch : ℕ) (x y angle : W) → IsShip (create u cw ch x y angle)
  unfolding create
  create-IsShip u cw ch x y angle = ground arith

  new_life-IsShip : (s : Ship W) → IsShip s → IsShip (new_life s)
  unfolding new_life
  new_life-IsShip s h = ground arith

  pub resurrect-IsShip : (s : Ship W) → IsShip s → IsShip (resurrect s)
  unfolding resurrect
  resurrect-IsShip s h = ground arith

  pub explode-IsShip : (s : Ship W) → IsShip s → IsShip (explode s)
  unfolding explode
  explode-IsShip s h = ground arith

  pub key_event-IsShip :
      (key : ℕ) (is_down : Bool) (s : Ship W) → IsShip s → IsShip (key_event key is_down s)
  unfolding key_event
  key_event-IsShip key is_down s h =
      ground (arith, fire-IsMagazine s.context s.position s.radius s.angle s.gun h.magazine)

  pub resize_event-IsShip :
      (u : Size W) (w h : ℕ) (s : Ship W) → IsShip s → IsShip (resize_event u w h s)
  unfolding resize_event
  resize_event-IsShip u w h s i = ground arith

  move_ship-IsShip : (u : Size W) (s : Ship W) → IsShip s → IsShip (move_ship u s)
  unfolding move_ship
  move_ship-IsShip u s h = ground (arith, move_frame u s.motion)

  blink-IsShip : (s : Ship W) → IsShip s → IsShip (blink s)
  unfolding blink
  blink-IsShip s h = ground arith

  age-IsShip : (s : Ship W) → IsShip s → IsShip (age s)
  unfolding age
  age-IsShip s h =
      let burnt = record s { explosion_duration = ship_explode_dur; exploding = false } in
      let shielded = record s { inv_duration = sub s.inv_duration tick_seconds } in
      ground (arith, new_life-IsShip burnt (ground arith), blink-IsShip shielded (ground arith))

  -- A tick keeps what holds of every ship: at most NUM_LIVES lives left, none if it is dead, a gun
  -- that is a magazine, and the switches of its motion.
  pub tick_event-IsShip : (u : Size W) (s : Ship W) → IsShip s → IsShip (tick_event u s)
  unfolding tick_event
  tick_event-IsShip u s h =
      let s' = move_ship u s in
      let h' = move_ship-IsShip u s h in
      let moved = record s' { gun = Gun.tick_event u s'.gun } in
      let fine : IsShip moved = ground (arith, h', tick_event-IsMagazine u s'.gun h'.magazine) in
      age-IsShip moved fine

  -- The explosion of the ship ends with this tick.
  abbrev pub burns_out : Ship W → Bool
  burns_out s = s.exploding && lt (sub s.explosion_duration tick_seconds) (of_nat 0)

  -- What a tick does to the lives of a ship: nothing, or it begins a new one, or it was the last.
  pub data Fate (s s' : Ship W) : Type 0 where
    lives_on :
        burns_out s ≡ false
        → s'.lives_left ≡ s.lives_left
        → s'.dead ≡ s.dead
        → s'.exploding ≡ s.exploding
        → Fate s s'
    reborn :
        burns_out s ≡ true
        → s.lives_left ≡ suc s'.lives_left
        → s'.dead ≡ false
        → s'.exploding ≡ false
        → s'.invulnerable ≡ true
        → Fate s s'
    dies :
        burns_out s ≡ true
        → s.lives_left ≡ 0
        → s'.lives_left ≡ 0
        → s'.dead ≡ true
        → s'.exploding ≡ false
        → Fate s s'

  new_life-Fate :
      (s s' : Ship W)
      → burns_out s ≡ true
      → s'.lives_left ≡ s.lives_left
      → s'.exploding ≡ false
      → Fate s (new_life s')
  unfolding new_life
  new_life-Fate s s' b same still =
      let cases : (s'.lives_left ≡ 0) ⊎ (0 < s'.lives_left) = omega arith in
      elim cases [
        | inl none_left ↦ dies b (omega arith) (ground arith) (ground arith) (ground arith)
        | inr some_left ↦ reborn b (ground arith) (ground arith) (ground arith) (ground arith)
      ]

  blink_frame :
      (s : Ship W)
      → ((blink s).lives_left ≡ s.lives_left)
        × ((blink s).dead ≡ s.dead)
        × ((blink s).exploding ≡ s.exploding)
  unfolding blink
  blink_frame s = ground arith

  age-Fate : (s : Ship W) → Fate s (age s)
  unfolding age
  age-Fate s = elim (Bool-cases (burns_out s)) [
    | inl b ↦
        let s' = record s { explosion_duration = ship_explode_dur; exploding = false } in
        let burnt : age s ≡ new_life s' = ground arith in
        subst (Fate s) (sym burnt) (new_life-Fate s s' b refl refl)
    | inr b ↦
        let shielded = record s { inv_duration = sub s.inv_duration tick_seconds } in
        let frame = blink_frame shielded in lives_on b (ground arith) (ground arith) (ground arith)
  ]

  moved-Fate :
      (u : Size W) (s s' : Ship W)
      → let moved = move_ship u s in
        Fate (record moved { gun = Gun.tick_event u moved.gun }) s' → Fate s s'
  unfolding move_ship
  moved-Fate u s s' (lives_on b l d e) =
      lives_on (ground arith) (ground arith) (ground arith) (ground arith)
  moved-Fate u s s' (reborn b l d e i) = reborn (ground arith) (ground arith) d e i
  moved-Fate u s s' (dies b l l' d e) = dies (ground arith) (ground arith) l' d e

  -- A tick keeps what holds of every ship: at most NUM_LIVES lives left, none if it is dead, a gun
  -- that is a magazine, and the switches of its motion. It leaves the lives and the explosion as they
  -- are, unless this tick ends the explosion: then a ship that has lives left loses one of them, is not
  -- dead and is invulnerable, and a ship that has none is dead.
  pub tick_event-Fate :
      (u : Size W) (s : Ship W) → IsShip s → IsShip (tick_event u s) × Fate s (tick_event u s)
  unfolding tick_event
  tick_event-Fate u s h =
      let s' = move_ship u s in
      let moved = record s' { gun = Gun.tick_event u s'.gun } in
      (tick_event-IsShip u s h, moved-Fate u s (age moved) (age-Fate moved))
