-- ===== src/Asteroids/Ship/Explosion.antt =====
-- How a life ends in apps/asteroids/src/Ship.cpp: the explosion burns out, and the next life begins
-- or the ship is dead.
use geoff.Prelude.{ℕ, zero, suc, ◌+◌, ◌<◌, ◌≡◌, ◌↔◌, ap, subst, true, false, arith}
use geoff.Double.{Double}
use geoff.Asteroids.Structs.{Size}
use geoff.Asteroids.Consts.{ship_explode_dur, ship_inv_dur}
use geoff.Asteroids.Gun
use geoff.Asteroids.Ship.{Ship, new_life, tick_event, age, tick_seconds, move_ship}

module _ {W : Type 0} ⦃d : Double W⦄ where
  open d use {of_nat, sub, lt}

  -- A duration runs out in exactly n ticks.
  abbrev pub Burns : ℕ → W → Type 0
  Burns zero x = ⊥
  Burns (suc zero) x = lt (sub x tick_seconds) (of_nat 0) ≡ true
  Burns (suc (suc n)) x =
      (lt (sub x tick_seconds) (of_nat 0) ≡ false) × Burns (suc n) (sub x tick_seconds)

  pub ticks : ℕ → Size W → Ship W → Ship W
  ticks zero u s = s
  ticks (suc n) u s = ticks n u (tick_event u s)

  -- A new life, or the end.
  abbrev pub Reborn : ℕ → Ship W → Type 0
  Reborn lives t =
      (t.exploding ≡ false)
      × (lives ≡ 0 → t.dead ≡ true)
      × (0 < lives
          → (t.dead ≡ false)
            × (t.invulnerable ≡ true)
            × (t.lives_left + 1 ≡ lives)
            × (t.explosion_duration ≡ ship_explode_dur)
            × (t.inv_duration ≡ ship_inv_dur)
            × (t.velocity ≡ record { delta_x = of_nat 0; delta_y = of_nat 0 }))

  -- An exploding ship does not move; its bullets do.
  tick_event_exploding :
      (u : Size W) (s : Ship W)
      → s.exploding ≡ true
      → tick_event u s ≡ age (record s { gun = Gun.tick_event u s.gun })
  unfolding tick_event
  tick_event_exploding u s e =
      let still : move_ship u s ≡ s = unfold move_ship in ground arith in
      ap (λ s'. age (record s' { gun = Gun.tick_event u s'.gun })) still

  age_burnt :
      (s : Ship W)
      → s.exploding ≡ true
      → lt (sub s.explosion_duration tick_seconds) (of_nat 0) ≡ true
      → Reborn s.lives_left (age s)
  unfolding age new_life
  age_burnt s e b = ground arith

  age_burning :
      (s : Ship W)
      → s.exploding ≡ true
      → lt (sub s.explosion_duration tick_seconds) (of_nat 0) ≡ false
      → ((age s).exploding ≡ true)
        × ((age s).lives_left ≡ s.lives_left)
        × ((age s).explosion_duration ≡ sub s.explosion_duration tick_seconds)
  unfolding age
  age_burning s e b = ground arith

  -- An exploding ship whose explosion burns out in exactly n ticks has, after these n ticks,
  -- stopped exploding: it has one life less, stands still and is invulnerable for the full time, or
  -- it is dead if it had none left.
  pub explosion_ends :
      (n : ℕ) (u : Size W) (s : Ship W)
      → s.exploding ≡ true
      → Burns n s.explosion_duration
      → Reborn s.lives_left (ticks n u s)
  unfolding ticks
  explosion_ends zero u s e b = absurd b
  explosion_ends (suc zero) u s e b = rw (tick_event_exploding u s e) (age_burnt _ e b)
  explosion_ends (suc (suc n)) u s e (b, bs) =
      let s' = record s { gun = Gun.tick_event u s.gun } in
      let (e', same, burnt) = age_burning s' e b in
      rw (tick_event_exploding u s e, ticks)
        (subst (λ k. Reborn k (ticks (suc n) u (age s'))) same
          (explosion_ends (suc n) u (age s') e' (rw burnt bs)))

  -- The ships that follow one another when every one of them is destroyed.
  pub lives : ℕ → Ship W → Ship W
  lives zero s = s
  lives (suc n) s = lives n (new_life s)

  new_life_none :
      (s : Ship W) → s.lives_left ≡ 0 → ((new_life s).dead ≡ true) × ((new_life s).lives_left ≡ 0)
  unfolding new_life
  new_life_none s e = ground arith

  new_life_some :
      (n : ℕ) (s : Ship W)
      → s.lives_left ≡ suc n
      → ((new_life s).dead ≡ false) × ((new_life s).lives_left ≡ n)
  unfolding new_life
  new_life_some n s e = ground arith

  lives_dead : (k : ℕ) (s : Ship W) → s.dead ≡ true → s.lives_left ≡ 0 → (lives k s).dead ≡ true
  unfolding lives
  lives_dead zero s a e = a
  lives_dead (suc k) s a e = let (a', e') = new_life_none s e in lives_dead k (new_life s) a' e'

  -- A ship that is alive with n lives left is dead after k lives have ended exactly when k is more
  -- than n: the life that it is living is not among those that are left.
  pub lives_last :
      (k n : ℕ) (s : Ship W)
      → s.dead ≡ false
      → s.lives_left ≡ n
      → ((lives k s).dead ≡ true) ↔ (n < k)
  unfolding lives
  lives_last zero n s a e = ground arith
  lives_last (suc k) zero s a e =
      let (a', e') = new_life_none s e in (λ _. omega arith, λ _. lives_dead k (new_life s) a' e')
  lives_last (suc k) (suc n) s a e =
      let (a', e') = new_life_some n s e in
      let ih = lives_last k n (new_life s) a' e' in
      (λ h. omega (arith, ih.0 h), λ h. ih.1 (omega arith))
