-- ===== src/Asteroids/Gun/Empties.antt =====
-- Bullets of apps/asteroids/src/Gun.cpp do not outlive their time.
use geoff.Prelude.{
  ℕ, zero, suc, ◌+◌, ◌-◌, ◌≤◌, ◌≡◌, refl, [], ◌∷◌, map, length, length-map, arith, leb,
  if◌then◌else◌,
}
use geoff.Double.{Double}
use geoff.Asteroids.Structs.{Size}
use geoff.Asteroids.Gun.{Gun, tick_event}
use geoff.Asteroids.Gun.Magazine.{
  Ages, IsMagazine, moved, drop_expired, tick_event-drop_expired, tick_event-IsMagazine, tick-Ages,
  Ages-mono, Ages-le,
}

module _ {W : Type 0} ⦃d : Double W⦄ where
  -- n ticks with no shot in between.
  pub ticks : ℕ → Size W → Gun W → Gun W
  ticks zero u g = g
  ticks (suc n) u g = ticks n u (tick_event u g)

  drop_expired-Ages :
      (top : ℕ) (g : Gun W)
      → Ages 0 top g
      → Ages 0 top (drop_expired g) × (length (drop_expired g) ≤ length g)
  drop_expired-Ages top [] a = ground arith
  drop_expired-Ages top (b ∷ g) a =
      ground (arith, Ages-mono b.ticks_left 0 top top g (omega arith) (omega arith) a.1)

  -- With no time left anywhere the front bullet goes.
  drop_expired-pops : (g : Gun W) → Ages 0 0 g → length (drop_expired g) ≤ length g - 1
  drop_expired-pops [] a = omega arith
  drop_expired-pops (b ∷ g) (_, a) = ground (arith, Ages-le b.ticks_left 0 g a)

  -- One tick: a tick less for every bullet, and a bullet less where none had more than one left.
  tick_event-shrinks :
      (top : ℕ) (u : Size W) (g : Gun W)
      → IsMagazine g
      → Ages 0 top g
      → Ages 0 (top - 1) (tick_event u g)
        × (length (tick_event u g) ≤ length g)
        × (top ≤ 1 → length (tick_event u g) ≤ length g - 1)
  tick_event-shrinks top u g m a =
      let a' = tick-Ages u 0 top g a in
      let (keeps, le) = drop_expired-Ages (top - 1) (map (moved u) g) a' in
      rw (tick_event-drop_expired u g m) (
        keeps,
        omega (arith, length-map (moved u) g),
        λ last. omega (
          arith,
          length-map (moved u) g,
          drop_expired-pops (map (moved u) g)
              (Ages-mono 0 0 (top - 1) 0 _ (omega arith) (omega arith) a'),
        ),
      )

  ticks-nil :
      (n top k : ℕ) (u : Size W) (g : Gun W)
      → IsMagazine g
      → Ages 0 top g
      → length g ≤ k
      → top - 1 + k ≤ n
      → ticks n u g ≡ []
  unfolding ticks
  ticks-nil zero top k u [] m a h e = refl
  ticks-nil zero top k u (b ∷ g) m a h e = absurd (omega arith)
  ticks-nil (suc n) top k u g m a h e =
      let (a', le, last) = tick_event-shrinks top u g m a in
      let k' = if leb top 1 then k - 1 else k in
      ticks-nil n (top - 1) k' u (tick_event u g) (tick_event-IsMagazine u g m) a' (ground arith)
        (ground arith)

  -- A magazine that is not fired is empty after 185 ticks: 180 for the last bullet, and one more
  -- for each of the five that may have run out with it, since a tick takes one bullet at most.
  pub ticks-empties : (u : Size W) (g : Gun W) → IsMagazine g → ticks 185 u g ≡ []
  ticks-empties u g m = ticks-nil 185 180 6 u g m m.ages m.fits (omega arith)
