-- ===== src/Asteroids/Gun/Magazine.antt =====
-- The magazine of apps/asteroids/src/Gun.cpp: why taking the front bullet is enough.
use geoff.Prelude.{
  ℕ, ◌-◌, ◌≤◌, ◌≡◌, refl, ap, false, [], ◌∷◌, ◌++◌, map, length, length-append, length-map, arith,
  ◌==◌, if◌then◌else◌,
}
use geoff.Double.{Double}
use geoff.Asteroids.Structs.{Context, Size, Position}
use geoff.Asteroids.Consts.{gun_mag_size}
use geoff.Asteroids.Bullet.{Bullet}
use geoff.Asteroids.Bullet
use geoff.Asteroids.Gun.{Gun, firing_solution, fire, tick_all, tick_event}

-- No bullet has less time left than one that was fired before it, and none more than `top`.
abbrev pub Ages : {W : Type 0} → ℕ → ℕ → Gun W → Type 0
Ages low top [] = low ≤ top
Ages low top (b ∷ bullets) = (low ≤ b.ticks_left) × Ages b.ticks_left top bullets

-- What every magazine keeps: at most six bullets, oldest first, none with more than 180 ticks.
pub record IsMagazine {W : Type 0} (g : Gun W) : Type 0 where
  pub fits : length g ≤ gun_mag_size
  pub ages : Ages 0 180 g

module _ {W : Type 0} ⦃d : Double W⦄ where
  Ages-snoc :
      (low top : ℕ) (g : Gun W) (b : Bullet W)
      → b.ticks_left ≡ top
      → Ages low top g
      → Ages low top (g ++ (b ∷ []))
  Ages-snoc low top [] b e h = ground arith
  Ages-snoc low top (c ∷ g) b e (h, hs) = (h, Ages-snoc c.ticks_left top g b e hs)

  pub Ages-le : (low top : ℕ) (g : Gun W) → Ages low top g → low ≤ top
  Ages-le low top [] a = a
  Ages-le low top (b ∷ g) (a, as') = omega (arith, Ages-le b.ticks_left top g as')

  -- Firing keeps the magazine within its six bullets and in the order of their ages.
  pub fire-IsMagazine :
      (ctx : Context) (p : Position W) (radius angle : W) (g : Gun W)
      → IsMagazine g
      → IsMagazine (fire ctx p radius angle g)
  unfolding fire firing_solution Bullet.launch
  fire-IsMagazine ctx p radius angle g m =
      let b = firing_solution ctx p radius angle in
      ground (arith, length-append g (b ∷ []), Ages-snoc 0 180 g b refl m.ages)

  -- A bullet that has moved.
  abbrev pub moved : Size W → Bullet W → Bullet W
  moved u b = (Bullet.tick_event u b).0

  -- Takes the front bullet if its own time is up.
  abbrev pub drop_expired : Gun W → Gun W
  drop_expired [] = []
  drop_expired (b ∷ g) = if b.ticks_left == 0 then g else b ∷ g

  tick_all-moved : (u : Size W) (g : Gun W) → (tick_all u g).0 ≡ map (moved u) g
  unfolding tick_all
  tick_all-moved u [] = refl
  tick_all-moved u (b ∷ g) = ap (◌∷◌ (moved u b)) (tick_all-moved u g)

  -- As the ages rise along the list, nothing behind a bullet that flies on has timed out.
  not-timed_out :
      (u : Size W) (low top : ℕ) (g : Gun W) → 2 ≤ low → Ages low top g → (tick_all u g).1 ≡ false
  unfolding tick_all
  not-timed_out u low top [] h a = refl
  not-timed_out u low top (b ∷ g) h (a, as') =
      ground (arith, not-timed_out u b.ticks_left top g (omega arith) as')

  -- Of a magazine each bullet moves, and the gun drops the front one just when its own time is up:
  -- to look at the flag of the whole loop and to take the front one comes to the same.
  pub tick_event-drop_expired :
      (u : Size W) (g : Gun W) → IsMagazine g → tick_event u g ≡ drop_expired (map (moved u) g)
  unfolding tick_event
  tick_event-drop_expired u [] m = refl
  tick_event-drop_expired u (b ∷ g) m =
      ground (arith, not-timed_out u b.ticks_left 180 g, tick_all-moved u g)

  pub tick-Ages :
      (u : Size W) (low top : ℕ) (g : Gun W)
      → Ages low top g
      → Ages (low - 1) (top - 1) (map (moved u) g)
  unfolding Bullet.tick_event
  tick-Ages u low top [] a = omega arith
  tick-Ages u low top (b ∷ g) (a, as') = ground (arith, tick-Ages u b.ticks_left top g as')

  pub Ages-mono :
      (low low' top top' : ℕ) (g : Gun W)
      → low' ≤ low
      → top ≤ top'
      → Ages low top g
      → Ages low' top' g
  Ages-mono low low' top top' [] h k a = omega arith
  Ages-mono low low' top top' (b ∷ g) h k (a, as') =
      (omega arith, Ages-mono b.ticks_left b.ticks_left top top' g (omega arith) k as')

  drop_expired-IsMagazine : (g : Gun W) → IsMagazine g → IsMagazine (drop_expired g)
  drop_expired-IsMagazine [] m = m
  drop_expired-IsMagazine (b ∷ g) m =
      ground (arith, Ages-mono b.ticks_left 0 180 180 g (omega arith) (omega arith) m.ages.1)

  -- A tick keeps the magazine within its six bullets and in the order of their ages.
  pub tick_event-IsMagazine : (u : Size W) (g : Gun W) → IsMagazine g → IsMagazine (tick_event u g)
  tick_event-IsMagazine u g m = rw (tick_event-drop_expired u g m) (
      drop_expired-IsMagazine (map (moved u) g) (record {
        fits = omega (arith, length-map (moved u) g, m.fits);
        ages = Ages-mono 0 0 179 180 _ (omega arith) (omega arith) (tick-Ages u 0 180 g m.ages);
      }))
