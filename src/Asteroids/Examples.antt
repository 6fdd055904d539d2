-- ===== src/Asteroids/Examples.antt =====
-- Runs of the objects of apps/asteroids on thousandths of a pixel, and their theorems at such inputs.
use geoff.Prelude.{ℕ, ◌+◌, ◌*◌, ◌≡◌, refl, inr, [], ◌∷◌, map, some, arith}
use geoff.Double.Milli.{Milli, milli_double, lift2, div_ℤ, quotient}
use geoff.Prelude.Int.{pos, negsuc, ◌+ℤ◌, ◌*ℤ◌}
use geoff.Asteroids.Structs.{Size, Position, Velocity, fly, Context}
use geoff.Asteroids.Bullet.{Bullet}
use geoff.Asteroids.Gun
use geoff.Asteroids.Gun.{Gun}
use geoff.Asteroids.Gun.Magazine.{IsMagazine, moved, drop_expired, tick_event-drop_expired}
use geoff.Asteroids.RockField.{RockField, Node, destroy_rock, shatter, find, erase}
use geoff.Asteroids.RockField.Split.{Halving, hits_left, destroy_all, destroy_all-hits_left}

-- A number of whole pixels.
abbrev px : ℕ → Milli
px n = some (pos (n * 1000))

abbrev universe : Size Milli
universe = record { size_w = px 8192; size_h = px 8192 }

abbrev corner : Position Milli
corner = record { pos_x = px 8190; pos_y = px 3 }

abbrev drift : Velocity Milli
drift = record { delta_x = px 5; delta_y = some (negsuc 4999) }

fly_wraps : fly universe corner drift ≡ record { pos_x = px 0; pos_y = px 8192 }
unfolding fly lift2 ◌+ℤ◌
fly_wraps = refl

abbrev bullet : ℕ → Bullet Milli
bullet n = record { position = corner; velocity = drift; ticks_left = n }

-- Two bullets of one tick, and a younger one.
abbrev magazine : Gun Milli
magazine = bullet 1 ∷ bullet 1 ∷ bullet 50 ∷ []

magazine-IsMagazine : IsMagazine magazine
magazine-IsMagazine = omega arith

tick_event-drop_expired_example :
    Gun.tick_event universe magazine ≡ drop_expired (map (moved universe) magazine)
tick_event-drop_expired_example = tick_event-drop_expired universe magazine magazine-IsMagazine

abbrev window : Context
window = record { ctx_w = 800; ctx_h = 600; ctx_ox = 3000; ctx_oy = 3000 }

abbrev rock : ℕ → ℕ → Node Milli
rock a r = record {
  address = a;
  rock = record { position = corner; velocity = drift; radius = px r };
}

abbrev field : RockField Milli
field = record { rocks = rock 0 32 ∷ rock 1 8 ∷ []; fresh = 2; drawn = 8 }

abbrev cleared : RockField Milli
cleared = record { rocks = rock 0 32 ∷ []; fresh = 2; drawn = 8 }

-- rand() as a constant.
abbrev dice : ℕ → ℕ
dice i = 1

small_rock_goes : destroy_rock dice 2 1 field ≡ some cleared
unfolding destroy_rock shatter find erase lift2 quotient div_ℤ ◌*ℤ◌
small_rock_goes = refl

milli-Halving : Halving Milli
unfolding lift2 quotient div_ℤ ◌*ℤ◌
milli-Halving = record {
  large_le_large = refl;
  large_le_middle = refl;
  large_le_small = refl;
  middle_le_middle = refl;
  middle_le_small = refl;
}

-- A small rock alone, and the field when it has been hit.
abbrev last_rock : RockField Milli
last_rock = record { rocks = rock 4 8 ∷ []; fresh = 5; drawn = 16 }

abbrev no_rock : RockField Milli
no_rock = record { rocks = []; fresh = 5; drawn = 16 }

last_rock_goes : destroy_all dice 2 (4 ∷ []) last_rock ≡ some no_rock
unfolding destroy_all destroy_rock shatter find erase lift2 quotient div_ℤ ◌*ℤ◌
last_rock_goes = refl

destroy_all-hits_left_example : hits_left no_rock.rocks + 1 ≡ hits_left last_rock.rocks
unfolding lift2 quotient div_ℤ ◌*ℤ◌
destroy_all-hits_left_example =
    destroy_all-hits_left dice 2 milli-Halving (4 ∷ []) last_rock no_rock (inr (inr refl), tt)
      last_rock_goes
