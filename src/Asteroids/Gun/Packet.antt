-- ===== src/Asteroids/Gun/Packet.antt =====
-- The packet of apps/asteroids/src/Gun.cpp: the buffer that MakeBuffer asks for is just large enough.
use geoff.Prelude.{suc, ◌+◌, ◌*◌, ◌≡◌, refl, Bool, [], ◌∷◌, none, some, length, arith}
use geoff.Words.{Host}
use geoff.AppBuffer.Filled.{filled}
use geoff.AppBuffer.Message.{u16, total, encode_all}
use geoff.AppBuffer.Message.Laws.{write-make}
use geoff.Double.{Double}
use geoff.Asteroids.Bullet.{Bullet}
use geoff.Asteroids.Gun.{Gun, bullet_fields, make_buffer}

module _ {W : Type 0} ⦃d : Double W⦄ where
  pub total-bullet_fields : (g : Gun W) → total (bullet_fields g) ≡ length g * 4
  unfolding bullet_fields
  total-bullet_fields [] = refl
  total-bullet_fields (b ∷ g) = omega (arith, total-bullet_fields g)

  module _ ⦃host : Host⦄ where
    pub make_buffer-nil : (flag : Bool) (g : Gun W) → g ≡ [] → make_buffer flag g ≡ some none
    unfolding make_buffer
    make_buffer-nil flag g e = rw e

    -- A gun with bullets makes a full buffer: their number, then the coordinates of each.
    pub make_buffer-filled :
        (flag : Bool) (b : Bullet W) (g : Gun W)
        → make_buffer flag (b ∷ g)
          ≡ some (
              some (filled flag (encode_all flag (u16 (suc (length g)) ∷ bullet_fields (b ∷ g))) 0))
    unfolding make_buffer
    make_buffer-filled flag b g = rw (
        write-make flag (2 + suc (length g) * 4) (u16 (suc (length g)) ∷ bullet_fields (b ∷ g))
          (omega (arith, total-bullet_fields (b ∷ g))))
