-- ===== src/AppBuffer/Received.antt =====
-- A buffer made of received bytes, read at fixed offsets (lib/src/AppBuffer.cpp).
use geoff.Prelude.{ℕ, zero, suc, ◌≡◌, refl, Bool, List, [], ◌∷◌, length, get_elem?}
use geoff.Words.{Host}
use geoff.AppBuffer.{of_bytes, size, get_uint8_at}
use geoff.AppBuffer.Memory.{load}

pub size-of_bytes : (bytes : List ℕ) (flag : Bool) → size (of_bytes bytes flag) ≡ length bytes
unfolding size of_bytes
size-of_bytes bytes flag = refl

pub flag-of_bytes : (bytes : List ℕ) (flag : Bool) → (of_bytes bytes flag).is_little_endian ≡ flag
unfolding of_bytes
flag-of_bytes bytes flag = refl

module _ ⦃host : Host⦄ where
  pub get_uint8_at-of_bytes :
      (offset : ℕ) (bytes : List ℕ) (flag : Bool)
      → get_uint8_at offset (of_bytes bytes flag) ≡ get_elem? bytes offset
  unfolding get_uint8_at of_bytes load
  get_uint8_at-of_bytes zero [] flag = refl
  get_uint8_at-of_bytes zero (b ∷ bytes) flag = refl
  get_uint8_at-of_bytes (suc offset) [] flag = refl
  get_uint8_at-of_bytes (suc offset) (b ∷ bytes) flag = get_uint8_at-of_bytes offset bytes flag
