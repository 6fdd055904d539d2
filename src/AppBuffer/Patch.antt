-- ===== src/AppBuffer/Patch.antt =====
-- Bytes of a buffer that are set again (`set_uint16(offset, v)` and `memcpy` of
-- lib/src/AppBuffer.cpp), and the room that `allocate` takes.
use geoff.Prelude.{
  ℕ, ◌+◌, ◌≡◌, refl, Bool, List, [], ◌++◌, some, ◌<◌, length, replicate, length-append,
  length-replicate, arith,
}
use geoff.Words.{Host, u16_mod, stored16}
use geoff.Words.Laws.{loaded16-stored16, length-stored16}
use geoff.AppBuffer.Memory.{store-replace, load-append}
use geoff.AppBuffer.Filled.{filled}
use geoff.AppBuffer.{AppBuffer, size, allocate, get_uint16_at, set_uint16_at, copy_in}

-- A buffer of some bytes with a write offset.
abbrev pub holding : Bool → List ℕ → ℕ → AppBuffer
holding flag bytes w = record {
  buff = bytes;
  is_little_endian = flag;
  read_offset = 0;
  write_offset = w;
}

pub size-filled : (flag : Bool) (out : List ℕ) (n : ℕ) → size (filled flag out n) ≡ length out + n
unfolding size
size-filled flag out n =
    omega (arith, length-append out (replicate n 0), length-replicate {A = ℕ} n 0)

pub allocate-filled :
    (flag : Bool) (out : List ℕ) (n k : ℕ)
    → allocate (filled flag out n) k
      ≡ (length out, holding flag (out ++ replicate n 0) (length out + k))
unfolding allocate
allocate-filled flag out n k = refl

pub copy_in-replace :
    (flag : Bool) (out old bytes rest : List ℕ) (offset w : ℕ)
    → offset ≡ length out
    → length old ≡ length bytes
    → copy_in offset bytes (holding flag (out ++ (old ++ rest)) w)
      ≡ some (holding flag (out ++ (bytes ++ rest)) w)
unfolding copy_in
copy_in-replace flag out old bytes rest offset w at e =
    rw at (rw (store-replace out old bytes rest e))

module _ ⦃host : Host⦄ where
  pub set_uint16_at-replace :
      (flag : Bool) (out old rest : List ℕ) (v offset w : ℕ)
      → offset ≡ length out
      → length old ≡ 2
      → set_uint16_at offset v (holding flag (out ++ (old ++ rest)) w)
        ≡ some (holding flag (out ++ (stored16 host flag v ++ rest)) w)
  unfolding set_uint16_at
  set_uint16_at-replace flag out old rest v offset w at e = rw at (
      rw (
        store-replace out old (stored16 host flag v) rest
          (omega (arith, length-stored16 host flag v))))

  pub get_uint16_at_first :
      (flag : Bool) (rest : List ℕ) (v w : ℕ)
      → v < u16_mod
      → get_uint16_at 0 (holding flag (stored16 host flag v ++ rest) w) ≡ some v
  unfolding get_uint16_at
  get_uint16_at_first flag rest v w h =
      let bytes = stored16 host flag v in
      ground (
        arith,
        load-append [] bytes rest,
        length-stored16 host flag v,
        loaded16-stored16 host flag v h,
      )
