-- ===== src/AppBuffer/Message/Reading.antt =====
-- The getters read back what the setters wrote.
use geoff.Prelude.{
  ℕ, ◌*◌, ◌%◌, ◌^◌, ◌<◌, ◌≡◌, ap, Bool, List, [], ◌∷◌, ◌++◌, some, length, map, All, length-append,
  append-nil, append_assoc, arith,
}
use geoff.Words.{Host, stored16, stored32}
use geoff.Words.Laws.{loaded16-stored16, loaded32-stored32, length-stored16, length-stored32}
use geoff.AppBuffer.{make, bytes_remaining, size, AppBuffer, get_uint8, get_uint16, get_uint32}
use geoff.AppBuffer.Filled.{filled}
use geoff.AppBuffer.Memory.{load-append}
use geoff.AppBuffer.Message.{
  Field, u8, u16, u32, width, total, value, write, get, read, encode, encode_all,
}
use geoff.AppBuffer.Message.Laws.{write-make}

-- The value of a field fits its width.
abbrev pub InRange : Field → Type 0
InRange f = value f < 2 ^ (8 * width f)

-- A received buffer, read up to `out`.
abbrev pub reading : Bool → List ℕ → List ℕ → ℕ → AppBuffer
reading flag out rest w = record {
  buff = out ++ rest;
  is_little_endian = flag;
  read_offset = length out;
  write_offset = w;
}

module _ ⦃host : Host⦄ where
  get-reading :
      (flag : Bool) (out rest : List ℕ) (w : ℕ) (f : Field)
      → InRange f
      → get f (reading flag out (encode flag f ++ rest) w)
        ≡ some (value f, reading flag (out ++ encode flag f) rest w)
  unfolding get encode get_uint8 get_uint16 get_uint32
  get-reading flag out rest w (u8 v) h =
      let bytes = v % 256 ∷ [] in
      ground
        (arith, load-append out bytes rest, length-append out bytes, append_assoc out bytes rest)
  get-reading flag out rest w (u16 v) h =
      let bytes = stored16 host flag v in
      ground (
        arith,
        load-append out bytes rest,
        length-append out bytes,
        append_assoc out bytes rest,
        length-stored16 host flag v,
        loaded16-stored16 host flag v,
      )
  get-reading flag out rest w (u32 v) h =
      let bytes = stored32 host flag v in
      ground (
        arith,
        load-append out bytes rest,
        length-append out bytes,
        append_assoc out bytes rest,
        length-stored32 host flag v,
        loaded32-stored32 host flag v,
      )

  -- Reading the widths of some fields in their order gives their values, and leaves the read
  -- offset behind them.
  pub read-encode_all :
      (flag : Bool) (out rest : List ℕ) (w : ℕ) (fs : List Field)
      → All InRange fs
      → read fs (reading flag out (encode_all flag fs ++ rest) w)
        ≡ some (map value fs, reading flag (out ++ encode_all flag fs) rest w)
  unfolding read encode_all
  read-encode_all flag out rest w [] h = rw append-nil
  read-encode_all flag out rest w (f ∷ fs) (h, hs) =
      rw (append_assoc (encode flag f) (encode_all flag fs) rest) (
        rw (get-reading flag out (encode_all flag fs ++ rest) w f h) (
          rw (read-encode_all flag (out ++ encode flag f) rest w fs hs)
            (rw (append_assoc out (encode flag f) (encode_all flag fs)))))

  -- A message whose fields are in range is written into a buffer of its size without a fault, and
  -- reading its widths from the beginning gives the values back and leaves no byte, on any host and
  -- for any client.
  pub read-write :
      (flag : Bool) (n : ℕ) (fs : List Field)
      → n ≡ total fs
      → All InRange fs
      → (ab : AppBuffer) × (ab' : AppBuffer) × (write fs (make n flag) ≡ some ab)
        × (read fs ab ≡ some (map value fs, ab'))
        × (bytes_remaining ab' ≡ 0)
  unfolding bytes_remaining size
  read-write flag n fs e hs =
      let out = encode_all flag fs in
      (
        filled flag out 0,
        reading flag out [] (length out),
        write-make flag n fs e,
        read-encode_all flag [] [] (length out) fs hs,
        omega (arith, ap length (append-nil out)),
      )
