-- ===== src/AppBuffer.antt =====
-- lib/inc/AppBuffer.h and lib/src/AppBuffer.cpp: a byte buffer with a read and a write offset.
-- `none` is an access outside `m_buff`, which the C++ code does not check. Offsets are ints that stay
-- below 2 ^ 31, and a length is the length of the list.
pub mod Memory
pub mod RoundTrip
pub mod Filled
pub mod Patch
pub mod Message
pub mod Received
pub mod Examples
use geoff.Prelude.{
  ◌>>=◌, ℕ, ◌+◌, ◌-◌, ◌%◌, Bool, List, [], ◌∷◌, Option, none, some, length, replicate,
}
use geoff.Words.{Host, u8_mod, stored16, stored32, loaded16, loaded32}
use Memory.{store, load}

-- `m_length` is the length of `buff`.
pub record AppBuffer : Type 0 where
  pub buff : List ℕ
  pub is_little_endian : Bool
  pub read_offset : ℕ
  pub write_offset : ℕ

-- AppBuffer(bufferLength, isLittleEndian)
pub make : ℕ → Bool → AppBuffer
make n flag = record {
  buff = replicate n 0;
  is_little_endian = flag;
  read_offset = 0;
  write_offset = 0;
}

pub size : AppBuffer → ℕ
size ab = length ab.buff

pub bytes_remaining : AppBuffer → ℕ
unfolding size
bytes_remaining ab = size ab - ab.read_offset

abbrev pub bytes_written : AppBuffer → ℕ
bytes_written ab = ab.write_offset

abbrev pub bytes_read : AppBuffer → ℕ
bytes_read ab = ab.read_offset

-- AppBuffer(buffer, bufferLength, isLittleEndian): the bytes are copied, none counts as written.
unfoldable pub of_bytes : List ℕ → Bool → AppBuffer
of_bytes bytes flag = record {
  buff = bytes;
  is_little_endian = flag;
  read_offset = 0;
  write_offset = 0;
}

-- AppBuffer(ab, moreRoom, isLittleEndian)
pub extend : AppBuffer → ℕ → Bool → Option AppBuffer
unfolding make
extend ab more flag = do
  bytes ← load ab.buff 0 (bytes_written ab)
  buff ← store (make (bytes_written ab + more) flag).buff 0 bytes
  some (record {
    buff = buff;
    is_little_endian = flag;
    read_offset = 0;
    write_offset = bytes_written ab;
  })

-- AppBuffer(ab1, ab2, isLittleEndian)
pub concat : AppBuffer → AppBuffer → Bool → Option AppBuffer
unfolding make
concat ab1 ab2 flag = do
  let total = bytes_written ab1 + bytes_written ab2
  bytes1 ← load ab1.buff 0 (bytes_written ab1)
  buff1 ← store (make total flag).buff 0 bytes1
  bytes2 ← load ab2.buff 0 (bytes_written ab2)
  buff2 ← store buff1 (bytes_written ab1) bytes2
  some (record { buff = buff2; is_little_endian = flag; read_offset = 0; write_offset = total })

-- int allocate(int bytes): the old offset, and the buffer with the offset moved.
pub allocate : AppBuffer → ℕ → ℕ × AppBuffer
allocate ab bytes = (ab.write_offset, record ab { write_offset = ab.write_offset + bytes })

-- memcpy(data() + offset, bytes)
pub copy_in : ℕ → List ℕ → AppBuffer → Option AppBuffer
copy_in offset bytes ab = do buff ← store ab.buff offset bytes; some (record ab { buff = buff })

-- m_readOffset += n
abbrev advance : ℕ → AppBuffer → AppBuffer
advance n ab = record ab { read_offset = ab.read_offset + n }

-- m_writeOffset += n
abbrev wrote : ℕ → AppBuffer → AppBuffer
wrote n ab = record ab { write_offset = ab.write_offset + n }

module _ ⦃host : Host⦄ where
  pub get_uint8_at : ℕ → AppBuffer → Option ℕ
  get_uint8_at offset ab = do
    bytes ← load ab.buff offset 1
    elim bytes [ [] ↦ none | v ∷ _ ↦ some v ]

  pub get_uint16_at : ℕ → AppBuffer → Option ℕ
  get_uint16_at offset ab = do
    bytes ← load ab.buff offset 2
    some (loaded16 host ab.is_little_endian bytes)

  pub get_uint32_at : ℕ → AppBuffer → Option ℕ
  get_uint32_at offset ab = do
    bytes ← load ab.buff offset 4
    some (loaded32 host ab.is_little_endian bytes)

  pub get_uint8 : AppBuffer → Option (ℕ × AppBuffer)
  unfolding get_uint8_at
  get_uint8 ab = do v ← get_uint8_at ab.read_offset ab; some (v, advance 1 ab)

  pub get_uint16 : AppBuffer → Option (ℕ × AppBuffer)
  unfolding get_uint16_at
  get_uint16 ab = do v ← get_uint16_at ab.read_offset ab; some (v, advance 2 ab)

  pub get_uint32 : AppBuffer → Option (ℕ × AppBuffer)
  unfolding get_uint32_at
  get_uint32 ab = do v ← get_uint32_at ab.read_offset ab; some (v, advance 4 ab)

  -- A value is converted to the type of the parameter: to 8, 16 or 32 bits.
  pub set_uint8_at : ℕ → ℕ → AppBuffer → Option AppBuffer
  set_uint8_at offset v ab = do
    buff ← store ab.buff offset (v % u8_mod ∷ [])
    some (record ab { buff = buff })

  pub set_uint16_at : ℕ → ℕ → AppBuffer → Option AppBuffer
  set_uint16_at offset v ab = do
    buff ← store ab.buff offset (stored16 host ab.is_little_endian v)
    some (record ab { buff = buff })

  pub set_uint32_at : ℕ → ℕ → AppBuffer → Option AppBuffer
  set_uint32_at offset v ab = do
    buff ← store ab.buff offset (stored32 host ab.is_little_endian v)
    some (record ab { buff = buff })

  pub set_uint8 : ℕ → AppBuffer → Option AppBuffer
  unfolding set_uint8_at
  set_uint8 v ab = do ab' ← set_uint8_at ab.write_offset v ab; some (wrote 1 ab')

  pub set_uint16 : ℕ → AppBuffer → Option AppBuffer
  unfolding set_uint16_at
  set_uint16 v ab = do ab' ← set_uint16_at ab.write_offset v ab; some (wrote 2 ab')

  pub set_uint32 : ℕ → AppBuffer → Option AppBuffer
  unfolding set_uint32_at
  set_uint32 v ab = do ab' ← set_uint32_at ab.write_offset v ab; some (wrote 4 ab')
