-- ===== src/AppBuffer/Message.antt =====
-- Messages as sequences of fields: a run of `set_uintN(v)` calls on one AppBuffer, and the run of
-- `get_uintN()` calls that reads it (lib/src/AppBuffer.cpp).
pub mod Laws
pub mod Reading
use geoff.Prelude.{◌>>=◌, ℕ, ◌+◌, ◌%◌, Bool, List, [], ◌∷◌, ◌++◌, Option, some}
use geoff.Words.{Host, u8_mod, stored16, stored32}
use geoff.AppBuffer.{
  AppBuffer, set_uint8, set_uint16, set_uint32, get_uint8, get_uint16, get_uint32,
}

-- A call of `set_uint8`, `set_uint16` or `set_uint32` with its argument.
pub data Field : Type 0 where
  u8 u16 u32 : ℕ → Field

abbrev pub width : Field → ℕ
width (u8 v) = 1
width (u16 v) = 2
width (u32 v) = 4

abbrev pub total : List Field → ℕ
total [] = 0
total (f ∷ fs) = width f + total fs

abbrev pub value : Field → ℕ
value (u8 v) = v
value (u16 v) = v
value (u32 v) = v

module _ ⦃host : Host⦄ where
  pub put : Field → AppBuffer → Option AppBuffer
  put (u8 v) ab = set_uint8 v ab
  put (u16 v) ab = set_uint16 v ab
  put (u32 v) ab = set_uint32 v ab

  -- The calls in their order.
  pub write : List Field → AppBuffer → Option AppBuffer
  write [] ab = some ab
  write (f ∷ fs) ab = do ab' ← put f ab; write fs ab'

  -- The getter for the width of a field.
  pub get : Field → AppBuffer → Option (ℕ × AppBuffer)
  get (u8 v) ab = get_uint8 ab
  get (u16 v) ab = get_uint16 ab
  get (u32 v) ab = get_uint32 ab

  -- The getters for the widths of some fields, one after the other.
  pub read : List Field → AppBuffer → Option (List ℕ × AppBuffer)
  read [] ab = some ([], ab)
  read (f ∷ fs) ab = do (v, ab1) ← get f ab; (vs, ab2) ← read fs ab1; some (v ∷ vs, ab2)

  -- The bytes of a field, and of a message.
  pub encode : Bool → Field → List ℕ
  encode flag (u8 v) = v % u8_mod ∷ []
  encode flag (u16 v) = stored16 host flag v
  encode flag (u32 v) = stored32 host flag v

  pub encode_all : Bool → List Field → List ℕ
  encode_all flag [] = []
  encode_all flag (f ∷ fs) = encode flag f ++ encode_all flag fs
