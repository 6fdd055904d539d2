-- ===== src/Words.antt =====
-- Machine words in memory, for the pointer casts and the shifts of lib/src/AppBuffer.cpp. A byte is
-- a number below 256, and a word's bytes stand in the order of the host.
pub mod Laws
use geoff.Prelude.{ℕ, ◌+◌, ◌*◌, ◌/◌, ◌%◌, ◌^◌, Bool, List, [], ◌∷◌, if◌then◌else◌}

-- The byte order of the machine that the server runs on.
pub data Host : Type 0 where
  little big : Host

abbrev pub u8_mod : ℕ
u8_mod = 2 ^ 8

abbrev pub u16_mod : ℕ
u16_mod = 2 ^ 16

abbrev pub u32_mod : ℕ
u32_mod = 2 ^ 32

-- The bytes of a `uint16_t` in memory, lowest address first.
memory16 : Host → ℕ → List ℕ
memory16 little v = v % 256 ∷ v / 256 % 256 ∷ []
memory16 big v = v / 256 % 256 ∷ v % 256 ∷ []

memory32 : Host → ℕ → List ℕ
memory32 little v = v % 256 ∷ v / 2 ^ 8 % 256 ∷ v / 2 ^ 16 % 256 ∷ v / 2 ^ 24 % 256 ∷ []
memory32 big v = v / 2 ^ 24 % 256 ∷ v / 2 ^ 16 % 256 ∷ v / 2 ^ 8 % 256 ∷ v % 256 ∷ []

-- (p[1] << 0) | (p[0] << 8): the bytes do not overlap, so `|` is `+`.
shifted16 : List ℕ → ℕ
shifted16 (p0 ∷ p1 ∷ _) = p1 + p0 * 2 ^ 8
shifted16 _ = 0

shifted32 : List ℕ → ℕ
shifted32 (p0 ∷ p1 ∷ p2 ∷ p3 ∷ _) = p3 + p2 * 2 ^ 8 + p1 * 2 ^ 16 + p0 * 2 ^ 24
shifted32 _ = 0

-- *(uint16_t*)p
native16 : Host → List ℕ → ℕ
native16 little (p0 ∷ p1 ∷ _) = p0 + p1 * 2 ^ 8
native16 big (p0 ∷ p1 ∷ _) = p1 + p0 * 2 ^ 8
native16 _ _ = 0

native32 : Host → List ℕ → ℕ
native32 little (p0 ∷ p1 ∷ p2 ∷ p3 ∷ _) = p0 + p1 * 2 ^ 8 + p2 * 2 ^ 16 + p3 * 2 ^ 24
native32 big (p0 ∷ p1 ∷ p2 ∷ p3 ∷ _) = p3 + p2 * 2 ^ 8 + p1 * 2 ^ 16 + p0 * 2 ^ 24
native32 _ _ = 0

-- What `AppBuffer` stores for a word: with the flag set its bytes are exchanged by the shifts.
unfoldable pub stored16 : Host → Bool → ℕ → List ℕ
unfolding memory16 shifted16
stored16 host flag v = memory16 host (if flag then shifted16 (memory16 host v) else v)

unfoldable pub stored32 : Host → Bool → ℕ → List ℕ
unfolding memory32 shifted32
stored32 host flag v = memory32 host (if flag then shifted32 (memory32 host v) else v)

-- What `AppBuffer` makes of the bytes that it reads.
unfoldable pub loaded16 : Host → Bool → List ℕ → ℕ
unfolding native16 shifted16
loaded16 host flag bytes = if flag then shifted16 bytes else native16 host bytes

unfoldable pub loaded32 : Host → Bool → List ℕ → ℕ
unfolding native32 shifted32
loaded32 host flag bytes = if flag then shifted32 bytes else native32 host bytes
