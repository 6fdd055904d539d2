-- ===== src/Words/Laws.antt =====
-- Byte orders: what is stored is read back, and with the flag set it is in network order.
use geoff.Prelude.{
  ℕ, ◌/◌, ◌%◌, ◌^◌, ◌<◌, ◌≡◌, refl, Bool, true, false, List, [], ◌∷◌, length, arith,
}
use geoff.Words.{Host, little, big, u16_mod, u32_mod, stored16, stored32, loaded16, loaded32}

pub loaded16-stored16 :
    (host : Host) (flag : Bool) (v : ℕ)
    → v < u16_mod
    → loaded16 host flag (stored16 host flag v) ≡ v
unfolding stored16 loaded16
loaded16-stored16 little true v h = omega arith
loaded16-stored16 little false v h = omega arith
loaded16-stored16 big true v h = omega arith
loaded16-stored16 big false v h = omega arith

pub loaded32-stored32 :
    (host : Host) (flag : Bool) (v : ℕ)
    → v < u32_mod
    → loaded32 host flag (stored32 host flag v) ≡ v
unfolding stored32 loaded32
loaded32-stored32 little true v h = omega arith
loaded32-stored32 little false v h = omega arith
loaded32-stored32 big true v h = omega arith
loaded32-stored32 big false v h = omega arith

pub length-stored16 : (host : Host) (flag : Bool) (v : ℕ) → length (stored16 host flag v) ≡ 2
unfolding stored16
length-stored16 little flag v = refl
length-stored16 big flag v = refl

pub length-stored32 : (host : Host) (flag : Bool) (v : ℕ) → length (stored32 host flag v) ≡ 4
unfolding stored32
length-stored32 little flag v = refl
length-stored32 big flag v = refl

-- Network order, the higher byte first.
abbrev pub network16 : ℕ → List ℕ
network16 v = v / 256 % 256 ∷ v % 256 ∷ []

abbrev pub network32 : ℕ → List ℕ
network32 v = v / 2 ^ 24 % 256 ∷ v / 2 ^ 16 % 256 ∷ v / 2 ^ 8 % 256 ∷ v % 256 ∷ []

pub stored16_network : (host : Host) (v : ℕ) → stored16 host true v ≡ network16 v
unfolding stored16
stored16_network little v = ground arith
stored16_network big v = ground arith

pub stored32_network : (host : Host) (v : ℕ) → stored32 host true v ≡ network32 v
unfolding stored32
stored32_network little v = ground arith
stored32_network big v = ground arith
