-- ===== src/Http/Text.antt =====
-- Texts as lists of bytes, and the string functions that lib/src/ServerUtils.cpp and
-- lib/inc/handle_request.h use.
use Prim.Native.Char.{code}
use Prim.Native.String.{String}
use geoff.Prelude.{
  ℕ, zero, suc, ◌≡◌, refl, Bool, true, false, ◌&&◌, ◌||◌, List, [], ◌∷◌, ◌++◌, Option, none, some,
  arith, ◌==◌, if◌then◌else◌,
}

abbrev pub Text : Type 0
Text = List ℕ

-- A literal of the source. `String` has its own `[]` and `∷`.
abbrev pub codes : String → Text
codes String.[] = []
codes (String.◌∷◌ c s) = code c ∷ codes s

-- s.back() == c, which the source asks of a text that is not empty.
abbrev pub ends_with : ℕ → Text → Bool
ends_with c [] = false
ends_with c (x ∷ []) = x == c
ends_with c (x ∷ y ∷ s) = ends_with c (y ∷ s)

-- s.resize(s.size() - 1), for a text that is not empty.
abbrev pub drop_last : Text → Text
drop_last [] = []
drop_last (x ∷ []) = []
drop_last (x ∷ y ∷ s) = x ∷ drop_last (y ∷ s)

abbrev pub starts_with : Text → Text → Bool
starts_with [] s = true
starts_with (p ∷ ps) [] = false
starts_with (p ∷ ps) (c ∷ s) = p == c && starts_with ps s

-- s.find(needle) != npos
abbrev pub contains : Text → Text → Bool
contains needle [] = starts_with needle []
contains needle (c ∷ s) = starts_with needle (c ∷ s) || contains needle s

-- s.rfind(c), where `none` is npos.
unfoldable pub rfind : ℕ → Text → Option ℕ
rfind c [] = none
rfind c (x ∷ s) = elim (rfind c s) [
  | some i ↦ some (suc i)
  | none ↦ if x == c then some 0 else none
]

-- s.substr(pos), where pos is a position in the text.
unfoldable pub substr : ℕ → Text → Text
substr zero s = s
substr (suc pos) [] = []
substr (suc pos) (x ∷ s) = substr pos s

pub ends_with-append : (c x : ℕ) (s t : Text) → ends_with c (s ++ (x ∷ t)) ≡ ends_with c (x ∷ t)
ends_with-append c x [] t = refl
ends_with-append c x (y ∷ []) t = refl
ends_with-append c x (y ∷ z ∷ s) t = ends_with-append c x (z ∷ s) t

pub drop_last-append : (x : ℕ) (s : Text) → drop_last (s ++ (x ∷ [])) ≡ s
drop_last-append x [] = refl
drop_last-append x (y ∷ []) = refl
drop_last-append x (y ∷ z ∷ s) = cc (drop_last-append x (z ∷ s))

pub rfind-none : (c : ℕ) (s : Text) → contains (c ∷ []) s ≡ false → rfind c s ≡ none
unfolding rfind
rfind-none c [] h = refl
rfind-none c (x ∷ s) h = ground (arith, rfind-none c s)

pub substr-rfind :
    (c : ℕ) (s t : Text)
    → contains (c ∷ []) t ≡ false
    → (i : ℕ) × (rfind c (s ++ (c ∷ t)) ≡ some i) × (substr i (s ++ (c ∷ t)) ≡ c ∷ t)
unfolding rfind substr
substr-rfind c [] t h = (0, ground (arith, rfind-none c t h), refl)
substr-rfind c (x ∷ s) t h =
    let (i, found, rest) = substr-rfind c s t h in (suc i, rw found refl, rest)
