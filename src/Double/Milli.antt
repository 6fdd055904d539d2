-- ===== src/Double/Milli.antt =====
-- Thousandths of a pixel as integers, and a NaN: an instance of the interface on which the
-- definitions run. It stands for no `double`; the theorems hold for any instance.
use geoff.Prelude.{
  ℕ, zero, suc, ◌+◌, ◌-◌, ◌*◌, ◌/◌, ◌%◌, ◌^◌, Bool, false, Option, none, some, arith, leb, ltb,
  if◌then◌else◌, ◌==◌,
}
use geoff.Prelude.Int.{ℤ, pos, negsuc, pos_part, neg_part, sub_ℕ, ◌+ℤ◌, ◌-ℤ◌, ◌*ℤ◌}
use geoff.Double.{Double, IsOrdered}

abbrev pub Milli : Type 0
Milli = Option ℤ

abbrev neg_ℕ : ℕ → ℤ
neg_ℕ n = sub_ℕ 0 n

-- Division that truncates.
unfoldable pub div_ℤ : ℤ → ℕ → ℤ
div_ℤ a n = sub_ℕ (pos_part a / n) (neg_part a / n)

unfoldable pub lift2 : (ℤ → ℤ → ℤ) → Milli → Milli → Milli
lift2 f (some a) (some b) = some (f a b)
lift2 f _ _ = none

unfoldable pub quotient : ℤ → ℤ → ℤ
unfolding div_ℤ ◌*ℤ◌
quotient a (pos n) = div_ℤ (a *ℤ pos 1000) n
quotient a (negsuc n) = div_ℤ (a *ℤ negsuc 999) (suc n)

-- The root of n, rounded down, from that of n / 4.
isqrt : ℕ → ℕ → ℕ
isqrt zero n = 0
isqrt (suc fuel) n =
    let r = 2 * isqrt fuel (n / 4) in if leb ((r + 1) * (r + 1)) n then r + 1 else r

unfoldable pub power : ℤ → ℕ → ℤ
unfolding div_ℤ ◌*ℤ◌
power a zero = pos 1000
power a (suc k) = div_ℤ (a *ℤ power a k) 1000

unfoldable pub word : Milli → ℕ
word none = 0
word (some a) = (pos_part a / 1000 + 2 ^ 16 - neg_part a / 1000 % 2 ^ 16) % 2 ^ 16

abbrev on_numbers : (ℕ → ℕ → Bool) → Milli → Milli → Bool
on_numbers f (some a) (some b) = f (pos_part a + neg_part b) (pos_part b + neg_part a)
on_numbers f _ _ = false

-- A heading is either 0 or a quarter turn.
unfoldable pub cosine : Milli → Milli
cosine none = none
cosine (some a) = some (if pos_part a == 0 then pos 1000 else pos 0)

unfoldable pub sine : Milli → Milli
sine none = none
sine (some a) = some (if pos_part a == 0 then pos 0 else pos 1000)

unfoldable pub root : Milli → Milli
unfolding isqrt
root none = none
root (some a) = some (pos (isqrt 64 (pos_part a * 1000)))

instance abbrev pub milli_double : Double Milli
milli_double = record {
  of_nat = λ n. some (pos (n * 1000));
  dbl = λ n k. some (pos (n * 1000 / 10 ^ k));
  flt = λ n k. some (pos (n * 1000 / 10 ^ k));
  add = lift2 ◌+ℤ◌;
  sub = lift2 ◌-ℤ◌;
  mul = lift2 (λ a b. div_ℤ (a *ℤ b) 1000);
  div = lift2 quotient;
  neg = lift2 (λ a b. a -ℤ b) (some (pos 0));
  cos = cosine;
  sin = sine;
  sqrt = root;
  pow = λ x k. elim x [ none ↦ none | some a ↦ some (power a k) ];
  lt = on_numbers ltb;
  le = on_numbers leb;
  to_u16 = word;
  to_i16 = word;
  to_int = λ x. elim x [ none ↦ 0 | some a ↦ pos_part a / 1000 ];
}

pub Milli-IsOrdered : IsOrdered Milli
Milli-IsOrdered = ground arith
