-- ===== src/Fraction.antt =====
-- include/fraction.h: a fraction of two `int`s, compared by cross-multiplication. `int` has 32 bits
-- and `long long` 64; a product that does not fit its type is undefined, which is `none` here.
pub mod Exact
pub mod Order
use custom_database.Base.{
  ℕ, suc, ◌+◌, ◌-◌, ◌*◌, ◌≤◌, ◌<◌, Bool, not, ◌&&◌, Option, none, some, ltb, leb, ◌==◌,
  if◌then◌else◌,
}

-- `negsuc n` is -(n + 1).
pub data ℤ : Type 0 where
  pos negsuc : ℕ → ℤ

abbrev pub pos_part : ℤ → ℕ
pos_part (pos n) = n
pos_part (negsuc n) = 0

abbrev pub neg_part : ℤ → ℕ
neg_part (pos n) = 0
neg_part (negsuc n) = suc n

abbrev pub sub_ℕ : ℕ → ℕ → ℤ
sub_ℕ a b = if leb b a then pos (a - b) else negsuc (b - a - 1)

-- The exact product and comparisons.
infixl 70 ◌*ℤ◌
unfoldable pub ◌*ℤ◌ : ℤ → ℤ → ℤ
a *ℤ b =
    sub_ℕ (pos_part a * pos_part b + neg_part a * neg_part b)
      (pos_part a * neg_part b + neg_part a * pos_part b)

abbrev pub ltb_ℤ : ℤ → ℤ → Bool
ltb_ℤ a b = ltb (pos_part a + neg_part b) (pos_part b + neg_part a)

abbrev pub eqb_ℤ : ℤ → ℤ → Bool
eqb_ℤ a b = pos_part a + neg_part b == pos_part b + neg_part a

-- 2 ^ 31 and 2 ^ 63: a signed type holds the numbers from minus this one up to it.
abbrev pub int_half : ℕ
int_half = 2147483648

abbrev pub long_long_half : ℕ
long_long_half = 9223372036854775808

abbrev pub fits : ℕ → ℤ → Bool
fits half x = ltb (pos_part x) half && leb (neg_part x) half

pub record Fraction : Type 0 where
  pub top : ℤ
  pub bottom : ℤ

-- The product in a type of this half.
unfoldable pub product : ℕ → ℤ → ℤ → Option ℤ
product half a b = if fits half (a *ℤ b) then some (a *ℤ b) else none

-- Two operands that are computed first.
unfoldable pub compared : (ℤ → ℤ → Bool) → Option ℤ → Option ℤ → Option Bool
compared f (some x) (some y) = some (f x y)
compared f _ _ = none

-- operator<, operator>, operator== and operator!=
unfoldable pub less : Fraction → Fraction → Option Bool
less a b =
    compared ltb_ℤ (product long_long_half a.top b.bottom) (product long_long_half b.top a.bottom)

unfoldable pub greater : Fraction → Fraction → Option Bool
greater a b =
    compared (λ x y. ltb_ℤ y x) (product long_long_half a.top b.bottom)
      (product long_long_half b.top a.bottom)

unfoldable pub equal : Fraction → Fraction → Option Bool
equal a b = compared eqb_ℤ (product int_half a.top b.bottom) (product int_half a.bottom b.top)

unfoldable pub unequal : Fraction → Fraction → Option Bool
unequal a b = elim (equal a b) [ none ↦ none | some e ↦ some (not e) ]
