-- ===== src/Fraction/Order.antt =====
-- The order that the comparisons of include/fraction.h make of the fractions with positive bottoms.
use mathlib.Core.Option.{some-injective}
use custom_database.Base.{ℕ, ◌+◌, ◌*◌, ◌<◌, ◌≡◌, sym, ap, ◌∙◌, Bool, true, false, some, arith, ltb}
use custom_database.Fraction.{ℤ, pos, negsuc, pos_part, neg_part, ◌*ℤ◌, ltb_ℤ, Fraction, less}
use custom_database.Fraction.Exact.{IsIntFraction, less-exact}

scaled : (x y d : ℕ) → 0 < d → x < y → x * d < y * d
scaled x y d h k = grind arith

unscaled : (x y d : ℕ) → x * d < y * d → x < y
unscaled x y d h = grind arith

cross_trans :
    (p n p' n' p'' n'' d d' d'' : ℕ)
    → 0 < d
    → 0 < d''
    → p * d' + n' * d < p' * d + n * d'
    → p' * d'' + n'' * d' < p'' * d' + n' * d''
    → p * d'' + n'' * d < p'' * d + n * d''
cross_trans p n p' n' p'' n'' d d' d'' q q'' h k =
    unscaled (p * d'' + n'' * d) (p'' * d + n * d'') d' (
      omega (
        arith,
        scaled (p * d' + n' * d) (p' * d + n * d') d'' q'' h,
        scaled (p' * d'' + n'' * d') (p'' * d' + n' * d'') d q k,
      ))

-- The bottom is positive.
abbrev pub IsPositive : Fraction → Type 0
IsPositive a = 0 < pos_part a.bottom

-- The two sides of a / b < c / d with what is negative on the other side.
abbrev left_side : Fraction → Fraction → ℕ
left_side a b = pos_part a.top * pos_part b.bottom + neg_part b.top * pos_part a.bottom

abbrev right_side : Fraction → Fraction → ℕ
right_side a b = pos_part b.top * pos_part a.bottom + neg_part a.top * pos_part b.bottom

ltb_ℤ-cross :
    (x d y e : ℤ)
    → 0 < pos_part d
    → 0 < pos_part e
    → ltb_ℤ (x *ℤ e) (y *ℤ d)
      ≡ ltb
          (pos_part x * pos_part e + neg_part y * pos_part d)
          (pos_part y * pos_part d + neg_part x * pos_part e)
unfolding ◌*ℤ◌
ltb_ℤ-cross x (negsuc d) y e h k = absurd (omega arith)
ltb_ℤ-cross x (pos d) y (negsuc e) h k = absurd (omega arith)
ltb_ℤ-cross (pos x) (pos d) (pos y) (pos e) h k = ground arith
ltb_ℤ-cross (pos x) (pos d) (negsuc y) (pos e) h k = ground arith
ltb_ℤ-cross (negsuc x) (pos d) (pos y) (pos e) h k = ground arith
ltb_ℤ-cross (negsuc x) (pos d) (negsuc y) (pos e) h k = ground arith

less-cross :
    (a b : Fraction)
    → IsIntFraction a
    → IsIntFraction b
    → IsPositive a
    → IsPositive b
    → less a b ≡ some (ltb (left_side a b) (right_side a b))
less-cross a b h k p q =
    (less-exact a b h k).0 ∙ ap some (ltb_ℤ-cross a.top a.bottom b.top b.bottom p q)

holds : (a b : Fraction) {x y : Bool} → less a b ≡ some x → less a b ≡ some y → x ≡ y
holds a b e f = some-injective _ _ (sym e ∙ f)

-- Among fractions of `int`s with positive bottoms `<` always has a result, no fraction is less than
-- itself, and `<` is transitive.
pub less-order :
    (a b c : Fraction)
    → IsIntFraction a
    → IsIntFraction b
    → IsIntFraction c
    → IsPositive a
    → IsPositive b
    → IsPositive c
    → (less a a ≡ some false) × (less a b ≡ some true → less b c ≡ some true → less a c ≡ some true)
less-order a b c ha hb hc pa pb pc =
    let ab = less-cross a b ha hb pa pb in
    let bc = less-cross b c hb hc pb pc in
    (
      less-cross a a ha ha pa pa ∙ ap some (ground arith),
      λ e f.
          less-cross a c ha hc pa pc
          ∙ ap some (
              ground (
                arith,
                holds a b ab e,
                holds b c bc f,
                cross_trans (pos_part a.top) (neg_part a.top) (pos_part b.top) (neg_part b.top)
                    (pos_part c.top) (neg_part c.top) (pos_part a.bottom) (pos_part b.bottom)
                    (pos_part c.bottom) pa pc,
              )),
    )
