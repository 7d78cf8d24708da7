-- ===== src/Fraction/Exact.antt =====
-- Where the comparisons of include/fraction.h are those of the exact products.
use mathlib.Core.Option.{some-injective}
use custom_database.Base.{
  ℕ, suc, ◌*◌, ◌≤◌, ◌<◌, ◌≡◌, refl, sym, ap, ◌∙◌, ◌↔◌, ◌⊎◌, inl, inr, false, none, Bool, true,
  Option, some, arith, if◌then◌else◌,
}
use custom_database.Fraction.{
  ℤ, pos, negsuc, pos_part, neg_part, ◌*ℤ◌, ltb_ℤ, eqb_ℤ, int_half, long_long_half, fits, Fraction,
  product, compared, less, greater, equal,
}

-- A value of `int`.
pub record IsInt (x : ℤ) : Type 0 where
  pub pos_upper : pos_part x < int_half
  pub neg_upper : neg_part x ≤ int_half

pub record IsIntFraction (a : Fraction) : Type 0 where
  pub top_int : IsInt a.top
  pub bottom_int : IsInt a.bottom

mul_upper : (a b : ℕ) → a ≤ int_half → b ≤ int_half → a * b ≤ int_half * int_half
mul_upper a b h k = grind arith

pub product-exact : (a b : ℤ) → IsInt a → IsInt b → product long_long_half a b ≡ some (a *ℤ b)
unfolding product ◌*ℤ◌
product-exact (pos m) (pos n) h k =
    ground (arith, mul_upper m n (omega (arith, h.pos_upper)) (omega (arith, k.pos_upper)))
product-exact (pos m) (negsuc n) h k =
    ground (arith, mul_upper m (suc n) (omega (arith, h.pos_upper)) (omega (arith, k.neg_upper)))
product-exact (negsuc m) (pos n) h k =
    ground (arith, mul_upper (suc m) n (omega (arith, h.neg_upper)) (omega (arith, k.pos_upper)))
product-exact (negsuc m) (negsuc n) h k =
    ground
      (arith, mul_upper (suc m) (suc n) (omega (arith, h.neg_upper)) (omega (arith, k.neg_upper)))

-- The comparisons `<` and `>` of two fractions, whatever their fields, never overflow: both compare the exact products.
pub less-exact :
    (a b : Fraction)
    → IsIntFraction a
    → IsIntFraction b
    → (less a b ≡ some (ltb_ℤ (a.top *ℤ b.bottom) (b.top *ℤ a.bottom)))
      × (greater a b ≡ some (ltb_ℤ (b.top *ℤ a.bottom) (a.top *ℤ b.bottom)))
unfolding less greater compared
less-exact a b h k =
    let p = product-exact a.top b.bottom h.top_int k.bottom_int in
    let q = product-exact b.top a.bottom k.top_int h.bottom_int in (rw (p, q), rw (p, q))

*ℤ_comm : (a b : ℤ) → a *ℤ b ≡ b *ℤ a
unfolding ◌*ℤ◌
*ℤ_comm a b = ground arith

compared-exact :
    (p q : Bool) (x y : ℤ) {r : Bool}
    → compared eqb_ℤ (if p then some x else none) (if q then some y else none) ≡ some r
    → r ≡ eqb_ℤ x y
unfolding compared
compared-exact true true x y e = some-injective _ _ (sym e)
compared-exact true false x y e = absurd (cc)
compared-exact false q x y e = absurd (cc)

equal-exact :
    (a b : Fraction) {r : Bool}
    → equal a b ≡ some r
    → r ≡ eqb_ℤ (a.top *ℤ b.bottom) (b.top *ℤ a.bottom)
unfolding equal product
equal-exact a b e =
    compared-exact (fits int_half (a.top *ℤ b.bottom)) (fits int_half (a.bottom *ℤ b.top)) _ _ e
    ∙ ap (eqb_ℤ (a.top *ℤ b.bottom)) (*ℤ_comm a.bottom b.top)

refuses :
    (p : Bool)
    → p ≡ false
    → (x : ℤ) (o : Option ℤ) → compared eqb_ℤ (if p then some x else none) o ≡ none
unfolding compared
refuses true e x o = absurd (cc)
refuses false e x o = refl

refuses_right :
    (o : Option ℤ) (q : Bool)
    → q ≡ false
    → (y : ℤ) → compared eqb_ℤ o (if q then some y else none) ≡ none
unfolding compared
refuses_right none q e y = refl
refuses_right (some x) true e y = absurd (cc)
refuses_right (some x) false e y = refl

-- Of fractions whose fields are values of `int`: where `==` has a result, that is true exactly if
-- neither is less than the other; where one of the two products of a top and the other bottom is no
-- value of `int`, `==` has no result, while `<` has one, which compares the exact products.
pub equal-less :
    (a b : Fraction)
    → IsIntFraction a
    → IsIntFraction b
    → ((r : Bool)
        → equal a b ≡ some r
        → r ≡ true ↔ (less a b ≡ some false) × (less b a ≡ some false))
      × ((fits int_half (a.top *ℤ b.bottom) ≡ false) ⊎ (fits int_half (a.bottom *ℤ b.top) ≡ false)
          → (equal a b ≡ none) × (less a b ≡ some (ltb_ℤ (a.top *ℤ b.bottom) (b.top *ℤ a.bottom))))
unfolding equal product
equal-less a b h k =
    let l = (less-exact a b h k).0 in
    let g = (less-exact b a k h).0 in
    let x = a.top *ℤ b.bottom in
    let z = a.bottom *ℤ b.top in
    let y = b.top *ℤ a.bottom in
    (
      λ r e.
          let exact = equal-exact a b e in
          (
            λ t. (l ∙ ap some (ground (arith, exact, t)), g ∙ ap some (ground (arith, exact, t))),
            λ both.
                exact
                ∙ ground (
                  arith,
                  some-injective _ _ (sym l ∙ both.0),
                  some-injective _ _ (sym g ∙ both.1),
                ),
          ),
      λ big. (
        elim big [
          | inl e ↦ refuses (fits int_half x) e _ (product int_half a.bottom b.top)
          | inr e ↦ refuses_right (product int_half a.top b.bottom) (fits int_half z) e z
        ],
        l,
      ),
    )
