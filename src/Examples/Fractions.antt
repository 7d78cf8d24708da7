-- ===== src/Examples/Fractions.antt =====
-- Examples of the fractions: a third and a half, and two whose products need more than 32 bits.
use custom_database.Base.{ℕ, ◌≤◌, ◌≡◌, ◌↔◌, ◌⊎◌, Bool, true, false, none, some, arith}
use custom_database.Fraction.{pos, ◌*ℤ◌, ltb_ℤ, int_half, fits, Fraction, less, greater, equal}
use custom_database.Fraction.Exact.{IsIntFraction, less-exact, equal-less}

abbrev over : ℕ → ℕ → Fraction
over a b = record { top = pos a; bottom = pos b }

over-IsIntFraction : (a b : ℕ) → a ≤ 65536 → b ≤ 65536 → IsIntFraction (over a b)
over-IsIntFraction a b h k = record {
  top_int = record { pos_upper = omega arith; neg_upper = omega arith };
  bottom_int = record { pos_upper = omega arith; neg_upper = omega arith };
}

less-exact_example :
    (less (over 1 3) (over 1 2) ≡ some (ltb_ℤ (pos 1 *ℤ pos 2) (pos 1 *ℤ pos 3)))
    × (greater (over 1 3) (over 1 2) ≡ some (ltb_ℤ (pos 1 *ℤ pos 3) (pos 1 *ℤ pos 2)))
less-exact_example =
    less-exact (over 1 3) (over 1 2) (over-IsIntFraction 1 3 (omega arith) (omega arith))
      (over-IsIntFraction 1 2 (omega arith) (omega arith))

equal-less_example :
    ((r : Bool)
      → equal (over 65536 1) (over 1 65536) ≡ some r
      → r ≡ true
        ↔ (less (over 65536 1) (over 1 65536) ≡ some false)
          × (less (over 1 65536) (over 65536 1) ≡ some false))
    × ((fits int_half (pos 65536 *ℤ pos 65536) ≡ false) ⊎ (fits int_half (pos 1 *ℤ pos 1) ≡ false)
        → (equal (over 65536 1) (over 1 65536) ≡ none)
          × (less (over 65536 1) (over 1 65536)
              ≡ some (ltb_ℤ (pos 65536 *ℤ pos 65536) (pos 1 *ℤ pos 1))))
equal-less_example =
    equal-less (over 65536 1) (over 1 65536)
      (over-IsIntFraction 65536 1 (omega arith) (omega arith))
      (over-IsIntFraction 1 65536 (omega arith) (omega arith))
