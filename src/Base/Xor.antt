-- ===== src/Base/Xor.antt =====
-- Exclusive or by digits, and numbers that agree in their lowest digits.
use Prim.Native.Nat.{
  ℕ, zero, suc, ◌+◌, ◌*◌, ◌/◌, ◌%◌, ◌≤◌, ◌<◌, bit_xor, digits, bit_xor-bitwise, differ,
}
use mathlib.Core.Path.{◌≡◌, refl, sym, ◌∙◌, subst}
use native.Mathlib.Omega.{arith}

abbrev xor_digits : ℕ → ℕ → ℕ → ℕ
xor_digits n a b = digits (λ b. b) differ n a b

xor_digits_fuel : (n k a b : ℕ) → a ≤ n → a ≤ k → xor_digits n a b ≡ xor_digits k a b
xor_digits_fuel zero zero a b p q = refl
xor_digits_fuel zero (suc k) zero b p q = refl
xor_digits_fuel zero (suc k) (suc a) b p q = absurd (omega arith)
xor_digits_fuel (suc n) zero zero b p q = refl
xor_digits_fuel (suc n) zero (suc a) b p q = absurd (omega arith)
xor_digits_fuel (suc n) (suc k) zero b p q = refl
xor_digits_fuel (suc n) (suc k) (suc a) b p q =
    omega (arith, xor_digits_fuel n k (suc a / 2) (b / 2) (omega arith) (omega arith))

zero-bit_xor : (b : ℕ) → bit_xor 0 b ≡ b
zero-bit_xor b = bit_xor-bitwise 0 b

pub bit_xor_step : (a b : ℕ) → bit_xor a b ≡ bit_xor (a / 2) (b / 2) * 2 + differ (a % 2) (b % 2)
bit_xor_step zero b = omega (arith, zero-bit_xor b, zero-bit_xor (b / 2))
bit_xor_step (suc a) b = omega (
  arith,
  bit_xor-bitwise (suc a) b,
  bit_xor-bitwise (suc a / 2) (b / 2),
  xor_digits_fuel a (suc a / 2) (suc a / 2) (b / 2) (omega arith) (omega arith),
)

-- The lowest `k` binary digits are the same.
abbrev pub Agree : ℕ → ℕ → ℕ → Type 0
Agree zero a b = Unit {0}
Agree (suc k) a b = (a % 2 ≡ b % 2) × Agree k (a / 2) (b / 2)

differ-lt : (a b : ℕ) → a < 2 → b < 2 → differ a b < 2
differ-lt zero b h k = k
differ-lt (suc a) zero h k = h
differ-lt (suc a) (suc b) h k = differ-lt a b (omega arith) (omega arith)

xor_low : (a b : ℕ) → bit_xor a b % 2 ≡ differ (a % 2) (b % 2)
xor_low a b = omega (arith, bit_xor_step a b, differ-lt (a % 2) (b % 2) (omega arith) (omega arith))

xor_high : (a b : ℕ) → bit_xor a b / 2 ≡ bit_xor (a / 2) (b / 2)
xor_high a b =
    omega (arith, bit_xor_step a b, differ-lt (a % 2) (b % 2) (omega arith) (omega arith))

pub Agree-bit_xor : (k a a' b : ℕ) → Agree k a a' → Agree k (bit_xor a b) (bit_xor a' b)
Agree-bit_xor zero a a' b h = tt
Agree-bit_xor (suc k) a a' b h = (
  cc (xor_low a b, xor_low a' b),
  rw (xor_high a b, xor_high a' b) (Agree-bit_xor k (a / 2) (a' / 2) (b / 2) h.1),
)

pub Agree-refl : (k a : ℕ) → Agree k a a
Agree-refl zero a = tt
Agree-refl (suc k) a = (refl, Agree-refl k (a / 2))

pub Agree-sym : (k a b : ℕ) → Agree k a b → Agree k b a
Agree-sym zero a b h = tt
Agree-sym (suc k) a b h = (sym h.0, Agree-sym k (a / 2) (b / 2) h.1)

pub Agree-trans : (k a b c : ℕ) → Agree k a b → Agree k b c → Agree k a c
Agree-trans zero a b c h j = tt
Agree-trans (suc k) a b c h j = (h.0 ∙ j.0, Agree-trans k (a / 2) (b / 2) (c / 2) h.1 j.1)

pub Agree-le : (j k a b : ℕ) → j ≤ k → Agree k a b → Agree j a b
Agree-le zero k a b l h = tt
Agree-le (suc j) zero a b l h = absurd (omega arith)
Agree-le (suc j) (suc k) a b l h = (h.0, Agree-le j k (a / 2) (b / 2) (omega arith) h.1)

pub Agree-double : (k a b : ℕ) → Agree k a b → Agree (suc k) (a * 2) (b * 2)
Agree-double k a b h =
    let half : (x : ℕ) → x * 2 / 2 ≡ x = λ x. omega arith in (omega arith, rw (half a, half b) h)

-- `m` times 2 to the power of `k`.
pub scale : ℕ → ℕ → ℕ
scale zero m = m
scale (suc k) m = 2 * scale k m

scale-mul : (k m : ℕ) → scale k m ≡ scale k 1 * m
unfolding scale
scale-mul zero m = omega arith
scale-mul (suc k) m = omega (arith, scale-mul k m)

Agree-add_scale : (k x m : ℕ) → Agree k (x + scale k m) x
unfolding scale
Agree-add_scale zero x m = tt
Agree-add_scale (suc k) x m =
    let half : (x + 2 * scale k m) / 2 ≡ x / 2 + scale k m = omega arith in
    (omega arith, rw half (Agree-add_scale k (x / 2) m))

scale-word : scale 32 1 ≡ 4294967296
unfolding scale
scale-word = refl

pub Agree-word : (x : ℕ) → Agree 32 x (x % 4294967296)
unfolding scale
Agree-word x =
    let e : x ≡ x % 4294967296 + scale 32 (x / 4294967296) =
      omega (arith, scale-mul 32 (x / 4294967296), scale-word) in
    subst (λ y. Agree 32 y (x % 4294967296)) (sym e)
      (Agree-add_scale 32 (x % 4294967296) (x / 4294967296))

Agree-eq_of_lt : (k a b : ℕ) → Agree k a b → a < scale k 1 → b < scale k 1 → a ≡ b
unfolding scale
Agree-eq_of_lt zero a b h p q = omega arith
Agree-eq_of_lt (suc k) a b h p q =
    omega (arith, Agree-eq_of_lt k (a / 2) (b / 2) h.1 (omega arith) (omega arith))

pub Agree-word_eq : (a b : ℕ) → Agree 32 a b → a < 4294967296 → b < 4294967296 → a ≡ b
Agree-word_eq a b h p q = Agree-eq_of_lt 32 a b h (rw scale-word p) (rw scale-word q)

bit_xor-lt_scale : (k a b : ℕ) → a < scale k 1 → b < scale k 1 → bit_xor a b < scale k 1
unfolding scale
bit_xor-lt_scale zero a b p q =
    let ea : a ≡ 0 = omega arith in let eb : b ≡ 0 = omega arith in rw (ea, eb) (omega arith)
bit_xor-lt_scale (suc k) a b p q = omega (
  arith,
  bit_xor_step a b,
  differ-lt (a % 2) (b % 2) (omega arith) (omega arith),
  bit_xor-lt_scale k (a / 2) (b / 2) (omega arith) (omega arith),
)

pub bit_xor-lt_word : (a b : ℕ) → a < 4294967296 → b < 4294967296 → bit_xor a b < 4294967296
bit_xor-lt_word a b p q =
    rw (← scale-word) (bit_xor-lt_scale 32 a b (rw scale-word p) (rw scale-word q))
