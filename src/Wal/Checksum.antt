-- ===== src/Wal/Checksum.antt =====
-- What calculateChecksum can tell apart. It shifts by one bit for each byte, in 32 bits.
use Prim.Native.Nat.{bit_xor}
use custom_database.Base.{
  ℕ, suc, ◌+◌, ◌*◌, ◌%◌, ◌≤◌, ◌<◌, ◌≡◌, refl, List, [], ◌∷◌, ◌++◌, length, All, arith, dec_lt,
}
use custom_database.Base.Xor.{
  Agree, Agree-bit_xor, Agree-trans, Agree-sym, Agree-le, Agree-double, Agree-word, Agree-word_eq,
  bit_xor-lt_word,
}
use custom_database.Wal.{checksum_from, calculate_checksum, u32_mod}

abbrev pub IsByte : ℕ → Type 0
IsByte b = b < 256

next_lt : (c b : ℕ) → IsByte b → bit_xor (c * 2 % u32_mod) b < u32_mod
next_lt c b h = bit_xor-lt_word (c * 2 % u32_mod) b (omega arith) (omega arith)

checksum_from-lt :
    (c : ℕ) (bs : List ℕ) → c < u32_mod → All IsByte bs → checksum_from c bs < u32_mod
unfolding checksum_from
checksum_from-lt c [] h all = h
checksum_from-lt c (b ∷ bs) h all =
    checksum_from-lt (bit_xor (c * 2 % u32_mod) b) bs (next_lt c b all.0) all.1

-- A step makes the sums agree in one more bit.
next_Agree :
    (j k c d b : ℕ)
    → Agree k c d
    → j ≤ suc k
    → j ≤ 32
    → Agree j (bit_xor (c * 2 % u32_mod) b) (bit_xor (d * 2 % u32_mod) b)
next_Agree j k c d b h l w =
    let word = λ (x : ℕ). Agree-le j 32 (x * 2) (x * 2 % u32_mod) w (Agree-word (x * 2)) in
    let doubled = Agree-le j (suc k) (c * 2) (d * 2) l (Agree-double k c d h) in
    Agree-bit_xor j _ _ b (
      Agree-trans j _ (c * 2) _ (Agree-sym j (c * 2) _ (word c))
        (Agree-trans j (c * 2) (d * 2) _ doubled (word d)))

forget :
    (bs : List ℕ) (k c d : ℕ)
    → Agree k c d
    → k ≤ 32
    → 32 ≤ k + length bs
    → Agree 32 (checksum_from c bs) (checksum_from d bs)
unfolding checksum_from
forget [] k c d h l m = Agree-le 32 k c d (omega arith) h
forget (b ∷ bs) k c d h l m = elim (dec_lt k 32) [
  | yes p ↦
      forget bs (suc k) (bit_xor (c * 2 % u32_mod) b) (bit_xor (d * 2 % u32_mod) b)
        (next_Agree (suc k) k c d b h (omega arith) p) p (omega arith)
  | no p ↦
      forget bs k (bit_xor (c * 2 % u32_mod) b) (bit_xor (d * 2 % u32_mod) b)
        (next_Agree k k c d b h (omega arith) l) l (omega arith)
]

checksum_from-append :
    (c : ℕ) (xs ys : List ℕ) → checksum_from c (xs ++ ys) ≡ checksum_from (checksum_from c xs) ys
unfolding checksum_from
checksum_from-append c [] ys = refl
checksum_from-append c (x ∷ xs) ys = checksum_from-append (bit_xor (c * 2 % u32_mod) x) xs ys

-- The checksum of some bytes depends on the last 32 of them alone: whatever stands before those can
-- be changed, shortened or removed, and calculateChecksum returns the same.
pub calculate_checksum-suffix :
    (xs ys zs : List ℕ)
    → All IsByte xs
    → All IsByte ys
    → All IsByte zs
    → 32 ≤ length zs
    → calculate_checksum (xs ++ zs) ≡ calculate_checksum (ys ++ zs)
unfolding calculate_checksum
calculate_checksum-suffix xs ys zs hx hy hz l =
    rw (checksum_from-append 0 xs zs, checksum_from-append 0 ys zs)
      (Agree-word_eq _ _
        (forget zs 0 (checksum_from 0 xs) (checksum_from 0 ys) tt (omega arith) (omega arith))
        (checksum_from-lt _ zs (checksum_from-lt 0 xs (omega arith) hx) hz)
        (checksum_from-lt _ zs (checksum_from-lt 0 ys (omega arith) hy) hz))
