-- ===== src/Base/Count.antt =====
-- How often a number occurs in a list; the list operations of the LRU order, and the keys of an
-- association list, in terms of it.
use Prim.Native.Nat.{ℕ, ◌+◌, ◌-◌, ◌≤◌, min}
use mathlib.Core.Path.{◌≡◌, refl}
use mathlib.Core.Logic.{ite}
use mathlib.Core.List.{List, [], ◌∷◌, map}
use mathlib.Core.Option.{none, some}
use native.Mathlib.Omega.{arith}
use native.Mathlib.Decide.{ℕ_discrete}
use custom_database.Base.Lists.{length}
use custom_database.Base.Assoc.{lookup, insert, erase}

abbrev pub one_if : ℕ → ℕ → ℕ
one_if x q = ite (ℕ_discrete x q) 1 0

abbrev pub count : ℕ → List ℕ → ℕ
count q [] = 0
count q (x ∷ xs) = one_if x q + count q xs

-- `list::erase` of the node that holds `x`.
unfoldable pub remove : ℕ → List ℕ → List ℕ
remove x [] = []
remove x (y ∷ ys) = ite (ℕ_discrete y x) ys (y ∷ remove x ys)

-- `back()` and `pop_back()` of the list `x ∷ xs`.
unfoldable pub back : ℕ → List ℕ → ℕ
back x [] = x
back x (y ∷ ys) = back y ys

unfoldable pub pop_back : ℕ → List ℕ → List ℕ
pop_back x [] = []
pop_back x (y ∷ ys) = x ∷ pop_back y ys

pub count-remove : (q x : ℕ) (xs : List ℕ) → count q (remove x xs) ≡ count q xs - one_if x q
unfolding remove
count-remove q x [] = omega arith
count-remove q x (y ∷ ys) = ground (arith, count-remove q x ys)

pub length-remove : (x : ℕ) (xs : List ℕ) → length (remove x xs) + min 1 (count x xs) ≡ length xs
unfolding remove
length-remove x [] = omega arith
length-remove x (y ∷ ys) = ground (arith, length-remove x ys)

pub count-pop_back :
    (q x : ℕ) (xs : List ℕ) → count q (pop_back x xs) + one_if (back x xs) q ≡ count q (x ∷ xs)
unfolding back pop_back
count-pop_back q x [] = omega arith
count-pop_back q x (y ∷ ys) = omega (arith, count-pop_back q y ys)

pub length-pop_back : (x : ℕ) (xs : List ℕ) → length (pop_back x xs) ≡ length xs
unfolding pop_back
length-pop_back x [] = refl
length-pop_back x (y ∷ ys) = omega (arith, length-pop_back y ys)

module _ {V : Type 0} where
  abbrev pub keys : List (ℕ × V) → List ℕ
  keys = map (λ e. e.0)

  pub count-keys_none :
      (q : ℕ) (m : List (ℕ × V)) → lookup ℕ_discrete q m ≡ none → count q (keys m) ≡ 0
  unfolding lookup
  count-keys_none q [] h = refl
  count-keys_none q ((j, w) ∷ m) h = ground (arith, count-keys_none q m)

  pub count-keys_some :
      (q : ℕ) (m : List (ℕ × V)) {v : V} → lookup ℕ_discrete q m ≡ some v → 1 ≤ count q (keys m)
  unfolding lookup
  count-keys_some q [] {v} h = absurd (cc)
  count-keys_some q ((j, w) ∷ m) {v} h = ground (arith, count-keys_some q m {v = v})

  pub count-keys_insert :
      (q k : ℕ) (v : V) (m : List (ℕ × V))
      → count q (keys (insert ℕ_discrete k v m))
        ≡ count q (keys m) + (one_if k q - min 1 (count k (keys m)))
  unfolding insert
  count-keys_insert q k v [] = omega arith
  count-keys_insert q k v ((j, w) ∷ m) = ground (arith, count-keys_insert q k v m)

  pub length-insert :
      (k : ℕ) (v : V) (m : List (ℕ × V))
      → length (insert ℕ_discrete k v m) ≡ length m + (1 - min 1 (count k (keys m)))
  unfolding insert
  length-insert k v [] = omega arith
  length-insert k v ((j, w) ∷ m) = ground (arith, length-insert k v m)

  pub count-keys_erase :
      (q k : ℕ) (m : List (ℕ × V))
      → count q (keys (erase ℕ_discrete k m)) ≡ ite (ℕ_discrete k q) 0 (count q (keys m))
  unfolding erase
  count-keys_erase q k [] = ground arith
  count-keys_erase q k ((j, w) ∷ m) = ground (arith, count-keys_erase q k m)

  pub length-erase :
      (k : ℕ) (m : List (ℕ × V)) → length (erase ℕ_discrete k m) + count k (keys m) ≡ length m
  unfolding erase
  length-erase k [] = omega arith
  length-erase k ((j, w) ∷ m) = ground (arith, length-erase k m)
