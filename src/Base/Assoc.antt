-- ===== src/Base/Assoc.antt =====
-- Association lists: `find` and `operator[]` of `std::unordered_map` are `lookup` and `insert`,
-- `erase` by a key is `erase`. Used qualified.
use Prim.Native.Nat.{suc, ◌≤◌}
use mathlib.Core.Path.{◌≡◌, refl}
use mathlib.Core.Logic.{◌≢◌, ite}
use mathlib.Core.List.{List, [], ◌∷◌}
use mathlib.Core.Option.{Option, none, some}
use native.Mathlib.Omega.{arith}
use custom_database.Base.Lists.{length}

module _ {ℓ} {K V : Type ℓ} (dec : Discrete K) where
  unfoldable pub lookup : K → List (K × V) → Option V
  lookup k [] = none
  lookup k ((j, v) ∷ m) = ite (dec j k) (some v) (lookup k m)

  unfoldable pub insert : K → V → List (K × V) → List (K × V)
  insert k v [] = (k, v) ∷ []
  insert k v ((j, w) ∷ m) = ite (dec j k) ((k, v) ∷ m) ((j, w) ∷ insert k v m)

  unfoldable pub erase : K → List (K × V) → List (K × V)
  erase k [] = []
  erase k ((j, w) ∷ m) = ite (dec j k) (erase k m) ((j, w) ∷ erase k m)

  pub lookup-insert :
      (k q : K) (v : V) (m : List (K × V))
      → lookup q (insert k v m) ≡ ite (dec k q) (some v) (lookup q m)
  unfolding lookup insert
  lookup-insert k q v [] = refl
  lookup-insert k q v ((j, w) ∷ m) = ground (arith, lookup-insert k q v m)

  pub lookup-erase :
      (k q : K) (m : List (K × V)) → lookup q (erase k m) ≡ ite (dec k q) none (lookup q m)
  unfolding lookup erase
  lookup-erase k q [] = ground arith
  lookup-erase k q ((j, w) ∷ m) = ground (arith, lookup-erase k q m)

  pub lookup-insert_self : (k : K) (v : V) (m : List (K × V)) → lookup k (insert k v m) ≡ some v
  lookup-insert_self k v m = ground (arith, lookup-insert k k v m)

  pub lookup-insert_ne :
      (k q : K) (v : V) (m : List (K × V)) → k ≢ q → lookup q (insert k v m) ≡ lookup q m
  lookup-insert_ne k q v m h = ground (arith, lookup-insert k q v m)

  pub length-insert_new :
      (k : K) (v : V) (m : List (K × V))
      → lookup k m ≡ none
      → length (insert k v m) ≡ suc (length m)
  unfolding lookup insert
  length-insert_new k v [] h = refl
  length-insert_new k v ((j, w) ∷ m) h = ground (arith, length-insert_new k v m)

  pub length-insert_old :
      (k : K) (v w : V) (m : List (K × V)) → lookup k m ≡ some w → length (insert k v m) ≡ length m
  unfolding lookup insert
  length-insert_old k v w [] h = cc
  length-insert_old k v w ((j, u) ∷ m) h = ground (arith, length-insert_old k v w m)

  pub length-insert_upper :
      (k : K) (v : V) (m : List (K × V)) → length (insert k v m) ≤ suc (length m)
  unfolding insert
  length-insert_upper k v [] = omega arith
  length-insert_upper k v ((j, w) ∷ m) = ground (arith, length-insert_upper k v m)

  pub length-insert_again :
      (k : K) (v : V) (m : List (K × V)) {u : V}
      → lookup k m ≡ some u
      → length (insert k v m) ≡ length m
  unfolding lookup insert
  length-insert_again k v [] h = absurd (cc)
  length-insert_again k v ((j, w) ∷ m) {u = u} h = ground (arith, length-insert_again k v m {u = u})

  pub length-erase_upper : (k : K) (m : List (K × V)) → length (erase k m) ≤ length m
  unfolding erase
  length-erase_upper k [] = omega arith
  length-erase_upper k ((j, w) ∷ m) = ground (arith, length-erase_upper k m)

  -- A predicate at every value.
  abbrev pub AllValues : (V → Type 0) → List (K × V) → Type 0
  AllValues P [] = Unit
  AllValues P ((j, w) ∷ m) = P w × AllValues P m

  pub insert-AllValues :
      (P : V → Type 0) (k : K) (v : V) (m : List (K × V))
      → P v
      → AllValues P m
      → AllValues P (insert k v m)
  unfolding insert
  insert-AllValues P k v [] p h = (p, tt)
  insert-AllValues P k v ((j, w) ∷ m) p h = ground (arith, insert-AllValues P k v m p h.1)

  pub lookup-AllValues :
      (P : V → Type 0) (k : K) (m : List (K × V)) {v : V}
      → AllValues P m
      → lookup k m ≡ some v
      → P v
  unfolding lookup
  lookup-AllValues P k [] {v} h e = absurd (cc)
  lookup-AllValues P k ((j, w) ∷ m) {v} h e = ground (arith, lookup-AllValues P k m {v = v} h.1)
