-- ===== src/BTree/Leaf.antt =====
-- The insertion sort of insertNonFull in src/Btree.cpp: the vectors of a leaf as a list of entries.
use mathlib.Core.List.{append_assoc, map-append}
use custom_database.Base.{
  ℕ, suc, ◌*◌, ◌≡◌, refl, sym, ap, ◌∙◌, ◌⊎◌, Bool, true, false, List, [], ◌∷◌, ◌++◌, Option, none,
  some, arith, length, length-append, map, All, get_elem?,
}
use custom_database.Page.{KeyType}
use custom_database.BTree.Nodes.{swap, swap_blocks, less_at, swap_entries}
use custom_database.BTree.Swap.{get_elem?-append, get_elem?-behind, swap-append, swap_blocks-append}

module _ {K : Type 0} where
  -- The vectors of keys and of bytes that hold these entries.
  abbrev pub keys_of : List (K × List ℕ) → List K
  keys_of es = map (λ e. e.0) es

  abbrev pub bytes_of : List (K × List ℕ) → List ℕ
  bytes_of [] = []
  bytes_of (e ∷ es) = e.1 ++ bytes_of es

  abbrev pub Sized : ℕ → List (K × List ℕ) → Type 0
  Sized n es = All (λ e. length (e.1) ≡ n) es

  pub bytes_of-append :
      (xs ys : List (K × List ℕ)) → bytes_of (xs ++ ys) ≡ bytes_of xs ++ bytes_of ys
  bytes_of-append [] ys = refl
  bytes_of-append (x ∷ xs) ys =
      ap (λ r. x.1 ++ r) (bytes_of-append xs ys)
      ∙ sym (append_assoc (x.1) (bytes_of xs) (bytes_of ys))

  length-bytes_of :
      (n : ℕ) (xs : List (K × List ℕ)) → Sized n xs → length (bytes_of xs) ≡ length xs * n
  length-bytes_of n [] h = omega arith
  length-bytes_of n (x ∷ xs) h =
      omega (arith, h.0, length-append (x.1) (bytes_of xs), length-bytes_of n xs h.1)

  pub length-keys_of : (xs : List (K × List ℕ)) → length (keys_of xs) ≡ length xs
  length-keys_of [] = refl
  length-keys_of (x ∷ xs) = omega (arith, length-keys_of xs)

  pub keys_split :
      (ys : List (K × List ℕ)) (x e : K × List ℕ) (gs : List (K × List ℕ))
      → keys_of (ys ++ x ∷ e ∷ gs) ≡ keys_of ys ++ x.0 ∷ ([] ++ e.0 ∷ keys_of gs)
  keys_split ys x e gs = map-append (λ (e : K × List ℕ). e.0) ys (x ∷ e ∷ gs)

module _ {K : Type 0} (κ : KeyType K) (value_size : ℕ) where
  -- Where an entry goes that is placed in a list of entries: behind it are entries with greater
  -- keys, and right before it is none.
  pub record Place (xs : List (K × List ℕ)) (e : K × List ℕ) : Type 0 where
    pub before : List (K × List ℕ)
    pub after : List (K × List ℕ)
    pub split : xs ≡ before ++ after
    pub greater : All (λ x. κ.less e.0 x.0 ≡ true) after
    pub stops :
        (before ≡ [])
        ⊎ ((ys : List (K × List ℕ)) × (x : K × List ℕ) × (before ≡ ys ++ x ∷ [])
            × (κ.less e.0 x.0 ≡ false))

  module _ (ys : List (K × List ℕ)) (x e : K × List ℕ) (gs : List (K × List ℕ)) (j : ℕ) where
    keys_first : length ys ≡ j → get_elem? (keys_of (ys ++ x ∷ e ∷ gs)) j ≡ some (x.0)
    keys_first h =
        ap (λ l. get_elem? l j) (keys_split ys x e gs)
        ∙ get_elem?-append j (keys_of ys) (x.0) (e.0 ∷ keys_of gs)
            (omega (arith, length-keys_of ys))

    keys_second : length ys ≡ j → get_elem? (keys_of (ys ++ x ∷ e ∷ gs)) (suc j) ≡ some (e.0)
    keys_second h =
        ap (λ l. get_elem? l (suc j)) (keys_split ys x e gs)
        ∙ get_elem?-behind (suc j) (keys_of ys) [] (keys_of gs) (x.0) (e.0)
            (omega (arith, length-keys_of ys))

    pub less_at-last :
        length ys ≡ j
        → less_at κ value_size (keys_of (ys ++ x ∷ e ∷ gs)) (suc j) j ≡ some (κ.less (e.0) (x.0))
    unfolding less_at
    less_at-last h =
        ap
          (λ o. elim o as (λ _. Option Bool) [
            | none ↦ none
            | some a ↦ elim (get_elem? (keys_of (ys ++ x ∷ e ∷ gs)) j) as (λ _. Option Bool) [
              | none ↦ none
              | some b ↦ some (κ.less a b)
            ]
          ])
          (keys_second h)
        ∙ ap (λ o. elim o as (λ _. Option Bool) [ none ↦ none | some b ↦ some (κ.less (e.0) b) ])
            (keys_first h)

    swap-keys_of :
        length ys ≡ j
        → swap (suc j) j (keys_of (ys ++ x ∷ e ∷ gs)) ≡ some (keys_of (ys ++ e ∷ x ∷ gs))
    swap-keys_of h =
        ap (swap (suc j) j) (keys_split ys x e gs)
        ∙ swap-append (suc j) j (keys_of ys) [] (keys_of gs) (x.0) (e.0)
            (omega (arith, length-keys_of ys)) (omega (arith, length-keys_of ys))
        ∙ ap some (sym (keys_split ys e x gs))

    swap_blocks-bytes_of :
        length ys ≡ j
        → Sized value_size ys
        → length (x.1) ≡ value_size
        → length (e.1) ≡ value_size
        → swap_blocks value_size (suc j * value_size) (j * value_size) (bytes_of (ys ++ x ∷ e ∷ gs))
          ≡ some (bytes_of (ys ++ e ∷ x ∷ gs))
    swap_blocks-bytes_of h sized hx he =
        let size : j * value_size ≡ length (bytes_of ys) =
          ap (λ n. n * value_size) (sym h) ∙ sym (length-bytes_of value_size ys sized) in
        ap (swap_blocks value_size (suc j * value_size) (j * value_size))
          (bytes_of-append ys (x ∷ e ∷ gs))
        ∙ swap_blocks-append value_size (suc j * value_size) (j * value_size) (bytes_of ys) (x.1) []
            (e.1) (bytes_of gs) hx he size (omega (arith, size))
        ∙ ap some (sym (bytes_of-append ys (e ∷ x ∷ gs)))

    pub swap_entries-last :
        length ys ≡ j
        → Sized value_size ys
        → length (x.1) ≡ value_size
        → length (e.1) ≡ value_size
        → swap_entries κ value_size
            (suc j)
            j
            (keys_of (ys ++ x ∷ e ∷ gs))
            (bytes_of (ys ++ x ∷ e ∷ gs))
          ≡ some (keys_of (ys ++ e ∷ x ∷ gs), bytes_of (ys ++ e ∷ x ∷ gs))
    unfolding swap_entries
    swap_entries-last h sized hx he =
        ap
          (λ o. elim o as (λ _. Option (List K × List ℕ)) [
            | none ↦ none
            | some ks ↦
                elim (swap_blocks value_size (suc j * value_size) (j * value_size)
                    (bytes_of (ys ++ x ∷ e ∷ gs)))
                  as (λ _. Option (List K × List ℕ)) [ none ↦ none | some bytes ↦ some (ks, bytes) ]
          ])
          (swap-keys_of h)
        ∙ ap
            (λ o. elim o as (λ _. Option (List K × List ℕ)) [
              | none ↦ none
              | some bytes ↦ some (keys_of (ys ++ e ∷ x ∷ gs), bytes)
            ])
            (swap_blocks-bytes_of h sized hx he)
