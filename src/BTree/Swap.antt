-- ===== src/BTree/Swap.antt =====
-- The exchange of two elements, and of two runs of bytes, in a vector of src/Btree.cpp.
use mathlib.Core.List.{append_assoc}
use custom_database.Base.{
  ℕ, zero, suc, ◌+◌, ◌≡◌, refl, sym, ap, ◌∙◌, List, [], ◌∷◌, ◌++◌, Option, none, some, arith,
  length, length-append, get_elem?, set,
}
use custom_database.BTree.Nodes.{swap, swap_blocks}

module _ {A : Type 0} where
  pub get_elem?-append :
      (n : ℕ) (xs : List A) (a : A) (ys : List A)
      → n ≡ length xs
      → get_elem? (xs ++ a ∷ ys) n ≡ some a
  get_elem?-append zero [] a ys h = refl
  get_elem?-append zero (x ∷ xs) a ys h = absurd (omega arith)
  get_elem?-append (suc n) [] a ys h = absurd (omega arith)
  get_elem?-append (suc n) (x ∷ xs) a ys h = get_elem?-append n xs a ys (omega arith)

  set-append :
      (n : ℕ) (xs : List A) (a b : A) (ys : List A)
      → n ≡ length xs
      → set (xs ++ a ∷ ys) n b ≡ xs ++ b ∷ ys
  set-append zero [] a b ys h = refl
  set-append zero (x ∷ xs) a b ys h = absurd (omega arith)
  set-append (suc n) [] a b ys h = absurd (omega arith)
  set-append (suc n) (x ∷ xs) a b ys h = ap (λ r. x ∷ r) (set-append n xs a b ys (omega arith))

  -- The same two at the element `b` behind `xs ++ a ∷ mid`.
  pub get_elem?-behind :
      (i : ℕ) (xs mid ys : List A) (a b : A)
      → i ≡ length xs + suc (length mid)
      → get_elem? (xs ++ a ∷ (mid ++ b ∷ ys)) i ≡ some b
  get_elem?-behind i xs mid ys a b k =
      ap (λ l. get_elem? l i) (sym (append_assoc xs (a ∷ mid) (b ∷ ys)))
      ∙ get_elem?-append i (xs ++ a ∷ mid) b ys (omega (arith, length-append xs (a ∷ mid)))

  set-behind :
      (i : ℕ) (xs mid ys : List A) (a b c : A)
      → i ≡ length xs + suc (length mid)
      → set (xs ++ a ∷ (mid ++ b ∷ ys)) i c ≡ xs ++ a ∷ (mid ++ c ∷ ys)
  set-behind i xs mid ys a b c k =
      ap (λ l. set l i c) (sym (append_assoc xs (a ∷ mid) (b ∷ ys)))
      ∙ set-append i (xs ++ a ∷ mid) b c ys (omega (arith, length-append xs (a ∷ mid)))
      ∙ append_assoc xs (a ∷ mid) (c ∷ ys)

  -- The elements at j and i of a list change places.
  pub swap-append :
      (i j : ℕ) (xs mid ys : List A) (a b : A)
      → j ≡ length xs
      → i ≡ length xs + suc (length mid)
      → swap i j (xs ++ a ∷ (mid ++ b ∷ ys)) ≡ some (xs ++ b ∷ (mid ++ a ∷ ys))
  unfolding swap
  swap-append i j xs mid ys a b h k =
      let l = xs ++ a ∷ (mid ++ b ∷ ys) in
      ap
        (λ o. elim o [
          | none ↦ none
          | some c ↦ elim (get_elem? l j) [ none ↦ none | some d ↦ some (set (set l i d) j c) ]
        ])
        (get_elem?-behind i xs mid ys a b k)
      ∙ ap (λ o. elim o [ none ↦ none | some d ↦ some (set (set l i d) j b) ])
          (get_elem?-append j xs a (mid ++ b ∷ ys) h)
      ∙ ap some (
          ap (λ r. set r j b) (set-behind i xs mid ys a b a k)
          ∙ set-append j xs a b (mid ++ a ∷ ys) h)

-- Two runs of n bytes change places; `mid` lies between them.
pub swap_blocks-append :
    (n i j : ℕ) (pre u mid v post : List ℕ)
    → length u ≡ n
    → length v ≡ n
    → j ≡ length pre
    → i ≡ length pre + (n + length mid)
    → swap_blocks n i j (pre ++ (u ++ (mid ++ (v ++ post))))
      ≡ some (pre ++ (v ++ (mid ++ (u ++ post))))
unfolding swap_blocks
swap_blocks-append zero i j pre [] mid [] post hu hv h k = refl
swap_blocks-append zero i j pre (a ∷ u) mid v post hu hv h k = absurd (omega arith)
swap_blocks-append zero i j pre [] mid (b ∷ v) post hu hv h k = absurd (omega arith)
swap_blocks-append (suc n) i j pre [] mid v post hu hv h k = absurd (omega arith)
swap_blocks-append (suc n) i j pre (a ∷ u) mid [] post hu hv h k = absurd (omega arith)
swap_blocks-append (suc n) i j pre (a ∷ u) mid (b ∷ v) post hu hv h k =
    let next = λ (o : Option (List ℕ)). elim o as (λ x. Option (List ℕ)) [
      | none ↦ none
      | some bytes ↦ swap_blocks n (i + 1) (j + 1) bytes
    ] in
    let shape : (x y : List ℕ)
        → (pre ++ b ∷ []) ++ (x ++ ((mid ++ a ∷ []) ++ (y ++ post)))
          ≡ pre ++ b ∷ (x ++ (mid ++ a ∷ (y ++ post))) =
      λ x y.
        append_assoc pre (b ∷ []) _
        ∙ ap (λ r. pre ++ b ∷ (x ++ r)) (append_assoc mid (a ∷ []) (y ++ post)) in
    ap (λ r. next (swap i j (pre ++ a ∷ r))) (sym (append_assoc u mid (b ∷ (v ++ post))))
    ∙ ap next
        (swap-append i j pre (u ++ mid) (v ++ post) a b h (omega (arith, length-append u mid)))
    ∙ ap (swap_blocks n (i + 1) (j + 1))
        (ap (λ r. pre ++ b ∷ r) (append_assoc u mid (a ∷ (v ++ post))) ∙ sym (shape u v))
    ∙ swap_blocks-append n (i + 1) (j + 1) (pre ++ b ∷ []) u (mid ++ a ∷ []) v post (omega arith)
        (omega arith) (omega (arith, length-append pre (b ∷ [])))
        (omega (arith, length-append pre (b ∷ []), length-append mid (a ∷ [])))
    ∙ ap some (shape v u)
